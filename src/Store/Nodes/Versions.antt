-- ===== src/Store/Nodes/Versions.antt =====
-- What heartbeats and sync results do to the nodes.
use v2ray_platform.Base.{
  String, ◌≡◌, ◌≢◌, refl, ◌⊎◌, inl, inr, Bool, true, false, none, some, List, [], ◌∷◌, ◌++◌, arith,
  ◌==◌, eq_iff, if◌then◌else◌, any_of, Bool-cases,
}
use v2ray_platform.Base.Int64.{lt64, le64}
use v2ray_platform.Base.Text.{trim_space}
use v2ray_platform.Base.Result.{ok, err, unauthorized}
use v2ray_platform.Maps.{Map, values, lookup, insert, find_entry, lookup-insert, lookup-insert_self}
use v2ray_platform.Domain.{
  Time, Node, NodeSyncEvent, UsageSnapshot, node_status_online, node_status_degraded,
}
use v2ray_platform.Store.State.{MemoryStore, Env, HeartbeatInput, SyncResultInput, new_id}
use v2ray_platform.Store.Usage.{record_usage, record_found}
use v2ray_platform.Store.Nodes.{
  find_node_by_token_locked, beaten_node, heartbeat_found, heartbeat, synced_node,
  record_sync_found, record_sync_result, get_node_config,
}

beaten_node-newest :
    (now : Time) (input : HeartbeatInput) (n : Node)
    → let v = (beaten_node now input n).current_config_version in
      ((v ≡ n.current_config_version) ⊎ (v ≡ input.applied_config_version))
      × (le64 n.current_config_version v ≡ true)
      × (le64 input.applied_config_version v ≡ true)
unfolding beaten_node le64 lt64
beaten_node-newest now input n =
    elim (Bool-cases (lt64 n.current_config_version input.applied_config_version)) [
      | inl older ↦ rw (older) (inr refl, ground arith, ground arith)
      | inr newer ↦ rw (newer) (inl refl, ground arith, ground arith)
    ]

lookup-other {ℓ} :
    {V : Type ℓ} (k j : String) (v : V) (m : Map V) → j ≢ k → lookup j (insert k v m) ≡ lookup j m
lookup-other k j v m h =
    let differ : (k == j) ≡ false = ground (arith, eq_iff k j) in rw (lookup-insert, differ)

-- What a heartbeat at an instant makes of a node: the larger of the two versions is the one that it
-- runs, it has been seen at the instant, and its identifier and token are as they were.
pub record IsBeaten (now : Time) (input : HeartbeatInput) (n n' : Node) : Type 0 where
  pub one_of :
      (n'.current_config_version ≡ n.current_config_version)
      ⊎ (n'.current_config_version ≡ input.applied_config_version)
  pub not_lowered : le64 n.current_config_version n'.current_config_version ≡ true
  pub not_behind : le64 input.applied_config_version n'.current_config_version ≡ true
  pub seen : n'.last_heartbeat_at ≡ now
  pub same_id : n'.id ≡ n.id
  pub same_token : n'.node_token_hash ≡ n.node_token_hash

-- A heartbeat whose token is that of a node succeeds; the version that the node runs is then the larger
-- of its own and the one that the agent reports, the node has been seen now and keeps its identifier
-- and token, and the other nodes are left alone.
pub heartbeat-newest :
    (e : Env) (input : HeartbeatInput) (s : MemoryStore) (k : String) (n : Node)
    → find_node_by_token_locked e input.node_token s ≡ ok (k, n)
    → (n' : Node) × ((heartbeat e input s).0 ≡ ok n')
      × (lookup k (heartbeat e input s).1.nodes ≡ some n')
      × IsBeaten (e.clock 0) input n n'
      × ((j : String) → j ≢ k → lookup j (heartbeat e input s).1.nodes ≡ lookup j s.nodes)
unfolding heartbeat heartbeat_found beaten_node
heartbeat-newest e input s k n found =
    let facts = beaten_node-newest (e.clock 0) input n in
    (
      beaten_node (e.clock 0) input n,
      rw (found),
      rw (found, lookup-insert_self),
      record {
        one_of = facts.0;
        not_lowered = facts.1;
        not_behind = facts.2;
        seen = refl;
        same_id = refl;
        same_token = refl;
      },
      λ j h. rw (found) (lookup-other k j (beaten_node (e.clock 0) input n) s.nodes h),
    )

-- the node's token has the digest
abbrev pub has_token : String → Node → Bool
has_token digest n = n.node_token_hash == digest

-- A search finds an entry that passes the test, and none only if no value passes it.
find_entry-none {ℓ} :
    {V : Type ℓ} (p : V → Bool) (m : Map V) → any_of p (values m) ≡ false → find_entry p m ≡ none
unfolding find_entry any_of
find_entry-none p [] h = refl
find_entry-none p ((k, v) ∷ rest) h = elim (Bool-cases (p v)) [
  | inl passed ↦ cc (rw passed at h)
  | inr other ↦ rw (other) (find_entry-none p rest (rw other at h))
]

find_entry-some {ℓ} :
    {V : Type ℓ} (p : V → Bool) (m : Map V)
    → any_of p (values m) ≡ true
    → (k : String) × (v : V) × (find_entry p m ≡ some (k, v)) × (p v ≡ true)
unfolding find_entry any_of
find_entry-some p [] h = cc
find_entry-some p ((k, v) ∷ rest) h = elim (Bool-cases (p v)) [
  | inl passed ↦ (k, v, rw (passed), passed)
  | inr other ↦
      let found = find_entry-some p rest (rw other at h) in
      (found.0, found.1, rw (other) found.2, found.3)
]

-- the calls of an agent with a token: the result of each, and the store after it
pub record IsRefused (e : Env) (token : String) (beat : HeartbeatInput) (result : SyncResultInput)
    (snapshots : List UsageSnapshot) (s : MemoryStore) : Type 0 where
  pub refused_heartbeat : heartbeat e (record beat { node_token = token }) s ≡ (err unauthorized, s)
  pub refused_sync_result :
      record_sync_result e (record result { node_token = token }) s ≡ (err unauthorized, s)
  pub refused_usage : record_usage e token snapshots s ≡ (err unauthorized, s)
  pub refused_config : get_node_config e token s ≡ err unauthorized

-- An agent's token decides its calls: either no stored node has the digest of the trimmed token, and
-- then a heartbeat, a sync result, a report of usage and a request for a configuration are all refused
-- as unauthorized and leave the store as it is; or some stored node has it, and then a heartbeat
-- succeeds for a node with this digest.
pub node_token-unauthorized :
    (e : Env) (beat : HeartbeatInput) (result : SyncResultInput) (snapshots : List UsageSnapshot)
    (token : String) (s : MemoryStore)
    → let digest = e.sha256_hex (trim_space token) in
      ((any_of (has_token digest) (values s.nodes) ≡ false)
        × IsRefused e token beat result snapshots s)
      ⊎ ((any_of (has_token digest) (values s.nodes) ≡ true)
          × ((n : Node) × ((heartbeat e (record beat { node_token = token }) s).0 ≡ ok n)
              × (n.node_token_hash ≡ digest)))
unfolding heartbeat heartbeat_found record_sync_result record_sync_found get_node_config
    record_usage record_found find_node_by_token_locked beaten_node
node_token-unauthorized e beat result snapshots token s =
    let digest = e.sha256_hex (trim_space token) in
    elim (Bool-cases (any_of (has_token digest) (values s.nodes))) [
      | inr nobody ↦
          let gone = find_entry-none (has_token digest) s.nodes nobody in
          inl (
            nobody,
            record {
              refused_heartbeat = rw (gone);
              refused_sync_result = rw (gone);
              refused_usage = rw (gone);
              refused_config = rw (gone);
            },
          )
      | inl somebody ↦
          let found = find_entry-some (has_token digest) s.nodes somebody in
          inr (
            somebody,
            (
              beaten_node (e.clock 0) (record beat { node_token = token }) found.1,
              rw (found.2) refl,
              (eq_iff found.1.node_token_hash digest).0 found.3,
            ),
          )
    ]

-- What a sync result makes of a node, and the event that it leaves.
pub record IsRecorded (now : Time) (input : SyncResultInput) (n n' : Node) (event : NodeSyncEvent)
    : Type 0 where
  pub version :
      n'.current_config_version
      ≡ (if input.success then input.config_version else n.current_config_version)
  pub status : n'.status ≡ (if input.success then node_status_online else node_status_degraded)
  pub same_id : n'.id ≡ n.id
  pub same_token : n'.node_token_hash ≡ n.node_token_hash
  pub event_node : event.node_id ≡ n.id
  pub event_version : event.config_version ≡ input.config_version
  pub event_success : event.success ≡ input.success
  pub event_message : event.message ≡ input.message
  pub event_at : event.occurred_at ≡ now

-- A sync result of a node: a success sets the version that the node runs to the one that was applied
-- and puts it online, a failure degrades the node and leaves its version. Either appends one event, with
-- the node, the version, the outcome and the message of the result, after the events that were there,
-- and leaves the other nodes alone.
pub record_sync_result-outcome :
    (e : Env) (input : SyncResultInput) (s : MemoryStore) (k : String) (n : Node)
    → find_node_by_token_locked e input.node_token s ≡ ok (k, n)
    → (n' : Node) × (event : NodeSyncEvent) × ((record_sync_result e input s).0 ≡ ok tt)
      × (lookup k (record_sync_result e input s).1.nodes ≡ some n')
      × ((record_sync_result e input s).1.sync_events ≡ s.sync_events ++ event ∷ [])
      × IsRecorded (e.clock 0) input n n' event
      × ((j : String) → j ≢ k → lookup j (record_sync_result e input s).1.nodes ≡ lookup j s.nodes)
unfolding record_sync_result record_sync_found synced_node
record_sync_result-outcome e input s k n found = (
  synced_node (e.clock 0) input n,
  record {
    id = new_id e "sync" 0;
    node_id = n.id;
    config_version = input.config_version;
    success = input.success;
    message = input.message;
    occurred_at = e.clock 0;
  },
  rw (found),
  rw (found, lookup-insert_self),
  rw (found) refl,
  record {
    version = ground arith;
    status = ground arith;
    same_id = ground arith;
    same_token = ground arith;
    event_node = refl;
    event_version = refl;
    event_success = refl;
    event_message = refl;
    event_at = refl;
  },
  λ j h. rw (found) (lookup-other k j (synced_node (e.clock 0) input n) s.nodes h),
)
