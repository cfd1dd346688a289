-- ===== src/Store/Nodes.antt =====
-- internal/store/memory.go: heartbeats, sync results and the configurations of nodes.
pub mod Versions
use v2ray_platform.Base.{
  String, Bool, true, false, ◌&&◌, Option, none, some, List, [], ◌∷◌, ◌++◌, map, ◌==◌, ltb,
  if◌then◌else◌, contains, ◌*◌, ◌+◌, ◌||◌,
}
use v2ray_platform.Base.Int64.{Int64, lt64}
use v2ray_platform.Base.Result.{Result, ok, err, unauthorized, not_found, conflict, wrapped, ◌>>=◌}
use v2ray_platform.Base.Sort.{sort_slice, str_lt}
use v2ray_platform.Base.Text.{trim_space, to_lower}
use v2ray_platform.Maps.{Map, values, lookup, insert, delete, find_entry}
use v2ray_platform.Domain.{
  Time, Node, BootstrapToken, ConfigRevision, NodeSyncEvent, node_status_provisioning,
  node_status_online, node_status_degraded,
}
use v2ray_platform.Store.State.{
  MemoryStore, Method, Env, CreateBootstrapTokenInput, RegisterNodeInput, RegisterNodeOutput,
  HeartbeatInput, SyncResultInput, new_id, first_non_empty,
}
use v2ray_platform.Store.Rebuild.{rebuild_node_config_locked, expired_before}

unfoldable pub entry_or_unauthorized {ℓ} : {A : Type ℓ} → Option (String × A) → Result (String × A)
entry_or_unauthorized none = err unauthorized
entry_or_unauthorized (some x) = ok x

-- `findNodeByTokenLocked`, with the key that the node is stored under
unfoldable pub find_node_by_token_locked : Env → String → MemoryStore → Result (String × Node)
unfolding entry_or_unauthorized
find_node_by_token_locked e plain_token s =
    entry_or_unauthorized
      (find_entry (λ n. n.node_token_hash == e.sha256_hex (trim_space plain_token)) s.nodes)

unfoldable pub beaten_node : Time → HeartbeatInput → Node → Node
beaten_node now input n = record n {
  last_heartbeat_at = now;
  updated_at = now;
  public_host = if input.public_host == "" then n.public_host else input.public_host;
  status =
      if trim_space input.status == "degraded" then node_status_degraded else node_status_online;
  current_config_version =
      if lt64 n.current_config_version input.applied_config_version
      then input.applied_config_version
      else n.current_config_version;
}

unfoldable pub heartbeat_found :
    Env → HeartbeatInput → MemoryStore → Result (String × Node) → Result Node × MemoryStore
unfolding beaten_node
heartbeat_found e input s (err x) = (err x, s)
heartbeat_found e input s (ok (k, n)) =
    let node = beaten_node (e.clock 0) input n in
    (ok node, record s { nodes = insert k node s.nodes })

unfoldable pub heartbeat : Env → HeartbeatInput → Method Node
unfolding heartbeat_found find_node_by_token_locked
heartbeat e input s = heartbeat_found e input s (find_node_by_token_locked e input.node_token s)

unfoldable pub synced_node : Time → SyncResultInput → Node → Node
synced_node now input n =
    if input.success
    then record n {
      current_config_version = input.config_version;
      status = node_status_online;
      updated_at = now;
    }
    else record n { status = node_status_degraded; updated_at = now }

unfoldable pub record_sync_found :
    Env → SyncResultInput → MemoryStore → Result (String × Node) → Result (Unit {0}) × MemoryStore
unfolding new_id synced_node
record_sync_found e input s (err x) = (err x, s)
record_sync_found e input s (ok (k, n)) =
    let event : NodeSyncEvent = record {
      id = new_id e "sync" 0;
      node_id = n.id;
      config_version = input.config_version;
      success = input.success;
      message = input.message;
      occurred_at = e.clock 0;
    } in
    (
      ok tt,
      record s {
        sync_events = s.sync_events ++ event ∷ [];
        nodes = insert k (synced_node (e.clock 0) input n) s.nodes;
      },
    )

unfoldable pub record_sync_result : Env → SyncResultInput → Method (Unit {0})
unfolding record_sync_found find_node_by_token_locked
record_sync_result e input s =
    record_sync_found e input s (find_node_by_token_locked e input.node_token s)

unfoldable pub revision_or_not_found : Option ConfigRevision → Result ConfigRevision
revision_or_not_found none = err not_found
revision_or_not_found (some r) = ok r

unfoldable pub get_node_config_by_id : String → MemoryStore → Result ConfigRevision
unfolding revision_or_not_found
get_node_config_by_id node_id s = revision_or_not_found (lookup node_id s.revisions)

unfoldable pub get_node_config : Env → String → MemoryStore → Result ConfigRevision
unfolding find_node_by_token_locked get_node_config_by_id
get_node_config e node_token s = do
  (_, n) ← find_node_by_token_locked e node_token s
  get_node_config_by_id n.id s

unfoldable pub list_nodes : MemoryStore → List Node
list_nodes s = sort_slice (λ a b. ltb a.created_at b.created_at) (values s.nodes)

unfoldable pub delete_node : String → Method (Unit {0})
delete_node node_id s = (ok tt, record s { nodes = delete node_id s.nodes })

unfoldable pub rebuild_node_config : Env → String → Method ConfigRevision
rebuild_node_config e node_id s = rebuild_node_config_locked node_id (e.clock 0) s

unfoldable pub revisions_of : Option ConfigRevision → List ConfigRevision
revisions_of none = []
revisions_of (some r) = record r { config = "" } ∷ []

unfoldable pub list_node_config_revisions : String → MemoryStore → List ConfigRevision
unfolding revisions_of
list_node_config_revisions node_id s = revisions_of (lookup node_id s.revisions)

-- the in-memory store keeps no older revision
unfoldable pub rollback_node_config : String → Int64 → MemoryStore → Result ConfigRevision
rollback_node_config node_id version s = err not_found
