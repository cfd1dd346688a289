-- ===== src/Store/Bootstrap.antt =====
-- internal/store/memory.go: bootstrap tokens and the registration of nodes with them.
pub mod SingleUse
pub mod Tags
use v2ray_platform.Base.{
  String, Bool, true, false, ◌&&◌, Option, none, some, List, [], ◌∷◌, ◌++◌, map, ◌==◌, ltb,
  if◌then◌else◌, contains, ◌*◌, ◌+◌, ◌-◌, ◌%◌, ◌||◌,
}
use v2ray_platform.Base.Int64.{Int64, lt64, modulus, min_negative}
use v2ray_platform.Base.Result.{Result, ok, err, unauthorized, not_found, conflict, wrapped, ◌>>=◌}
use v2ray_platform.Base.Sort.{sort_slice, str_lt}
use v2ray_platform.Base.Text.{trim_space, to_lower}
use v2ray_platform.Maps.{Map, values, lookup, insert, delete, find_entry}
use v2ray_platform.Domain.{
  Time, Node, BootstrapToken, ConfigRevision, NodeSyncEvent, node_status_provisioning,
  node_status_online, node_status_degraded,
}
use v2ray_platform.Store.State.{
  MemoryStore, Method, Env, CreateBootstrapTokenInput, RegisterNodeInput, RegisterNodeOutput,
  HeartbeatInput, SyncResultInput, new_id, first_non_empty,
}
use v2ray_platform.Store.Rebuild.{rebuild_node_config_locked, expired_before}

-- the loop of `normalizeTags`: `seen` holds the tags of `out`
unfoldable pub normalize_tags_loop : List String → List String → List String
normalize_tags_loop [] out = out
normalize_tags_loop (t ∷ rest) out =
    let tag = to_lower (trim_space t) in
    normalize_tags_loop rest (if (tag == "") || contains out tag then out else out ++ tag ∷ [])

-- `normalizeTags` of helpers.go; nil is the empty list
unfoldable pub normalize_tags : List String → List String
unfolding normalize_tags_loop
normalize_tags tags = sort_slice str_lt (normalize_tags_loop tags [])

-- `t.Add(d)`: the duration is signed, and an instant before the zero time is the zero time here
unfoldable pub add_duration : Time → Int64 → Time
add_duration t d = if ltb d min_negative then t + d else t - (modulus - d)

-- `now.Add(time.Duration(hours) * time.Hour)`, when the hours are more than 0
unfoldable pub bootstrap_expiry : Time → Int64 → Option Time
unfolding add_duration
bootstrap_expiry now ttl_hours =
    if lt64 0 ttl_hours
    then some (add_duration now ((ttl_hours * 3600000000000) % modulus))
    else none

unfoldable pub create_with_token :
    Env
    → CreateBootstrapTokenInput
    → MemoryStore
    → Result String
    → Result (BootstrapToken × String) × MemoryStore
unfolding new_id bootstrap_expiry
create_with_token e input s (err x) = (err x, s)
create_with_token e input s (ok plain_token) =
    let token : BootstrapToken = record {
      id = new_id e "bt" 0;
      description = input.description;
      token_hash = e.sha256_hex plain_token;
      expires_at = bootstrap_expiry (e.clock 0) input.ttl_hours;
      used_at = none;
      created_at = e.clock 0;
    } in
    (
      ok (token, plain_token),
      record s { bootstrap_tokens = insert token.id token s.bootstrap_tokens },
    )

unfoldable pub create_bootstrap_token :
    Env → CreateBootstrapTokenInput → Method (BootstrapToken × String)
unfolding create_with_token
create_bootstrap_token e input s = create_with_token e input s (e.random_token 0)

-- `ListBootstrapTokens`, newest first
unfoldable pub list_bootstrap_tokens : MemoryStore → List BootstrapToken
list_bootstrap_tokens s =
    sort_slice (λ a b. ltb b.created_at a.created_at) (values s.bootstrap_tokens)

-- the tests on the token with the hash
unfoldable pub usable_token :
    Time → Option (String × BootstrapToken) → Result (String × BootstrapToken)
usable_token now none = err unauthorized
usable_token now (some (k, token)) =
    if expired_before token.expires_at now
    then err (wrapped unauthorized "bootstrap token expired")
    else ok (k, token)

-- `findBootstrapTokenLocked`, with the key that the token is stored under
unfoldable pub find_bootstrap_token_locked :
    Env → String → MemoryStore → Result (String × BootstrapToken)
unfolding usable_token
find_bootstrap_token_locked e plain_token s =
    usable_token (e.clock 0)
      (find_entry (λ t. t.token_hash == e.sha256_hex (trim_space plain_token)) s.bootstrap_tokens)

module _ (e : Env) (input : RegisterNodeInput) where
  -- `bt.UsedAt = &now`
  unfoldable pub use_token : String → BootstrapToken → MemoryStore → MemoryStore
  use_token k token s = record s {
    bootstrap_tokens = insert k (record token { used_at = some (e.clock 1) }) s.bootstrap_tokens;
  }

  unfoldable pub new_node : String → String → Node
  unfolding new_id normalize_tags first_non_empty
  new_node node_token route_key = record {
    id = new_id e "node" 0;
    name = input.name;
    region = input.region;
    public_host = input.public_host;
    provider = input.provider;
    tags = normalize_tags input.tags;
    runtime_flavor = first_non_empty input.runtime_flavor "v2ray";
    proxy_node_id = "";
    route_key = route_key;
    status = node_status_provisioning;
    last_heartbeat_at = 0;
    current_config_version = 0;
    node_token_hash = e.sha256_hex node_token;
    created_at = e.clock 1;
    updated_at = e.clock 1;
  }

  unfoldable pub registered :
      String
      → String
      → Result ConfigRevision × MemoryStore
      → Result RegisterNodeOutput × MemoryStore
  registered node_id node_token (err x, s) = (err x, s)
  registered node_id node_token (ok revision, s) = (
    ok (record {
      node_id = node_id;
      node_token = node_token;
      config_version = revision.config_version;
      config = revision.config;
    }),
    s,
  )

  -- after both tokens have been drawn, or the first failure
  unfoldable pub register_with :
      MemoryStore → Result String → Result String → Result RegisterNodeOutput × MemoryStore
  unfolding new_node registered
  register_with s (err x) r = (err x, s)
  register_with s (ok node_token) (err x) = (err x, s)
  register_with s (ok node_token) (ok route_key) =
      let node = new_node node_token route_key in
      registered node.id node_token (
        rebuild_node_config_locked node.id (e.clock 2)
          (record s { nodes = insert node.id node s.nodes }))

  unfoldable pub register_unused :
      String → BootstrapToken → Option Time → MemoryStore → Result RegisterNodeOutput × MemoryStore
  unfolding use_token register_with
  register_unused k token (some t) s = (err (wrapped conflict "bootstrap token already used"), s)
  register_unused k token none s =
      register_with (use_token k token s) (e.random_token 1) (e.random_token 2)

  unfoldable pub register_found :
      MemoryStore → Result (String × BootstrapToken) → Result RegisterNodeOutput × MemoryStore
  unfolding register_unused
  register_found s (err x) = (err x, s)
  register_found s (ok (k, token)) = register_unused k token token.used_at s

unfoldable pub register_node : Env → RegisterNodeInput → Method RegisterNodeOutput
unfolding register_found find_bootstrap_token_locked
register_node e input s =
    register_found e input s (find_bootstrap_token_locked e input.bootstrap_token s)
