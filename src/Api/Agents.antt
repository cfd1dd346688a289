-- ===== src/Api/Agents.antt =====
-- internal/api/controlplane.go and internal/api/http.go: the requests of agents. The decoded body of
-- a request is given with the failure of its decoding; the reply has the status code and what is
-- written as JSON.
pub mod Delivery
use Prim.Native.String.{◌++◌}
use v2ray_platform.Base.{ℕ, String, Bool, List, [], ◌∷◌, ◌==◌, if◌then◌else◌}
use v2ray_platform.Base.Int64.{Int64}
use v2ray_platform.Base.Text.{trim_space, trim_prefix}
use v2ray_platform.Base.Result.{
  Error, unauthorized, not_found, conflict, wrapped, message, error_text, Result, ok, err,
}
use v2ray_platform.Domain.{
  Node, ConfigRevision, UsageSnapshot, PendingUserRemoval, PendingUserAddition,
}
use v2ray_platform.Store.State.{MemoryStore, Env, RegisterNodeInput, RegisterNodeOutput}
use v2ray_platform.Store.Bootstrap.{register_node}
use v2ray_platform.Store.Nodes.{heartbeat, record_sync_result, get_node_config}
use v2ray_platform.Store.Usage.{record_usage}
use v2ray_platform.Store.Pending.{get_and_clear_pending_removals, get_and_clear_pending_additions}

pub data Reply (A : Type 0) : Type 0 where
  refused : ℕ → String → Reply A
  served : ℕ → A → Reply A

pub record HeartbeatRequest : Type 0 where
  pub applied_config_version : Int64
  pub public_host : String
  pub status : String
  pub arch : String

pub record HeartbeatResponse : Type 0 where
  pub status : String
  pub agent_md5 : String
  pub agent_download_url : String
  pub pending_removals : List PendingUserRemoval
  pub pending_additions : List PendingUserAddition

pub record SyncResultRequest : Type 0 where
  pub config_version : Int64
  pub success : Bool
  pub message : String

-- the agent's program that is offered: its address, the digests that are cached by architecture, and
-- `strings.ReplaceAll`
pub record Release : Type 0 where
  pub agent_download_url : String
  pub cached_md5 : String → String
  pub replace_all : String → String → String → String

-- the status of `writeStoreError`
unfoldable pub store_error_status : Error → ℕ
store_error_status unauthorized = 401
store_error_status not_found = 404
store_error_status conflict = 409
store_error_status (wrapped e text) = store_error_status e
store_error_status (message text) = 500

unfoldable pub write_store_error : {A : Type 0} → Error → Reply A
write_store_error x = refused (store_error_status x) (error_text x)

unfoldable pub bearer_token : String → String
bearer_token header = trim_space (trim_prefix (trim_space header) "Bearer")

unfoldable pub removals_cleared :
    Result (List PendingUserRemoval) × MemoryStore → List PendingUserRemoval × MemoryStore
removals_cleared (ok removals, s) = (removals, s)
removals_cleared (err x, s) = ([], s)

unfoldable pub additions_cleared :
    Result (List PendingUserAddition) × MemoryStore → List PendingUserAddition × MemoryStore
additions_cleared (ok additions, s) = (additions, s)
additions_cleared (err x, s) = ([], s)

-- the digest and the address of the program for an architecture, empty if none is offered
unfoldable pub offered : Release → String → String × String
offered release arch =
    let named = if arch == "" then "amd64" else arch in
    let url = release.agent_download_url in
    if url == "" then ("", "") else if release.cached_md5 named == "" then ("", "") else (
      release.cached_md5 named,
      (if named == "arm64" then release.replace_all url "amd64" "arm64" else url),
    )

unfoldable pub heartbeat_stored :
    Release → HeartbeatRequest → Result Node × MemoryStore → Reply HeartbeatResponse × MemoryStore
unfolding write_store_error removals_cleared additions_cleared offered
heartbeat_stored release request (err x, s) = (write_store_error x, s)
heartbeat_stored release request (ok node, s) =
    let (removals, s₁) = removals_cleared (get_and_clear_pending_removals node.id s) in
    let (additions, s₂) = additions_cleared (get_and_clear_pending_additions node.id s₁) in
    let (md5, url) = offered release request.arch in
    (
      served 200 (record {
        status = "ok";
        agent_md5 = md5;
        agent_download_url = url;
        pending_removals = removals;
        pending_additions = additions;
      }),
      s₂,
    )

unfoldable pub handle_agent_heartbeat :
    Env
    → Release
    → String
    → Result HeartbeatRequest
    → MemoryStore
    → Reply HeartbeatResponse × MemoryStore
unfolding heartbeat_stored bearer_token
handle_agent_heartbeat e release authorization (err x) s = (refused 400 (error_text x), s)
handle_agent_heartbeat e release authorization (ok request) s = heartbeat_stored release request (
    heartbeat e
      (record {
        node_token = bearer_token authorization;
        applied_config_version = request.applied_config_version;
        public_host = request.public_host;
        status = request.status;
      })
      s)

unfoldable pub answered : {A : Type 0} → ℕ → Result A × MemoryStore → Reply A × MemoryStore
unfolding write_store_error
answered code (ok a, s) = (served code a, s)
answered code (err x, s) = (write_store_error x, s)

unfoldable pub handle_agent_register :
    Env → Result RegisterNodeInput → MemoryStore → Reply RegisterNodeOutput × MemoryStore
unfolding answered
handle_agent_register e (err x) s = (refused 400 (error_text x), s)
handle_agent_register e (ok request) s = answered 201 (register_node e request s)

unfoldable pub handle_agent_config : Env → String → MemoryStore → Reply ConfigRevision × MemoryStore
unfolding answered bearer_token
handle_agent_config e authorization s =
    answered 200 (get_node_config e (bearer_token authorization) s, s)

unfoldable pub handle_agent_sync_result :
    Env → String → Result SyncResultRequest → MemoryStore → Reply (Unit {0}) × MemoryStore
unfolding answered bearer_token
handle_agent_sync_result e authorization (err x) s = (refused 400 (error_text x), s)
handle_agent_sync_result e authorization (ok request) s = answered 200 (
    record_sync_result e
      (record {
        node_token = bearer_token authorization;
        config_version = request.config_version;
        success = request.success;
        message = request.message;
      })
      s)

unfoldable pub handle_agent_usage :
    Env → String → Result (List UsageSnapshot) → MemoryStore → Reply (Unit {0}) × MemoryStore
unfolding answered bearer_token
handle_agent_usage e authorization (err x) s = (refused 400 (error_text x), s)
handle_agent_usage e authorization (ok snapshots) s =
    answered 200 (record_usage e (bearer_token authorization) snapshots s)
