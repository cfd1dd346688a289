-- ===== src/Agent.antt =====
-- cmd/node-agent/main.go: the agent on a node. The node's files, its commands and the network are a
-- `Machine` over any state of the world; `encoding/json` and the other packages of Go that the agent
-- calls are a `Library`. A failure of `http.NewRequest` is one of `send`.
pub mod Sync
pub mod Counters
pub mod Usage
pub mod Update
pub mod Round
use Prim.Native.String.{◌++◌}
use v2ray_platform.Base.{
  ℕ, String, Bool, Option, none, some, List, [], ◌∷◌, ◌++◌ as ◌+++◌, ◌==◌, not, ltb, leb, eqb,
  if◌then◌else◌,
}
use v2ray_platform.Base.Int64.{Int64}
use v2ray_platform.Base.Text.{trim_space}
use v2ray_platform.Base.Result.{Error, message, Result, ok, err}
use v2ray_platform.Maps.{Map}
use v2ray_platform.Domain.{Time}
use v2ray_platform.Config.{NodeAgentConfig}

pub record UsageCounter : Type 0 where
  pub uplink_bytes : Int64
  pub downlink_bytes : Int64

pub record AgentState : Type 0 where
  pub node_id : String
  pub node_token : String
  pub last_usage_hash : String
  pub usage_totals : Map UsageCounter

pub record RegisterRequest : Type 0 where
  pub bootstrap_token : String
  pub name : String
  pub region : String
  pub public_host : String
  pub provider : String
  pub tags : List String
  pub runtime_flavor : String

pub record RegisterResponse : Type 0 where
  pub node_id : String
  pub node_token : String
  pub config_version : Int64
  pub config : String

pub record HeartbeatRequest : Type 0 where
  pub applied_config_version : Int64
  pub public_host : String
  pub status : String
  pub arch : String

pub record PendingRemoval : Type 0 where
  pub member_uuid : String
  pub member_email : String

pub record HeartbeatResponse : Type 0 where
  pub status : String
  pub agent_md5 : String
  pub agent_download_url : String
  pub pending_removals : List PendingRemoval
  pub pending_additions : List PendingRemoval

pub record SyncRequest : Type 0 where
  pub config_version : Int64
  pub success : Bool
  pub message : String

pub record ConfigResponse : Type 0 where
  pub node_id : String
  pub config_version : Int64
  pub config : String
  pub updated_at : String

pub record UsageSnapshot : Type 0 where
  pub credential_uuid : String
  pub uplink_bytes : Int64
  pub downlink_bytes : Int64
  pub collected_at : String

pub record HttpRequest : Type 0 where
  pub method : String
  pub url : String
  pub headers : List (String × String)
  pub body : String

pub record HttpResponse : Type 0 where
  pub status_code : ℕ
  pub body : String

-- `send` is `client.Do` and the reading of the body, `run` starts a command and gives its output;
-- `read_file` gives nothing for a file that does not exist. The last nine are for the update of the
-- agent's own program.
pub record Machine (W : Type 0) : Type 0 where
  pub send : HttpRequest → W → Result HttpResponse × W
  pub read_file : String → W → Result (Option String)
  pub write_file : String → String → W → Result (Unit {0}) × W
  pub run : List String → W → (String × Option Error) × W
  pub executable : W → Result String
  pub read_bytes : String → W → Result String
  pub download : String → W → Result HttpResponse × W
  pub create_temp : String → W → Result String × W
  pub write_temp : String → String → W → Result (Unit {0}) × W
  pub remove : String → W → W
  pub chmod : String → W → Result (Unit {0}) × W
  pub rename : String → String → W → Result (Unit {0}) × W
  pub exec : String → W → Result (Unit {0}) × W

pub record Library : Type 0 where
  pub register_request : RegisterRequest → Result String
  pub register_response : String → Result RegisterResponse
  pub heartbeat_request : HeartbeatRequest → Result String
  pub heartbeat_response : String → Result HeartbeatResponse
  pub sync_request : SyncRequest → Result String
  pub config_response : String → Result ConfigResponse
  pub usage_request : List UsageSnapshot → Result String
  pub usage_payload : String → Result (List UsageSnapshot)
  pub state_text : AgentState → Result String
  pub state_of_text : String → Result AgentState
  pub sha256_hex : String → String
  pub md5_hex : String → String
  pub format_rfc3339 : Time → String
  pub goarch : String

abbrev pub bearer_header : String → List (String × String)
bearer_header token = if token == "" then [] else ("Authorization", "Bearer " ++ token) ∷ []

-- what `loadState` makes of the file
unfoldable pub loaded_state : Library → Result (Option String) → Result AgentState
loaded_state k (err e) = err e
loaded_state k (ok none) =
    ok (record { node_id = ""; node_token = ""; last_usage_hash = ""; usage_totals = [] })
loaded_state k (ok (some text)) = k.state_of_text text

module _ {W : Type 0} (m : Machine W) where
  -- `getJSON`
  unfoldable pub get_json : String → String → W → Result HttpResponse × W
  get_json url bearer w =
      m.send (record { method = "GET"; url = url; headers = bearer_header bearer; body = "" }) w

  unfoldable pub post_answered : Result HttpResponse × W → Result String × W
  post_answered (err e, w) = (err e, w)
  post_answered (ok response, w) =
      if leb 300 response.status_code
      then (err (message (trim_space response.body)), w)
      else (ok response.body, w)

  -- `postJSON`, up to the decoding of what is answered
  unfoldable pub post_json : String → String → Result String → W → Result String × W
  unfolding post_answered
  post_json url bearer (err e) w = (err e, w)
  post_json url bearer (ok body) w = post_answered (
      m.send
        (record {
          method = "POST";
          url = url;
          headers = ("Content-Type", "application/json") ∷ bearer_header bearer;
          body = body;
        })
        w)

  unfoldable pub run_failed : (String × Option Error) × W → Result (Unit {0}) × W
  run_failed ((output, none), w) = (ok tt, w)
  run_failed ((output, some e), w) = (err e, w)

  -- `runReload`
  unfoldable pub run_reload : String → W → Result (Unit {0}) × W
  unfolding run_failed
  run_reload command w =
      if trim_space command == ""
      then (ok tt, w)
      else run_failed (m.run ("sh" ∷ "-c" ∷ command ∷ []) w)

  -- `loadState`
  unfoldable pub load_state : Library → String → W → Result AgentState
  unfolding loaded_state
  load_state k path w = loaded_state k (m.read_file path w)

  -- `saveState`
  unfoldable pub save_text : String → Result String → W → Result (Unit {0}) × W
  save_text path (err e) w = (err e, w)
  save_text path (ok text) w = m.write_file path text w

  unfoldable pub save_state : Library → String → AgentState → W → Result (Unit {0}) × W
  unfolding save_text
  save_state k path state w = save_text path (k.state_text state) w
