-- ===== src/Agent/Sync.antt =====
-- cmd/node-agent/main.go: the registration, the heartbeat and the application of a configuration.
pub mod Outcome
use Prim.Native.String.{◌++◌}
use v2ray_platform.Base.{
  String, Bool, true, false, Option, none, some, [], not, ◌&&◌, ◌==◌, eqb, if◌then◌else◌,
}
use v2ray_platform.Base.Int64.{Int64}
use v2ray_platform.Base.Text.{trim_space}
use v2ray_platform.Base.Result.{Error, message, error_text, Result, ok, err}
use v2ray_platform.Config.{NodeAgentConfig}
use v2ray_platform.Agent.{
  AgentState, RegisterResponse, HeartbeatResponse, SyncRequest, ConfigResponse, HttpResponse,
  Machine, Library, get_json, post_json, run_reload,
}

-- `postJSON` with nothing to decode the answer into
unfoldable pub answer_dropped : {W : Type 0} → Result String × W → Result (Unit {0}) × W
answer_dropped (err e, w) = (err e, w)
answer_dropped (ok body, w) = (ok tt, w)

module _ {W : Type 0} (m : Machine W) (k : Library) (cfg : NodeAgentConfig) where
  unfoldable pub registered : RegisterResponse → Result (Unit {0}) × W → Result AgentState × W
  registered out (err e, w) = (err e, w)
  registered out (ok _, w) = (
    ok (record {
      node_id = out.node_id;
      node_token = out.node_token;
      last_usage_hash = "";
      usage_totals = [];
    }),
    w,
  )

  unfoldable pub register_decoded : Result RegisterResponse → W → Result AgentState × W
  unfolding registered
  register_decoded (err e) w = (err e, w)
  register_decoded (ok out) w = registered out (m.write_file cfg.config_output_path out.config w)

  unfoldable pub register_answered : Result String × W → Result AgentState × W
  unfolding register_decoded
  register_answered (err e, w) = (err e, w)
  register_answered (ok body, w) = register_decoded (k.register_response body) w

  unfoldable pub register : W → Result AgentState × W
  unfolding register_answered
  register w = register_answered (
      post_json m (cfg.control_plane_url ++ "/api/agent/register") ""
        (k.register_request (record {
          bootstrap_token = cfg.bootstrap_token;
          name = cfg.node_name;
          region = cfg.node_region;
          public_host = cfg.node_public_host;
          provider = cfg.node_provider;
          tags = cfg.node_tags;
          runtime_flavor = cfg.runtime_flavor;
        }))
        w)

  unfoldable pub heartbeat_answered : Result String × W → Result HeartbeatResponse × W
  heartbeat_answered (err e, w) = (err e, w)
  heartbeat_answered (ok body, w) = (k.heartbeat_response body, w)

  unfoldable pub heartbeat : AgentState → Int64 → W → Result HeartbeatResponse × W
  unfolding heartbeat_answered
  heartbeat state applied_version w = heartbeat_answered (
      post_json m (cfg.control_plane_url ++ "/api/agent/heartbeat") state.node_token
        (k.heartbeat_request (record {
          applied_config_version = applied_version;
          public_host = cfg.node_public_host;
          status = "online";
          arch = k.goarch;
        }))
        w)

  unfoldable pub report_sync_result : AgentState → Int64 → Bool → String → W → Result (Unit {0}) × W
  unfolding answer_dropped
  report_sync_result state version success text w = answer_dropped (
      post_json m (cfg.control_plane_url ++ "/api/agent/sync-result") state.node_token
        (k.sync_request (record { config_version = version; success = success; message = text })) w)

  module _ (state : AgentState) (current_version : Int64) where
    unfoldable pub sync_reported :
        ConfigResponse → Result (Unit {0}) × W → (Int64 × Option Error) × W
    sync_reported out (err e, w) = ((current_version, some e), w)
    sync_reported out (ok _, w) = ((out.config_version, none), w)

    unfoldable pub config_reloaded :
        ConfigResponse → Result (Unit {0}) × W → (Int64 × Option Error) × W
    unfolding sync_reported
    config_reloaded out (err e, w) = (
      (current_version, some e),
      (report_sync_result state out.config_version false (error_text e) w).1,
    )
    config_reloaded out (ok _, w) =
        sync_reported out (report_sync_result state out.config_version true "applied" w)

    unfoldable pub config_written :
        ConfigResponse → Result (Unit {0}) × W → (Int64 × Option Error) × W
    unfolding config_reloaded
    config_written out (err e, w) = (
      (current_version, some e),
      (report_sync_result state out.config_version false (error_text e) w).1,
    )
    config_written out (ok _, w) = config_reloaded out (run_reload m cfg.reload_command w)

    unfoldable pub config_decoded : Result ConfigResponse → W → (Int64 × Option Error) × W
    unfolding config_written
    config_decoded (err e) w = ((current_version, some e), w)
    config_decoded (ok out) w =
        if eqb out.config_version current_version && not (out.config == "")
        then ((current_version, none), w)
        else config_written out (m.write_file cfg.config_output_path out.config w)

    unfoldable pub config_answered : Result HttpResponse × W → (Int64 × Option Error) × W
    unfolding config_decoded
    config_answered (err e, w) = ((current_version, some e), w)
    config_answered (ok response, w) =
        if not (eqb response.status_code 200)
        then ((current_version, some (message (trim_space response.body))), w)
        else config_decoded (k.config_response response.body) w

    -- `syncConfig`, with the version and the error that it returns
    unfoldable pub sync_config : W → (Int64 × Option Error) × W
    unfolding config_answered
    sync_config w =
        config_answered
          (get_json m (cfg.control_plane_url ++ "/api/agent/config") state.node_token w)
