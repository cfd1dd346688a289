-- ===== src/Agent/Round.antt =====
-- cmd/node-agent/main.go: `main`, its start and one round of its loop. What is only logged is left out.
pub mod Totals
pub mod Collection
pub mod Bookings
use Prim.Native.String.{◌++◌}
use v2ray_platform.Base.{
  ℕ, zero, suc, String, Bool, true, false, Option, none, some, List, [], ◌∷◌, not, ◌&&◌, ◌||◌, ◌==◌,
  if◌then◌else◌,
}
use v2ray_platform.Base.Int64.{Int64}
use v2ray_platform.Base.Result.{Error, Result, ok, err}
use v2ray_platform.Domain.{Time}
use v2ray_platform.Config.{NodeAgentConfig}
use v2ray_platform.Agent.{
  AgentState, PendingRemoval, HeartbeatResponse, Machine, Library, load_state, save_state,
}
use v2ray_platform.Agent.Sync.{register, heartbeat, sync_config}
use v2ray_platform.Agent.Counters.{Patterns, agent_states_equal}
use v2ray_platform.Agent.Usage.{should_collect_usage, maybe_upload_usage}
use v2ray_platform.Agent.Update.{Update, up_to_date, replaced, failed, maybe_self_update}

-- what `main` keeps between the rounds
pub record Agent : Type 0 where
  pub state : AgentState
  pub applied_version : Int64
  pub last_usage_attempt : Option Time

module _ {W : Type 0} (m : Machine W) (k : Library) (p : Patterns) (cfg : NodeAgentConfig) where
  -- `removeV2RayUser`
  unfoldable pub remove_v2ray_user : String → W → W
  remove_v2ray_user identifier w =
      (m.run
        ("v2ray"
          ∷ "api"
          ∷ "rmui"
          ∷ ("--server=" ++ cfg.usage_query_server)
          ∷ "-inboundTag=vmess-inbound"
          ∷ ("-email=" ++ identifier)
          ∷ [])
        w).1

  -- `addV2RayUser`
  unfoldable pub add_v2ray_user : String → W → W
  add_v2ray_user uuid w =
      let user_json =
        "{\"id\":\""
        ++ (uuid ++ ("\",\"alterId\":0,\"email\":\"" ++ (uuid ++ "\",\"level\":0}"))) in
      (m.run
        ("v2ray"
          ∷ "api"
          ∷ "adui"
          ∷ ("--server=" ++ cfg.usage_query_server)
          ∷ "-inboundTag=vmess-inbound"
          ∷ ("-users=" ++ user_json)
          ∷ [])
        w).1

  unfoldable pub remove_users : List PendingRemoval → W → W
  unfolding remove_v2ray_user
  remove_users [] w = w
  remove_users (r ∷ rest) w = remove_users rest (remove_v2ray_user r.member_uuid w)

  unfoldable pub add_users : List PendingRemoval → W → W
  unfolding add_v2ray_user
  add_users [] w = w
  add_users (a ∷ rest) w = add_users rest (add_v2ray_user a.member_uuid w)

  unfoldable pub updated : HeartbeatResponse → Update × W → Bool × W
  unfolding remove_users add_users
  updated response (replaced, w) = (false, w)
  updated response (up_to_date, w) =
      (true, add_users response.pending_additions (remove_users response.pending_removals w))
  updated response (failed e, w) =
      (true, add_users response.pending_additions (remove_users response.pending_removals w))

  -- The answer to a heartbeat; false when the program has been replaced.
  unfoldable pub heartbeat_handled : Result HeartbeatResponse × W → Bool × W
  unfolding updated
  heartbeat_handled (err e, w) = (true, w)
  heartbeat_handled (ok response, w) =
      if not (response.agent_md5 == "") && not (response.agent_download_url == "")
      then updated response (maybe_self_update m k response.agent_md5 response.agent_download_url w)
      else updated response (up_to_date, w)

  unfoldable pub synced : Agent → (Int64 × Option Error) × W → Agent × W
  synced a ((version, some e), w) = (a, w)
  synced a ((version, none), w) = (record a { applied_version = version }, w)

  unfoldable pub collected : Agent → (AgentState × Option Error) × W → Agent × W
  collected a ((changed, some e), w) = (a, w)
  collected a ((changed, none), w) =
      if agent_states_equal changed a.state
      then (a, w)
      else (record a { state = changed }, (save_state m k cfg.state_path changed w).1)

  -- The readings of the clock are those of `time.Since`, of the attempt and of the snapshots.
  unfoldable pub collect : (ℕ → Time) → Agent × W → Agent × W
  unfolding collected
  collect at (a, w) =
      if should_collect_usage cfg a.last_usage_attempt (at 0)
      then collected (record a { last_usage_attempt = some (at 1) })
          (maybe_upload_usage m k p cfg a.state (at 2) w)
      else (a, w)

  unfoldable pub after_heartbeat : (ℕ → Time) → Agent → Bool × W → Option Agent × W
  unfolding synced collect
  after_heartbeat at a (false, w) = (none, w)
  after_heartbeat at a (true, w) =
      let done = collect at (synced a (sync_config m k cfg a.state a.applied_version w)) in
      (some done.0, done.1)

  -- one round of the loop; no agent is left when the program has been replaced
  unfoldable pub round : (ℕ → Time) → Agent → W → Option Agent × W
  unfolding after_heartbeat heartbeat_handled
  round at a w =
      after_heartbeat at a (heartbeat_handled (heartbeat m k cfg a.state a.applied_version w))

  unfoldable pub started : AgentState → W → Agent × W
  unfolding synced
  started state w =
      let fresh : Agent = record {
        state = state;
        applied_version = 0;
        last_usage_attempt = none;
      } in
      synced fresh (sync_config m k cfg state 0 w)

  unfoldable pub registration_saved : AgentState → Result (Unit {0}) × W → Result Agent × W
  unfolding started
  registration_saved state (err e, w) = (err e, w)
  registration_saved state (ok _, w) = (ok (started state w).0, (started state w).1)

  unfoldable pub registration_done : Result AgentState × W → Result Agent × W
  unfolding registration_saved
  registration_done (err e, w) = (err e, w)
  registration_done (ok state, w) = registration_saved state (save_state m k cfg.state_path state w)

  unfoldable pub state_loaded : Result AgentState → W → Result Agent × W
  unfolding registration_done started
  state_loaded (err e) w = (err e, w)
  state_loaded (ok state) w =
      if (state.node_id == "") || (state.node_token == "")
      then registration_done (register m k cfg w)
      else (ok (started state w).0, (started state w).1)

  -- `main` up to the loop; an error is `log.Fatal`
  unfoldable pub start : W → Result Agent × W
  unfolding state_loaded
  start w = state_loaded (load_state m k cfg.state_path w) w
