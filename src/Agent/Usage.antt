-- ===== src/Agent/Usage.antt =====
-- cmd/node-agent/main.go: the collection and the upload of usage. Each of the three returns a state
-- and perhaps an error.
use Prim.Native.String.{◌++◌}
use v2ray_platform.Base.{
  String, Bool, true, false, Option, none, some, List, [], ◌∷◌, ◌-◌, not, ◌||◌, ◌==◌, leb,
  if◌then◌else◌,
}
use v2ray_platform.Base.Int64.{le64}
use v2ray_platform.Base.Text.{trim_space, equal_fold}
use v2ray_platform.Base.Result.{Error, message, error_text, Result, ok, err}
use v2ray_platform.Maps.{Map}
use v2ray_platform.Domain.{Time}
use v2ray_platform.Config.{NodeAgentConfig}
use v2ray_platform.Agent.{AgentState, UsageCounter, UsageSnapshot, Machine, Library, post_json}
use v2ray_platform.Agent.Counters.{Patterns, is_empty, parse_usage_counters, diff_usage_counters}
use v2ray_platform.Agent.Sync.{answer_dropped}

-- `shouldCollectUsage`: no attempt yet is the zero time; the second instant is `time.Now()`
unfoldable pub should_collect_usage : NodeAgentConfig → Option Time → Time → Bool
should_collect_usage cfg last_attempt now =
    if (cfg.usage_source == "") || (cfg.usage_source == "disabled")
    then false
    else if le64 cfg.usage_collection_interval 0
    then true
    else elim last_attempt [
      | none ↦ true
      | some last ↦ leb cfg.usage_collection_interval (now - last)
    ]

unfoldable pub usage_command : NodeAgentConfig → List String
usage_command cfg =
    if not (trim_space cfg.usage_query_command == "")
    then "sh" ∷ "-c" ∷ cfg.usage_query_command ∷ []
    else if equal_fold cfg.runtime_flavor "xray"
    then "xray" ∷ "api" ∷ "statsquery" ∷ ("--server=" ++ cfg.usage_query_server) ∷ []
    else "v2ctl"
      ∷ "api"
      ∷ ("--server=" ++ cfg.usage_query_server)
      ∷ "StatsService.QueryStats"
      ∷ "pattern: \"\" reset: false"
      ∷ []

module _ {W : Type 0} (m : Machine W) (k : Library) (p : Patterns) (cfg : NodeAgentConfig) where
  unfoldable pub query_answered : (String × Option Error) × W → Result String × W
  query_answered ((output, none), w) = (ok output, w)
  query_answered ((output, some e), w) =
      let shown = trim_space output in
      (err (message (if shown == "" then error_text e else shown)), w)

  unfoldable pub query_runtime_usage : W → Result String × W
  unfolding query_answered usage_command
  query_runtime_usage w = query_answered (m.run (usage_command cfg) w)

  -- the call of `postJSON` with usage
  unfoldable pub post_usage : AgentState → List UsageSnapshot → W → Result (Unit {0}) × W
  unfolding answer_dropped
  post_usage state snapshots w = answer_dropped (
      post_json m (cfg.control_plane_url ++ "/api/agent/usage") state.node_token
        (k.usage_request snapshots) w)

  unfoldable pub uploaded :
      AgentState → AgentState → Result (Unit {0}) × W → (AgentState × Option Error) × W
  uploaded failed done (err e, w) = ((failed, some e), w)
  uploaded failed done (ok _, w) = ((done, none), w)

  unfoldable pub upload_payload :
      AgentState → String → Result (List UsageSnapshot) → W → (AgentState × Option Error) × W
  unfolding uploaded post_usage
  upload_payload state hash (err e) w = ((state, some e), w)
  upload_payload state hash (ok snapshots) w =
      let hashed : AgentState = record state { last_usage_hash = hash } in
      if is_empty snapshots
      then ((hashed, none), w)
      else uploaded state hashed (post_usage state snapshots w)

  unfoldable pub upload_file :
      AgentState → Result (Option String) → W → (AgentState × Option Error) × W
  unfolding upload_payload
  upload_file state (err e) w = ((state, some e), w)
  upload_file state (ok none) w = ((state, none), w)
  upload_file state (ok (some content)) w =
      let hash = k.sha256_hex content in
      if hash == state.last_usage_hash
      then ((state, none), w)
      else upload_payload state hash (k.usage_payload content) w

  -- `maybeUploadUsageFromFile`
  unfoldable pub maybe_upload_usage_from_file : AgentState → W → (AgentState × Option Error) × W
  unfolding upload_file
  maybe_upload_usage_from_file state w =
      if trim_space cfg.usage_input_path == ""
      then ((state, none), w)
      else upload_file state (m.read_file cfg.usage_input_path w) w

  -- The totals are those read also in the state that is returned with an error of the upload.
  unfoldable pub upload_counters :
      AgentState → Time → Result (Map UsageCounter) → W → (AgentState × Option Error) × W
  unfolding uploaded post_usage diff_usage_counters
  upload_counters state now (err e) w = ((state, some e), w)
  upload_counters state now (ok counters) w =
      let difference = diff_usage_counters k counters state.usage_totals now in
      let counted : AgentState = record state { usage_totals = difference.1 } in
      if is_empty difference.0
      then ((counted, none), w)
      else uploaded counted counted (post_usage counted difference.0 w)

  unfoldable pub upload_output :
      AgentState → Time → Result String × W → (AgentState × Option Error) × W
  unfolding upload_counters
  upload_output state now (err e, w) = ((state, some e), w)
  upload_output state now (ok output, w) =
      upload_counters state now (parse_usage_counters p output) w

  -- `maybeUploadUsageFromRuntime`
  unfoldable pub maybe_upload_usage_from_runtime :
      AgentState → Time → W → (AgentState × Option Error) × W
  unfolding upload_output query_runtime_usage
  maybe_upload_usage_from_runtime state now w = upload_output state now (query_runtime_usage w)

  -- `maybeUploadUsage`
  unfoldable pub maybe_upload_usage : AgentState → Time → W → (AgentState × Option Error) × W
  unfolding maybe_upload_usage_from_file maybe_upload_usage_from_runtime
  maybe_upload_usage state now w =
      if (cfg.usage_source == "") || (cfg.usage_source == "disabled")
      then ((state, none), w)
      else if cfg.usage_source == "file"
      then maybe_upload_usage_from_file state w
      else if cfg.usage_source == "runtime"
      then maybe_upload_usage_from_runtime state now w
      else (
        (state, some (message ("unsupported NODE_USAGE_SOURCE \"" ++ (cfg.usage_source ++ "\"")))),
        w,
      )
