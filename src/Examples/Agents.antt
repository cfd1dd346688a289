-- ===== src/Examples/Agents.antt =====
-- The theorems on the agent, applied to a machine whose world is the text of all requests that were
-- sent, and on which every call succeeds.
use Prim.Native.String.{◌++◌}
use text.Mathlib.TextLemmas.{nil-append, cons-append}
use v2ray_platform.Base.{
  ℕ, suc, zero, ◌+◌, String, ◌≡◌, ◌≢◌, refl, true, false, none, some, [], ◌∷◌, arith, if◌then◌else◌,
  is_some, any_of, Distinct, ◌⊎◌, inl, subst, sym, ◌∙◌,
}
use v2ray_platform.Base.Text.{equal_fold, to_lower}
use v2ray_platform.Base.Result.{message, ok, err}
use v2ray_platform.Maps.{Map, keys, lookup, insert}
use v2ray_platform.Config.{NodeAgentConfig}
use v2ray_platform.Agent.{AgentState, UsageCounter, HttpResponse, Machine, Library}
use v2ray_platform.Agent.Sync.{sync_config}
use v2ray_platform.Agent.Sync.Outcome.{Outcome, sync_config-Outcome}
use v2ray_platform.Agent.Counters.{Patterns, parse_usage_counters, diff_usage_counters, counter_of}
use v2ray_platform.Agent.Counters.Keys.{parse_usage_counters-Distinct}
use v2ray_platform.Agent.Counters.Metrics.{is_valid, metrics_of}
use v2ray_platform.Agent.Counters.Readings.{IsRead, parse_usage_counters-readings}
use v2ray_platform.Agent.Counters.Difference.{
  uplink, reported, reading, consumed, diff_usage_counters-reported,
}
use v2ray_platform.Agent.Usage.{query_runtime_usage}
use v2ray_platform.Agent.Update.{replaced, maybe_self_update}
use v2ray_platform.Agent.Update.Digest.{IsKept, maybe_self_update-digest}
use v2ray_platform.Agent.Round.{Agent, collect}
use v2ray_platform.Agent.Round.Totals.{total}
use v2ray_platform.Agent.Round.Bookings.{IsCount}
use v2ray_platform.Agent.Round.Collection.{HasGrown, IsUnacknowledged, collect-balance}

-- a number as so many characters, and back
unfoldable ticks : ℕ → String
ticks zero = ""
ticks (suc n) = "i" ++ ticks n

unfoldable size : String → ℕ
size String.[] = 0
size (String.◌∷◌ c text) = 1 + size text

size-ticks : (n : ℕ) → size (ticks n) ≡ n
unfolding size ticks
size-ticks zero = refl
size-ticks (suc n) = rw (cons-append, nil-append, size-ticks n) (omega arith)

size-append : (a b : String) → size (a ++ b) ≡ size a + size b
unfolding size
size-append String.[] b = rw (nil-append) (omega arith)
size-append (String.◌∷◌ c a) b = rw (cons-append, size-append a b) (omega arith)

-- a request for usage is written as the bytes that it reports for one credential
abbrev library : Library
library = record {
  register_request = λ r. ok r.name;
  register_response = λ text. err (message "not supported");
  heartbeat_request = λ r. ok r.status;
  heartbeat_response = λ text. err (message "not supported");
  sync_request = λ r. ok r.message;
  config_response =
      λ text. ok (record { node_id = "n1"; config_version = 4; config = text; updated_at = "" });
  usage_request = λ snapshots. ok (ticks (reported uplink "u-alice" snapshots));
  usage_payload = λ text. err (message "not supported");
  state_text = λ state. ok state.node_id;
  state_of_text = λ text. err (message "not supported");
  sha256_hex = λ text. text;
  md5_hex = λ text. text;
  format_rfc3339 = λ t. "now";
  goarch = "amd64";
}

abbrev answer : HttpResponse
answer = record { status_code = 200; body = "config" }

abbrev machine : Machine String
machine = record {
  send = λ request w. (ok answer, request.body ++ w);
  read_file = λ path w. ok none;
  write_file = λ path text w. (ok tt, w);
  run = λ argv w. (("stats", none), w);
  executable = λ w. ok "/usr/bin/agent";
  read_bytes = λ path w. ok "running";
  download = λ url w. (ok (record { status_code = 200; body = "broken" }), w);
  create_temp = λ dir w. (ok (dir ++ "/tmp"), w);
  write_temp = λ tmp body w. (ok tt, w);
  remove = λ tmp w. w;
  chmod = λ path w. (ok tt, w);
  rename = λ a b w. (ok tt, w);
  exec = λ path w. (ok tt, w);
}

-- every output of the runtime has one counter, of 5 bytes
abbrev patterns : Patterns
patterns = record {
  match_metric = λ name. none;
  all_metrics = λ text. ("u-alice", "uplink", "5") ∷ [];
  is_uuid = λ text. true;
  unmarshal_stats = λ text. err (message "not JSON");
  parse_int = λ text. some 5;
}

abbrev cfg : NodeAgentConfig
cfg = record {
  control_plane_url = "http://control";
  bootstrap_token = "secret";
  node_name = "tokyo";
  node_region = "jp";
  node_public_host = "tokyo.example.org";
  node_provider = "";
  node_tags = [];
  runtime_flavor = "v2ray";
  state_path = "/state";
  config_output_path = "/config";
  usage_source = "runtime";
  usage_input_path = "";
  usage_query_server = "127.0.0.1:10085";
  usage_query_command = "";
  usage_collection_interval = 0;
  heartbeat_interval = 300;
  reload_command = "reload";
}

abbrev counter : ℕ → UsageCounter
counter n = record { uplink_bytes = n; downlink_bytes = 0 }

-- 3 bytes were counted before
abbrev state : AgentState
state = record {
  node_id = "n1";
  node_token = "agent";
  last_usage_hash = "";
  usage_totals = ("u-alice", counter 3) ∷ [];
}

abbrev current : Map UsageCounter
current = ("u-alice", counter 5) ∷ []

sync_config-Outcome_example :
    Outcome machine library cfg state 3 "" (sync_config machine library cfg state 3 "")
sync_config-Outcome_example = sync_config-Outcome machine library cfg state 3 ""

parsed : (output : String) → parse_usage_counters patterns output ≡ ok current
unfolding parse_usage_counters insert to_lower lookup
parsed output = refl

current-Distinct : Distinct (keys current)
current-Distinct = (parse_usage_counters-Distinct patterns "stats" current (parsed "stats")).0

parse_usage_counters-readings_example :
    ((any_of (is_valid patterns) (metrics_of patterns "stats") ≡ true)
      × ((counters : Map UsageCounter) × (parse_usage_counters patterns "stats" ≡ ok counters)
          × IsRead patterns (metrics_of patterns "stats") counters))
    ⊎ ((any_of (is_valid patterns) (metrics_of patterns "stats") ≡ false)
        × (parse_usage_counters patterns "stats"
            ≡ err (message "no user traffic counters found in runtime stats output")))
parse_usage_counters-readings_example = parse_usage_counters-readings patterns "stats"

diff_usage_counters-reported_example :
    (reported uplink "u-alice" (diff_usage_counters library current state.usage_totals 7).0 ≡ (
      if is_some (lookup "u-alice" current)
      then consumed
          (reading uplink (counter_of "u-alice" state.usage_totals))
          (reading uplink (counter_of "u-alice" current))
      else 0))
    × ((diff_usage_counters library current state.usage_totals 7).1 ≡ current)
unfolding counter_of lookup
diff_usage_counters-reported_example =
    diff_usage_counters-reported library uplink "u-alice" current state.usage_totals 7
      current-Distinct (omega arith) (omega arith)

all_kept : IsKept machine (λ w. w ≡ "")
all_kept = record {
  download-kept = λ url w h. h;
  create_temp-kept = λ dir w h. h;
  write_temp-kept = λ tmp body w h. h;
  remove-kept = λ tmp w h. h;
}

broken :
    (response : HttpResponse)
    → (machine.download "http://control/agent" "").0 ≡ ok response
    → equal_fold (library.md5_hex response.body) "announced" ≡ false
broken response downloaded =
    let e : "broken" ≡ response.body = cc downloaded in
    subst (λ text. equal_fold text "announced" ≡ false) e (unfold equal_fold in refl)

maybe_self_update-digest_example :
    ((maybe_self_update machine library "announced" "http://control/agent" "").0 ≢ replaced)
    × ((maybe_self_update machine library "announced" "http://control/agent" "").1 ≡ "")
maybe_self_update-digest_example =
    maybe_self_update-digest machine library "announced" "http://control/agent" (λ w. w ≡ "") ""
      all_kept broken refl

sizes-IsCount : IsCount machine library cfg uplink "u-alice" size size
sizes-IsCount = record {
  run-received = λ argv w. refl;
  write_file-received = λ path text w. refl;
  bytes-usage_request = λ snapshots body written.
      let e : ticks (reported uplink "u-alice" snapshots) ≡ body = cc written in
      subst (λ text. size text ≡ reported uplink "u-alice" snapshots) e
        (size-ticks (reported uplink "u-alice" snapshots));
  send-IsBooked = λ headers body w. inl (rw (size-append body w) (omega arith));
}

current-HasGrown : HasGrown uplink "u-alice" state current
unfolding lookup counter_of
current-HasGrown = record { is_read = refl; is_small = omega arith; is_more = omega arith }

grown :
    (output : String) (counters : Map UsageCounter)
    → (query_runtime_usage machine library patterns cfg "").0 ≡ ok output
    → parse_usage_counters patterns output ≡ ok counters
    → HasGrown uplink "u-alice" state counters
grown output counters queried read =
    let e : ok current ≡ ok counters = sym (parsed output) ∙ read in
    let same : current ≡ counters = cc e in
    subst (HasGrown uplink "u-alice" state) same current-HasGrown

collect-balance_example :
    let agent : Agent = record { state = state; applied_version = 3; last_usage_attempt = none } in
    (size (collect machine library patterns cfg (λ i. 7) (agent, "")).1
        + total uplink "u-alice" state
      ≡ size ""
        + total uplink "u-alice"
            (collect machine library patterns cfg (λ i. 7) (agent, "")).0.state)
    ⊎ IsUnacknowledged machine library patterns cfg uplink "u-alice" size agent 7 ""
        (collect machine library patterns cfg (λ i. 7) (agent, ""))
collect-balance_example =
    collect-balance machine library patterns cfg uplink "u-alice" size size (λ i. 7)
      (record { state = state; applied_version = 3; last_usage_attempt = none }) "" sizes-IsCount
      refl grown
