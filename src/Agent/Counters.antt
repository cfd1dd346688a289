-- ===== src/Agent/Counters.antt =====
-- cmd/node-agent/main.go: reading the runtime's counters, and what was used since they were last read.
-- The three regular expressions, the JSON of the statistics and `strconv.ParseInt` are parameters
-- (`Patterns`).
pub mod Difference
pub mod Keys
pub mod Metrics
pub mod Effects
pub mod Readings
use v2ray_platform.Base.{
  String, Bool, true, false, Option, none, some, List, [], ◌∷◌, ◌++◌, map, not, ◌&&◌, ◌||◌, ◌==◌,
  eqb, if◌then◌else◌, length, contains,
}
use v2ray_platform.Base.Int64.{Int64, lt64, sub64}
use v2ray_platform.Base.Text.{
  trim_space, to_lower, trim_prefix, trim_left_char, trim_right_char, fields,
}
use v2ray_platform.Base.Split.{split}
use v2ray_platform.Base.Sort.{sort_slice, str_lt}
use v2ray_platform.Base.Result.{message, Result, ok, err}
use v2ray_platform.Maps.{Map, keys, lookup, insert}
use v2ray_platform.Domain.{Time}
use v2ray_platform.Agent.{UsageCounter, UsageSnapshot, Library, AgentState}

-- an entry of the JSON statistics, with the raw text of its value
pub record Stat : Type 0 where
  pub name : String
  pub value : String

-- `match_metric` gives the two groups of the name's pattern, `all_metrics` the groups of every match
-- of the pattern for protobuf texts.
pub record Patterns : Type 0 where
  pub match_metric : String → Option (String × String)
  pub all_metrics : String → List (String × String × String)
  pub is_uuid : String → Bool
  pub unmarshal_stats : String → Result (List Stat)
  pub parse_int : String → Option Int64

abbrev pub no_counter : UsageCounter
no_counter = record { uplink_bytes = 0; downlink_bytes = 0 }

abbrev pub or_zero : Option UsageCounter → UsageCounter
or_zero none = no_counter
or_zero (some counter) = counter

-- `counters[key]`, where a missing key has a zero counter
unfoldable pub counter_of : String → Map UsageCounter → UsageCounter
counter_of key counters = or_zero (lookup key counters)

unfoldable pub with_direction : String → Int64 → UsageCounter → UsageCounter
with_direction direction value counter =
    if direction == "uplink"
    then record counter { uplink_bytes = value }
    else if direction == "downlink"
    then record counter { downlink_bytes = value }
    else counter

unfoldable pub apply_value : String → String → Option Int64 → Map UsageCounter → Map UsageCounter
unfolding counter_of with_direction
apply_value uuid direction none counters = counters
apply_value uuid direction (some value) counters =
    insert (to_lower uuid) (with_direction direction value (counter_of (to_lower uuid) counters))
      counters

-- `applyUsageMetric`
unfoldable pub apply_usage_metric :
    Patterns → Map UsageCounter → String → String → String → Map UsageCounter
unfolding apply_value
apply_usage_metric p counters uuid direction value_text =
    if not (p.is_uuid (trim_space uuid))
    then counters
    else apply_value uuid direction (p.parse_int (trim_space value_text)) counters

unfoldable pub apply_named :
    Patterns → Map UsageCounter → Option (String × String) → String → Map UsageCounter
unfolding apply_usage_metric
apply_named p counters none value_text = counters
apply_named p counters (some (uuid, direction)) value_text =
    apply_usage_metric p counters uuid direction value_text

unfoldable pub apply_stats : Patterns → Map UsageCounter → List Stat → Map UsageCounter
unfolding apply_named
apply_stats p counters [] = counters
apply_stats p counters (item ∷ rest) =
    apply_stats p
      (apply_named p counters (p.match_metric item.name)
        (trim_right_char b'"' (trim_left_char b'"' item.value)))
      rest

unfoldable pub apply_matches :
    Patterns → Map UsageCounter → List (String × String × String) → Map UsageCounter
unfolding apply_usage_metric
apply_matches p counters [] = counters
apply_matches p counters ((uuid, direction, value_text) ∷ rest) =
    apply_matches p (apply_usage_metric p counters uuid direction value_text) rest

abbrev pub is_empty {ℓ} : {A : Type ℓ} → List A → Bool
is_empty [] = true
is_empty (x ∷ xs) = false

unfoldable pub last_field : List String → String
last_field [] = ""
last_field (field ∷ []) = field
last_field (field ∷ next ∷ rest) = last_field (next ∷ rest)

unfoldable pub value_of_line : String → String
unfolding last_field
value_of_line line =
    let value_text = trim_space (trim_prefix (last_field (fields line)) "value:") in
    trim_space (trim_right_char b'}' (trim_right_char b',' value_text))

unfoldable pub apply_line : Patterns → Map UsageCounter → String → Map UsageCounter
unfolding apply_named value_of_line
apply_line p counters line =
    if line == "" || is_empty (fields line)
    then counters
    else apply_named p counters (p.match_metric line) (value_of_line line)

unfoldable pub apply_lines : Patterns → Map UsageCounter → List String → Map UsageCounter
unfolding apply_line
apply_lines p counters [] = counters
apply_lines p counters (line ∷ rest) = apply_lines p (apply_line p counters (trim_space line)) rest

-- the counters of the JSON statistics; none if the output is no such text
unfoldable pub json_counters : Patterns → Result (List Stat) → Map UsageCounter
unfolding apply_stats
json_counters p (err e) = []
json_counters p (ok stats) = apply_stats p [] stats

-- `parseUsageCounters`: an attempt that finds no counter leaves the map empty for the next one.
unfoldable pub parse_usage_counters : Patterns → String → Result (Map UsageCounter)
unfolding json_counters apply_matches apply_lines
parse_usage_counters p output =
    let from_json = json_counters p (p.unmarshal_stats output) in
    let from_text = apply_matches p [] (p.all_metrics output) in
    let from_lines = apply_lines p [] (split 10 output) in
    if not (is_empty from_json)
    then ok from_json
    else if not (is_empty from_text)
    then ok from_text
    else if not (is_empty from_lines)
    then ok from_lines
    else err (message "no user traffic counters found in runtime stats output")

unfoldable pub diff_counter : Int64 → Int64 → Int64
diff_counter current previous = if lt64 current previous then current else sub64 current previous

unfoldable pub diff_snapshots :
    Map UsageCounter → Map UsageCounter → String → List String → List UsageSnapshot
unfolding diff_counter counter_of
diff_snapshots current previous collected_at [] = []
diff_snapshots current previous collected_at (uuid ∷ rest) =
    let counter = counter_of uuid current in
    let before = counter_of uuid previous in
    let uplink = diff_counter counter.uplink_bytes before.uplink_bytes in
    let downlink = diff_counter counter.downlink_bytes before.downlink_bytes in
    let snapshots = diff_snapshots current previous collected_at rest in
    let snapshot : UsageSnapshot = record {
      credential_uuid = uuid;
      uplink_bytes = uplink;
      downlink_bytes = downlink;
      collected_at = collected_at;
    } in
    if eqb uplink 0 && eqb downlink 0 then snapshots else snapshot ∷ snapshots

-- `diffUsageCounters`; the next totals are a copy of the current counters
unfoldable pub diff_usage_counters :
    Library → Map UsageCounter → Map UsageCounter → Time → List UsageSnapshot × Map UsageCounter
unfolding diff_snapshots
diff_usage_counters k current previous collected_at = (
  diff_snapshots current previous (k.format_rfc3339 collected_at)
      (sort_slice str_lt (keys current)),
  current,
)

abbrev pub same_counter : UsageCounter → Option UsageCounter → Bool
same_counter counter none = false
same_counter counter (some other) =
    eqb counter.uplink_bytes other.uplink_bytes && eqb counter.downlink_bytes other.downlink_bytes

unfoldable pub counters_within : Map UsageCounter → Map UsageCounter → Bool
counters_within [] b = true
counters_within ((key, counter) ∷ rest) b =
    same_counter counter (lookup key b) && counters_within rest b

-- `usageCountersEqual`
unfoldable pub usage_counters_equal : Map UsageCounter → Map UsageCounter → Bool
unfolding counters_within
usage_counters_equal a b = if not (eqb (length a) (length b)) then false else counters_within a b

-- `agentStatesEqual`
unfoldable pub agent_states_equal : AgentState → AgentState → Bool
unfolding usage_counters_equal
agent_states_equal a b =
    (a.node_id == b.node_id)
    && (a.node_token == b.node_token)
    && (a.last_usage_hash == b.last_usage_hash)
    && usage_counters_equal a.usage_totals b.usage_totals
