-- ===== src/Agent/Counters/Metrics.antt =====
-- cmd/node-agent/main.go: the metrics that the runtime's output lists, in each of the three forms that
-- `parseUsageCounters` knows.
use v2ray_platform.Base.{
  String, Bool, ◌≡◌, refl, Option, none, some, List, [], ◌∷◌, ◌++◌, ◌&&◌, ◌||◌, ◌==◌, any_of,
  if◌then◌else◌, is_some, Bool-cases, inl, inr, ◌∙◌, sym, ap,
}
use v2ray_platform.Base.Text.{trim_space, to_lower, trim_left_char, trim_right_char, fields}
use v2ray_platform.Base.Int64.{Int64}
use v2ray_platform.Base.Split.{split}
use v2ray_platform.Base.Result.{Result, ok, err}
use v2ray_platform.Maps.{Map}
use v2ray_platform.Agent.{UsageCounter}
use v2ray_platform.Agent.Counters.{
  Stat, Patterns, apply_usage_metric, apply_named, apply_stats, apply_matches, apply_line,
  apply_lines, value_of_line, json_counters, is_empty,
}
use v2ray_platform.Agent.Counters.Difference.{Direction, uplink, downlink}

-- the text that names a credential, the name of a direction and the text of a value
abbrev pub Metric : Type 0
Metric = String × String × String

abbrev pub direction_name : Direction → String
direction_name uplink = "uplink"
direction_name downlink = "downlink"

abbrev pub value_or : Option Int64 → Int64 → Int64
value_or none start = start
value_or (some value) start = value

abbrev pub first_of : Option Int64 → Option Int64 → Option Int64
first_of none other = other
first_of (some value) other = some value

module _ (p : Patterns) where
  abbrev named_metric : Option (String × String) → String → List Metric
  named_metric none text = []
  named_metric (some (uuid, direction)) text = (uuid, direction, text) ∷ []

  -- the metrics of the JSON statistics, and those of the lines of the output
  abbrev stat_metrics : List Stat → List Metric
  stat_metrics [] = []
  stat_metrics (item ∷ rest) =
      named_metric (p.match_metric item.name)
        (trim_right_char b'"' (trim_left_char b'"' item.value))
      ++ stat_metrics rest

  abbrev pub json_metrics : Result (List Stat) → List Metric
  json_metrics (err e) = []
  json_metrics (ok stats) = stat_metrics stats

  abbrev pub line_metrics : List String → List Metric
  line_metrics [] = []
  line_metrics (line ∷ rest) =
      (if (trim_space line == "") || is_empty (fields (trim_space line))
        then []
        else named_metric (p.match_metric (trim_space line)) (value_of_line (trim_space line)))
      ++ line_metrics rest

  -- the metric is of a UUID, with a number
  abbrev pub is_valid : Metric → Bool
  is_valid (uuid, direction, text) =
      p.is_uuid (trim_space uuid) && is_some (p.parse_int (trim_space text))

  -- it is valid, of the credential, in any case of letters
  abbrev pub is_shown : String → Metric → Bool
  is_shown key (uuid, direction, text) = is_valid (uuid, direction, text) && (to_lower uuid == key)

  -- the value of a valid metric of the credential in the direction
  abbrev pub metric_value : Direction → String → Metric → Option Int64
  metric_value d key (uuid, direction, text) =
      if p.is_uuid (trim_space uuid) && ((to_lower uuid == key) && (direction == direction_name d))
      then p.parse_int (trim_space text)
      else none

  abbrev pub last_value : Direction → String → List Metric → Option Int64
  last_value d key [] = none
  last_value d key (metric ∷ rest) = first_of (last_value d key rest) (metric_value d key metric)

  -- the first of the three lists in which a metric is valid
  abbrev pub metrics_of : String → List Metric
  metrics_of output =
      if any_of is_valid (json_metrics (p.unmarshal_stats output))
      then json_metrics (p.unmarshal_stats output)
      else if any_of is_valid (p.all_metrics output)
      then p.all_metrics output
      else line_metrics (split 10 output)

  -- All three loops apply the metrics of their list.
  applied_append :
      (ms ns : List Metric) (c : Map UsageCounter)
      → apply_matches p c (ms ++ ns) ≡ apply_matches p (apply_matches p c ms) ns
  unfolding apply_matches
  applied_append [] ns c = refl
  applied_append ((uuid, direction, text) ∷ ms) ns c =
      applied_append ms ns (apply_usage_metric p c uuid direction text)

  applied_named :
      (name : Option (String × String)) (text : String) (c : Map UsageCounter)
      → apply_named p c name text ≡ apply_matches p c (named_metric name text)
  unfolding apply_named apply_matches
  applied_named none text c = refl
  applied_named (some (uuid, direction)) text c = refl

  applied_stats :
      (stats : List Stat) (c : Map UsageCounter)
      → apply_stats p c stats ≡ apply_matches p c (stat_metrics stats)
  unfolding apply_stats apply_matches
  applied_stats [] c = refl
  applied_stats (item ∷ rest) c =
      let name = p.match_metric item.name in
      let text = trim_right_char b'"' (trim_left_char b'"' item.value) in
      applied_stats rest (apply_named p c name text)
      ∙ ap (λ x. apply_matches p x (stat_metrics rest)) (applied_named name text c)
      ∙ sym (applied_append (named_metric name text) (stat_metrics rest) c)

  pub applied_json :
      (r : Result (List Stat)) → json_counters p r ≡ apply_matches p [] (json_metrics r)
  unfolding json_counters apply_matches
  applied_json (err e) = refl
  applied_json (ok stats) = applied_stats stats []

  applied_line :
      (line : String) (rest : List Metric) (c : Map UsageCounter)
      → apply_matches p (apply_line p c line) rest
        ≡ apply_matches p c (
            (if (line == "") || is_empty (fields line)
              then []
              else named_metric (p.match_metric line) (value_of_line line))
            ++ rest)
  unfolding apply_line
  applied_line line rest c = elim (Bool-cases ((line == "") || is_empty (fields line))) [
    | inl blank ↦ rw (blank) refl
    | inr shown ↦ rw (shown) (
        ap (λ x. apply_matches p x rest)
          (applied_named (p.match_metric line) (value_of_line line) c)
        ∙ sym (applied_append (named_metric (p.match_metric line) (value_of_line line)) rest c))
  ]

  pub applied_lines :
      (lines : List String) (c : Map UsageCounter)
      → apply_lines p c lines ≡ apply_matches p c (line_metrics lines)
  unfolding apply_lines apply_matches
  applied_lines [] c = refl
  applied_lines (line ∷ rest) c =
      applied_lines rest (apply_line p c (trim_space line))
      ∙ applied_line (trim_space line) (line_metrics rest) c
