-- ===== src/Agent/Counters/Keys.antt =====
-- cmd/node-agent/main.go: the map that `parseUsageCounters` builds.
use v2ray_platform.Base.{
  String, ◌≡◌, false, ◌||◌, Option, none, some, List, [], ◌∷◌, ◌==◌, Distinct, Bool-cases, inl, inr,
}
use v2ray_platform.Base.Text.{trim_space, to_lower, fields}
use v2ray_platform.Base.Int64.{Int64}
use v2ray_platform.Base.Split.{split}
use v2ray_platform.Base.Result.{Result, ok, err}
use v2ray_platform.Maps.{Map, keys, insert-Distinct}
use v2ray_platform.Agent.{UsageCounter}
use v2ray_platform.Agent.Counters.{
  Stat, Patterns, apply_value, apply_usage_metric, apply_named, apply_stats, apply_matches,
  apply_line, apply_lines, json_counters, is_empty, parse_usage_counters,
}

apply_value-Distinct :
    (uuid direction : String) (value : Option Int64) (c : Map UsageCounter)
    → Distinct (keys c)
    → Distinct (keys (apply_value uuid direction value c))
unfolding apply_value
apply_value-Distinct uuid direction none c d = d
apply_value-Distinct uuid direction (some value) c d = insert-Distinct (to_lower uuid) _ c d

module _ (p : Patterns) where
  metric-Distinct :
      (c : Map UsageCounter) (uuid direction text : String)
      → Distinct (keys c)
      → Distinct (keys (apply_usage_metric p c uuid direction text))
  unfolding apply_usage_metric
  metric-Distinct c uuid direction text d = elim (Bool-cases (p.is_uuid (trim_space uuid))) [
    | inl known ↦ rw (known) (apply_value-Distinct uuid direction _ c d)
    | inr other ↦ rw (other) d
  ]

  named-Distinct :
      (c : Map UsageCounter) (name : Option (String × String)) (text : String)
      → Distinct (keys c)
      → Distinct (keys (apply_named p c name text))
  unfolding apply_named
  named-Distinct c none text d = d
  named-Distinct c (some (uuid, direction)) text d = metric-Distinct c uuid direction text d

  stats-Distinct :
      (stats : List Stat) (c : Map UsageCounter)
      → Distinct (keys c)
      → Distinct (keys (apply_stats p c stats))
  unfolding apply_stats
  stats-Distinct [] c d = d
  stats-Distinct (item ∷ rest) c d =
      stats-Distinct rest _ (named-Distinct c (p.match_metric item.name) _ d)

  matches-Distinct :
      (found : List (String × String × String)) (c : Map UsageCounter)
      → Distinct (keys c)
      → Distinct (keys (apply_matches p c found))
  unfolding apply_matches
  matches-Distinct [] c d = d
  matches-Distinct ((uuid, direction, text) ∷ rest) c d =
      matches-Distinct rest _ (metric-Distinct c uuid direction text d)

  line-Distinct :
      (c : Map UsageCounter) (line : String)
      → Distinct (keys c)
      → Distinct (keys (apply_line p c line))
  unfolding apply_line
  line-Distinct c line d = elim (Bool-cases (line == "" || is_empty (fields line))) [
    | inl blank ↦ rw (blank) d
    | inr shown ↦ rw (shown) (named-Distinct c (p.match_metric line) _ d)
  ]

  lines-Distinct :
      (lines : List String) (c : Map UsageCounter)
      → Distinct (keys c)
      → Distinct (keys (apply_lines p c lines))
  unfolding apply_lines
  lines-Distinct [] c d = d
  lines-Distinct (line ∷ rest) c d = lines-Distinct rest _ (line-Distinct c (trim_space line) d)

  json-Distinct : (r : Result (List Stat)) → Distinct (keys (json_counters p r))
  unfolding json_counters
  json-Distinct (err e) = tt
  json-Distinct (ok stats) = stats-Distinct stats [] tt

  -- Whatever the output is, parseUsageCounters either fails or gives at least one counter, and at most
  -- one for each credential.
  pub parse_usage_counters-Distinct :
      (output : String) (counters : Map UsageCounter)
      → parse_usage_counters p output ≡ ok counters
      → Distinct (keys counters) × (is_empty counters ≡ false)
  unfolding parse_usage_counters
  parse_usage_counters-Distinct output counters parsed =
      let from_json = json_counters p (p.unmarshal_stats output) in
      let from_text = apply_matches p [] (p.all_metrics output) in
      let from_lines = apply_lines p [] (split 10 output) in
      elim (Bool-cases (is_empty from_json)) [
        | inr some_json ↦
            let e : from_json ≡ counters = cc (rw some_json at parsed) in
            rw (← e) (json-Distinct (p.unmarshal_stats output), some_json)
        | inl no_json ↦ elim (Bool-cases (is_empty from_text)) [
          | inr some_text ↦
              let e : from_text ≡ counters = cc (rw (no_json, some_text) at parsed) in
              rw (← e) (matches-Distinct (p.all_metrics output) [] tt, some_text)
          | inl no_text ↦ elim (Bool-cases (is_empty from_lines)) [
            | inr some_lines ↦
                let e : from_lines ≡ counters = cc (rw (no_json, no_text, some_lines) at parsed) in
                rw (← e) (lines-Distinct (split 10 output) [] tt, some_lines)
            | inl no_lines ↦ cc (rw (no_json, no_text, no_lines) at parsed)
          ]
        ]
      ]
