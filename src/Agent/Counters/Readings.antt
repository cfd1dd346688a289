-- ===== src/Agent/Counters/Readings.antt =====
-- cmd/node-agent/main.go: what `parseUsageCounters` reads, against the metrics that the output lists.
use v2ray_platform.Base.{
  String, Bool, ◌≡◌, refl, true, false, Option, none, some, List, [], ◌∷◌, not, ◌&&◌, ◌||◌, any_of,
  is_some, Distinct, Bool-cases, inl, inr, ◌⊎◌, ◌∙◌, ap, arith,
}
use v2ray_platform.Base.Int64.{Int64}
use v2ray_platform.Base.Split.{split}
use v2ray_platform.Base.Result.{message, Result, ok, err}
use v2ray_platform.Maps.{Map, keys, lookup}
use v2ray_platform.Agent.{UsageCounter}
use v2ray_platform.Agent.Counters.{
  Patterns, counter_of, apply_usage_metric, apply_matches, is_empty, parse_usage_counters,
}
use v2ray_platform.Agent.Counters.Keys.{parse_usage_counters-Distinct}
use v2ray_platform.Agent.Counters.Difference.{Direction, uplink, downlink, reading}
use v2ray_platform.Agent.Counters.Metrics.{
  Metric, value_or, first_of, is_valid, is_shown, metric_value, last_value, metrics_of,
  json_metrics, line_metrics, applied_json, applied_lines,
}
use v2ray_platform.Agent.Counters.Effects.{metric_reading, metric_shown, metric_filled}

module _ (p : Patterns) where
  metrics_reading :
      (d : Direction) (key : String) (ms : List Metric) (c : Map UsageCounter)
      → reading d (counter_of key (apply_matches p c ms))
        ≡ value_or (last_value p d key ms) (reading d (counter_of key c))
  unfolding apply_matches
  metrics_reading d key [] c = refl
  metrics_reading d key ((uuid, direction, text) ∷ ms) c =
      metrics_reading d key ms (apply_usage_metric p c uuid direction text)
      ∙ ap (value_or (last_value p d key ms)) (metric_reading p d key uuid direction text c)
      ∙ later (last_value p d key ms) (metric_value p d key (uuid, direction, text))
          (reading d (counter_of key c))
    where
      later :
          (last first : Option Int64) (start : Int64)
          → value_or last (value_or first start) ≡ value_or (first_of last first) start
      later none first start = refl
      later (some value) first start = refl

  metrics_shown :
      (key : String) (ms : List Metric) (c : Map UsageCounter)
      → is_some (lookup key (apply_matches p c ms))
        ≡ (any_of (is_shown p key) ms || is_some (lookup key c))
  unfolding apply_matches any_of
  metrics_shown key [] c = refl
  metrics_shown key ((uuid, direction, text) ∷ ms) c =
      metrics_shown key ms (apply_usage_metric p c uuid direction text)
      ∙ ap (λ x. any_of (is_shown p key) ms || x) (metric_shown p key uuid direction text c)
      ∙ swapped (any_of (is_shown p key) ms) (is_shown p key (uuid, direction, text))
          (is_some (lookup key c))
    where
      swapped : (a b c : Bool) → (a || (b || c)) ≡ ((b || a) || c)
      swapped a b c = ground arith

  metrics_filled :
      (ms : List Metric) (c : Map UsageCounter)
      → is_empty (apply_matches p c ms) ≡ (not (any_of (is_valid p) ms) && is_empty c)
  unfolding apply_matches any_of
  metrics_filled [] c = refl
  metrics_filled ((uuid, direction, text) ∷ ms) c =
      metrics_filled ms (apply_usage_metric p c uuid direction text)
      ∙ ap (λ x. not (any_of (is_valid p) ms) && x) (metric_filled p uuid direction text c)
      ∙ swapped (any_of (is_valid p) ms) (is_valid p (uuid, direction, text)) (is_empty c)
    where
      swapped : (a b c : Bool) → (not a && (not b && c)) ≡ (not (b || a) && c)
      swapped a b c = ground arith

abbrev outcome : Bool → Map UsageCounter → Result (Map UsageCounter)
outcome true counters = ok counters
outcome false counters = err (message "no user traffic counters found in runtime stats output")

parse_usage_counters-metrics :
    (p : Patterns) (output : String)
    → parse_usage_counters p output
      ≡ outcome
          (any_of (is_valid p) (metrics_of p output))
          (apply_matches p [] (metrics_of p output))
unfolding parse_usage_counters
parse_usage_counters-metrics p output =
    let J = json_metrics p (p.unmarshal_stats output) in
    let T = p.all_metrics output in
    let L = line_metrics p (split 10 output) in
    let e₁ = metrics_filled p J [] in
    let e₂ = metrics_filled p T [] in
    let e₃ = metrics_filled p L [] in
    rw (applied_json p (p.unmarshal_stats output), applied_lines p (split 10 output) [], e₁, e₂, e₃)
      (elim (Bool-cases (any_of (is_valid p) J)) [
        | inl in_json ↦ rw (in_json, in_json) refl
        | inr no_json ↦ rw (no_json) (elim (Bool-cases (any_of (is_valid p) T)) [
          | inl in_text ↦ rw (in_text, in_text) refl
          | inr no_text ↦ rw (no_text) (elim (Bool-cases (any_of (is_valid p) L)) [
            | inl in_lines ↦ rw (in_lines) refl
            | inr no_lines ↦ rw (no_lines) refl
          ])
        ])
      ])

-- The counters that some metrics give, and nothing else: every reading is the last valid one.
pub record IsRead (p : Patterns) (metrics : List Metric) (counters : Map UsageCounter)
    : Type 0 where
  pub is_distinct : Distinct (keys counters)
  pub shown : (key : String) → is_some (lookup key counters) ≡ any_of (is_shown p key) metrics
  pub reading_last :
      (d : Direction) (key : String)
      → reading d (counter_of key counters) ≡ value_or (last_value p d key metrics) 0

-- parseUsageCounters reads the metrics of the JSON statistics, or if none of them is valid those of
-- the text, or else those of the lines. If one of them is valid, it succeeds with one counter for each
-- UUID in lower case that a valid metric names, whose bytes in each direction are those of the last
-- valid metric of that UUID, in any case of letters, and direction, or 0 without one. Otherwise it
-- fails.
pub parse_usage_counters-readings :
    (p : Patterns) (output : String)
    → ((any_of (is_valid p) (metrics_of p output) ≡ true)
        × ((counters : Map UsageCounter) × (parse_usage_counters p output ≡ ok counters)
            × IsRead p (metrics_of p output) counters))
      ⊎ ((any_of (is_valid p) (metrics_of p output) ≡ false)
          × (parse_usage_counters p output
              ≡ err (message "no user traffic counters found in runtime stats output")))
unfolding any_of lookup
parse_usage_counters-readings p output =
    elim (Bool-cases (any_of (is_valid p) (metrics_of p output))) [
      | inr none_valid ↦ inr (
        none_valid,
        parse_usage_counters-metrics p output
            ∙ ap (λ x. outcome x (apply_matches p [] (metrics_of p output))) none_valid,
      )
      | inl valid ↦
          let counters = apply_matches p [] (metrics_of p output) in
          let parsed : parse_usage_counters p output ≡ ok counters =
            parse_usage_counters-metrics p output ∙ ap (λ x. outcome x counters) valid in
          inl (
            valid,
            (
              counters,
              parsed,
              record {
                is_distinct = (parse_usage_counters-Distinct p output counters parsed).0;
                shown = λ key.
                    metrics_shown p key (metrics_of p output) []
                    ∙ or_false (any_of (is_shown p key) (metrics_of p output));
                reading_last = λ d key.
                    metrics_reading p d key (metrics_of p output) []
                    ∙ ap (value_or (last_value p d key (metrics_of p output))) (nothing_read d key);
              },
            ),
          )
    ]
  where
    or_false : (b : Bool) → (b || false) ≡ b
    or_false true = refl
    or_false false = refl

    nothing_read : (d : Direction) (key : String) → reading d (counter_of key []) ≡ 0
    nothing_read uplink key = unfold counter_of lookup in refl
    nothing_read downlink key = unfold counter_of lookup in refl
