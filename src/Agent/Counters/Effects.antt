-- ===== src/Agent/Counters/Effects.antt =====
-- cmd/node-agent/main.go: what `applyUsageMetric` does to the counters with one metric.
use v2ray_platform.Base.{
  String, Bool, ◌≡◌, refl, true, false, none, some, [], ◌∷◌, not, ◌&&◌, ◌||◌, ◌==◌, eq_iff,
  if◌then◌else◌, is_some, Bool-cases, Option-cases, inl, inr, ◌∙◌, arith,
}
use v2ray_platform.Base.Text.{trim_space, to_lower}
use v2ray_platform.Base.Int64.{Int64}
use v2ray_platform.Maps.{Map, lookup, insert, lookup-insert}
use v2ray_platform.Agent.{UsageCounter}
use v2ray_platform.Agent.Counters.{
  Patterns, counter_of, with_direction, apply_value, apply_usage_metric, is_empty,
}
use v2ray_platform.Agent.Counters.Difference.{Direction, uplink, downlink, reading}
use v2ray_platform.Agent.Counters.Metrics.{
  direction_name, value_or, is_valid, is_shown, metric_value,
}

module _ (p : Patterns) where
  -- one metric
  valued :
      (d : Direction) (key uuid direction : String) (value : Int64) (c : Map UsageCounter)
      → reading d (counter_of key (apply_value uuid direction (some value) c)) ≡ (
          if (to_lower uuid == key) && (direction == direction_name d)
          then value
          else reading d (counter_of key c))
  unfolding apply_value counter_of with_direction
  valued d key uuid direction value c = elim (Bool-cases (to_lower uuid == key)) [
    | inr other ↦ rw (other, lookup-insert, other) refl
    | inl same ↦
        let e : to_lower uuid ≡ key = (eq_iff (to_lower uuid) key).0 same in
        rw (same, lookup-insert, same, e) (directed d (counter_of key c))
  ]
    where
      directed :
          (d : Direction) (counter : UsageCounter)
          → reading d (with_direction direction value counter)
            ≡ (if direction == direction_name d then value else reading d counter)
      directed uplink counter = ground (arith, eq_iff direction "uplink")
      directed downlink counter = elim (Bool-cases (direction == "uplink")) [
        | inl up ↦ let e : direction ≡ "uplink" = (eq_iff direction "uplink").0 up in rw (e) refl
        | inr not_up ↦ rw (not_up) (elim (Bool-cases (direction == "downlink")) [
          | inl down ↦ rw (down) refl
          | inr other ↦ rw (other) refl
        ])
      ]

  shown :
      (key uuid direction : String) (value : Int64) (c : Map UsageCounter)
      → is_some (lookup key (apply_value uuid direction (some value) c))
        ≡ ((to_lower uuid == key) || is_some (lookup key c))
  unfolding apply_value
  shown key uuid direction value c = elim (Bool-cases (to_lower uuid == key)) [
    | inr other ↦ rw (other, lookup-insert, other) refl
    | inl same ↦ rw (same, lookup-insert, same) refl
  ]

  pub metric_reading :
      (d : Direction) (key uuid direction text : String) (c : Map UsageCounter)
      → reading d (counter_of key (apply_usage_metric p c uuid direction text))
        ≡ value_or (metric_value p d key (uuid, direction, text)) (reading d (counter_of key c))
  unfolding apply_usage_metric
  metric_reading d key uuid direction text c = elim (Bool-cases (p.is_uuid (trim_space uuid))) [
    | inr other ↦ rw (other) refl
    | inl known ↦ rw (known) (elim (Option-cases (p.parse_int (trim_space text))) [
      | inr (value, read) ↦ rw (read) (
          valued d key uuid direction value c
          ∙ chosen ((to_lower uuid == key) && (direction == direction_name d)) value)
      | inl unread ↦ rw (unread) (
          unfold apply_value in dropped ((to_lower uuid == key) && (direction == direction_name d)))
    ])
  ]
    where
      chosen :
          (hit : Bool) (value : Int64)
          → (if hit then value else reading d (counter_of key c))
            ≡ value_or (if hit then some value else none) (reading d (counter_of key c))
      chosen true value = refl
      chosen false value = refl

      dropped :
          (hit : Bool)
          → reading d (counter_of key c)
            ≡ value_or (if hit then none else none) (reading d (counter_of key c))
      dropped true = refl
      dropped false = refl

  pub metric_shown :
      (key uuid direction text : String) (c : Map UsageCounter)
      → is_some (lookup key (apply_usage_metric p c uuid direction text))
        ≡ (is_shown p key (uuid, direction, text) || is_some (lookup key c))
  unfolding apply_usage_metric
  metric_shown key uuid direction text c = elim (Bool-cases (p.is_uuid (trim_space uuid))) [
    | inr other ↦ rw (other) refl
    | inl known ↦ rw (known) (elim (Option-cases (p.parse_int (trim_space text))) [
      | inr (value, read) ↦ rw (read) (shown key uuid direction value c)
      | inl unread ↦ rw (unread) (unfold apply_value in refl)
    ])
  ]

  insert_filled :
      (key : String) (counter : UsageCounter) (c : Map UsageCounter)
      → is_empty (insert key counter c) ≡ false
  unfolding insert
  insert_filled key counter [] = refl
  insert_filled key counter ((j, x) ∷ c) = ground arith

  pub metric_filled :
      (uuid direction text : String) (c : Map UsageCounter)
      → is_empty (apply_usage_metric p c uuid direction text)
        ≡ (not (is_valid p (uuid, direction, text)) && is_empty c)
  unfolding apply_usage_metric
  metric_filled uuid direction text c = elim (Bool-cases (p.is_uuid (trim_space uuid))) [
    | inr other ↦ rw (other) refl
    | inl known ↦ rw (known) (elim (Option-cases (p.parse_int (trim_space text))) [
      | inr (value, read) ↦ rw (read) (unfold apply_value in insert_filled (to_lower uuid) _ c)
      | inl unread ↦ rw (unread) (unfold apply_value in refl)
    ])
  ]
