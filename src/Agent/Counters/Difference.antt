-- ===== src/Agent/Counters/Difference.antt =====
-- cmd/node-agent/main.go: what `diffUsageCounters` reports for each credential.
use v2ray_platform.Base.{
  ℕ, ◌+◌, ◌-◌, leb, ◌≤◌, ◌<◌, String, ◌≡◌, refl, true, false, ◌&&◌, List, [], ◌∷◌, map, arith, ◌==◌,
  eq_iff, eqb, if◌then◌else◌, is_some, contains, Distinct, Bool-cases, inl, inr, sym, ◌∙◌, ap,
  subst,
}
use v2ray_platform.Base.Int64.{Int64, sub64, lt64_small, min_negative}
use v2ray_platform.Base.Sort.{sort_slice, str_lt, contains-sort_slice, Distinct-sort_slice}
use v2ray_platform.Maps.{Map, keys, lookup, contains-keys}
use v2ray_platform.Domain.{Time}
use v2ray_platform.Agent.{UsageCounter, UsageSnapshot, Library}
use v2ray_platform.Agent.Counters.{counter_of, diff_counter, diff_snapshots, diff_usage_counters}

pub data Direction : Type 0 where
  uplink downlink : Direction

abbrev pub reading : Direction → UsageCounter → Int64
reading uplink counter = counter.uplink_bytes
reading downlink counter = counter.downlink_bytes

abbrev pub amount : Direction → UsageSnapshot → Int64
amount uplink snapshot = snapshot.uplink_bytes
amount downlink snapshot = snapshot.downlink_bytes

-- the bytes that some snapshots report for a credential
unfoldable pub reported : Direction → String → List UsageSnapshot → ℕ
reported d uuid [] = 0
reported d uuid (snapshot ∷ rest) =
    (if snapshot.credential_uuid == uuid then amount d snapshot else 0) + reported d uuid rest

-- what a credential used between two readings
abbrev used : Direction → String → Map UsageCounter → Map UsageCounter → ℕ
used d uuid current previous =
    diff_counter (reading d (counter_of uuid current)) (reading d (counter_of uuid previous))

module _ (uuid : String) (current previous : Map UsageCounter) (at : String) where
  reported_cons :
      (d : Direction) (key : String) (rest : List String)
      → reported d uuid (diff_snapshots current previous at (key ∷ rest))
        ≡ (if key == uuid then used d key current previous else 0)
          + reported d uuid (diff_snapshots current previous at rest)
  unfolding diff_snapshots reported
  reported_cons uplink key rest =
      let none_used =
        eqb (used uplink key current previous) 0 && eqb (used downlink key current previous) 0 in
      elim (Bool-cases none_used) [
        | inr some_used ↦ rw (some_used) refl
        | inl nothing ↦ rw (nothing) (ground arith)
      ]
  reported_cons downlink key rest =
      let none_used =
        eqb (used uplink key current previous) 0 && eqb (used downlink key current previous) 0 in
      elim (Bool-cases none_used) [
        | inr some_used ↦ rw (some_used) refl
        | inl nothing ↦ rw (nothing) (ground arith)
      ]

  reported_nil : (d : Direction) → reported d uuid (diff_snapshots current previous at []) ≡ 0
  unfolding diff_snapshots reported
  reported_nil d = refl

  reported_absent :
      (d : Direction) (uuids : List String)
      → contains uuids uuid ≡ false
      → reported d uuid (diff_snapshots current previous at uuids) ≡ 0
  unfolding contains
  reported_absent d [] absent = reported_nil d
  reported_absent d (key ∷ rest) absent =
      reported_cons d key rest ∙ ground (arith, reported_absent d rest)

  reported_present :
      (d : Direction) (uuids : List String)
      → Distinct uuids
      → contains uuids uuid ≡ true
      → reported d uuid (diff_snapshots current previous at uuids) ≡ used d uuid current previous
  unfolding contains
  reported_present d [] distinct present = cc
  reported_present d (key ∷ rest) distinct present = elim (Bool-cases (key == uuid)) [
    | inl here ↦
        let same : key ≡ uuid = (eq_iff key uuid).0 here in
        let gone : contains rest uuid ≡ false = rw (← same) distinct.0 in
        reported_cons d key rest ∙ rw (reported_absent d rest gone, here, same) (omega arith)
    | inr other ↦
        reported_cons d key rest
        ∙ rw (other) (omega (arith, reported_present d rest distinct.1 (rw other at present)))
  ]

map_id : (xs : List String) → map (λ x. x) xs ≡ xs
map_id [] = refl
map_id (x ∷ xs) = rw (map_id xs) refl

sorted_keys : (m : Map UsageCounter) → Distinct (keys m) → Distinct (sort_slice str_lt (keys m))
sorted_keys m distinct =
    subst Distinct (map_id (sort_slice str_lt (keys m))) (
      Distinct-sort_slice str_lt (λ x. x) (keys m)
        (subst Distinct (sym (map_id (keys m))) distinct))

sorted_contains :
    (uuid : String) (m : Map UsageCounter)
    → contains (sort_slice str_lt (keys m)) uuid ≡ is_some (lookup uuid m)
sorted_contains uuid m =
    ap (λ xs. contains xs uuid) (sym (map_id (sort_slice str_lt (keys m))))
    ∙ contains-sort_slice str_lt (λ x. x) (keys m) uuid
    ∙ ap (λ xs. contains xs uuid) (map_id (keys m))
    ∙ contains-keys uuid m

-- The same of all keys of the counters, which are visited once each.
diff_usage_counters-used :
    (k : Library) (d : Direction) (uuid : String) (current previous : Map UsageCounter) (now : Time)
    → Distinct (keys current)
    → (reported d uuid (diff_usage_counters k current previous now).0
        ≡ (if is_some (lookup uuid current) then used d uuid current previous else 0))
      × ((diff_usage_counters k current previous now).1 ≡ current)
unfolding diff_usage_counters
diff_usage_counters-used k d uuid current previous now distinct =
    let at = k.format_rfc3339 now in
    let uuids = sort_slice str_lt (keys current) in
    let sorted : Distinct uuids = sorted_keys current distinct in
    let known = sorted_contains uuid current in
    elim (Bool-cases (is_some (lookup uuid current))) [
      | inl read ↦ (
        rw (read) (reported_present uuid current previous at d uuids sorted (known ∙ read)),
        refl,
      )
      | inr missing ↦
          (rw (missing) (reported_absent uuid current previous at d uuids (known ∙ missing)), refl)
    ]

-- A counter that did not fall is accounted for: what was used and the previous reading add up to the
-- new one. One that fell, as after a restart of the runtime, is reported whole.
diff_counter-balance :
    (current previous : Int64)
    → current < min_negative
    → previous < min_negative
    → (previous ≤ current → diff_counter current previous + previous ≡ current)
      × (current < previous → diff_counter current previous ≡ current)
unfolding diff_counter sub64
diff_counter-balance current previous small small' = (
  λ grew. rw (lt64_small current previous small small') (ground arith),
  λ fell. rw (lt64_small current previous small small') (ground arith),
)

-- the bytes between two readings of a counter that starts again from zero when it falls
abbrev pub consumed : ℕ → ℕ → ℕ
consumed previous current = if leb previous current then current - previous else current

used-consumed :
    (d : Direction) (uuid : String) (current previous : Map UsageCounter)
    → reading d (counter_of uuid current) < min_negative
    → reading d (counter_of uuid previous) < min_negative
    → used d uuid current previous
      ≡ consumed (reading d (counter_of uuid previous)) (reading d (counter_of uuid current))
used-consumed d uuid current previous small small' =
    let c = reading d (counter_of uuid current) in
    let p = reading d (counter_of uuid previous) in
    let facts = diff_counter-balance c p small small' in
    elim (Bool-cases (leb p c)) [
      | inl grew ↦
          let at_least : p ≤ c = ground arith in
          rw (grew) (omega (arith, facts.0 at_least, at_least))
      | inr fell ↦ let below : c < p = ground arith in rw (fell) (facts.1 below)
    ]

-- For counters with distinct keys and readings that are not negative, diffUsageCounters reports for a
-- credential, in each direction, the bytes that its reading grew by since the previous totals, or the
-- whole reading if it fell, and nothing for a credential that was not read; the next totals are the
-- counters read.
pub diff_usage_counters-reported :
    (k : Library) (d : Direction) (uuid : String) (current previous : Map UsageCounter) (now : Time)
    → Distinct (keys current)
    → reading d (counter_of uuid current) < min_negative
    → reading d (counter_of uuid previous) < min_negative
    → (reported d uuid (diff_usage_counters k current previous now).0 ≡ (
        if is_some (lookup uuid current)
        then consumed (reading d (counter_of uuid previous)) (reading d (counter_of uuid current))
        else 0))
      × ((diff_usage_counters k current previous now).1 ≡ current)
diff_usage_counters-reported k d uuid current previous now distinct small small' =
    let facts = diff_usage_counters-used k d uuid current previous now distinct in
    (
      facts.0
          ∙ ap (λ (n : ℕ). if is_some (lookup uuid current) then n else 0)
              (used-consumed d uuid current previous small small'),
      facts.1,
    )
