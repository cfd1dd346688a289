-- ===== src/Agent/Round/Totals.antt =====
-- cmd/node-agent/main.go: the totals of a state that the agent takes for unchanged.
use v2ray_platform.Base.{
  ℕ, String, ◌≡◌, true, ◌&&◌, some, [], ◌∷◌, arith, ◌==◌, eq_iff, is_some, Bool-cases, Option-cases,
  inl, inr, subst,
}
use v2ray_platform.Maps.{Map, lookup}
use v2ray_platform.Agent.{AgentState, UsageCounter}
use v2ray_platform.Agent.Counters.{
  counter_of, counters_within, same_counter, usage_counters_equal, agent_states_equal,
}
use v2ray_platform.Agent.Counters.Difference.{Direction, uplink, downlink, reading}

-- the last reading that was kept for a credential
abbrev pub total : Direction → String → AgentState → ℕ
total d uuid state = reading d (counter_of uuid state.usage_totals)

within_cons :
    (key : String) (counter : UsageCounter) (rest b : Map UsageCounter)
    → counters_within ((key, counter) ∷ rest) b ≡ true
    → (other : UsageCounter) × (lookup key b ≡ some other)
      × (counter.uplink_bytes ≡ other.uplink_bytes)
      × (counter.downlink_bytes ≡ other.downlink_bytes)
      × (counters_within rest b ≡ true)
unfolding counters_within
within_cons key counter rest b within = elim (Option-cases (lookup key b)) [
  | inl missing ↦ cc (rw missing at within)
  | inr (other, found) ↦
      let both : (same_counter counter (some other) && counters_within rest b) ≡ true =
        rw found at within in
      (other, found, ground arith, ground arith, ground arith)
]

same_reading :
    (d : Direction) (a b : UsageCounter)
    → a.uplink_bytes ≡ b.uplink_bytes
    → a.downlink_bytes ≡ b.downlink_bytes
    → reading d a ≡ reading d b
same_reading uplink a b up down = up
same_reading downlink a b up down = down

within_lookup :
    (d : Direction) (uuid : String) (a b : Map UsageCounter)
    → counters_within a b ≡ true
    → is_some (lookup uuid a) ≡ true
    → reading d (counter_of uuid a) ≡ reading d (counter_of uuid b)
unfolding lookup counter_of
within_lookup d uuid [] b within read = cc
within_lookup d uuid ((key, counter) ∷ rest) b within read =
    let first = within_cons key counter rest b within in
    elim (Bool-cases (key == uuid)) [
      | inl here ↦
          let e : lookup uuid b ≡ some first.0 =
            subst (λ x. lookup x b ≡ some first.0) ((eq_iff key uuid).0 here) first.1 in
          rw (here, e) (same_reading d counter first.0 first.2 first.3)
      | inr elsewhere ↦ rw (elsewhere) (within_lookup d uuid rest b first.4 (rw elsewhere at read))
    ]

pub states_equal-total :
    (d : Direction) (uuid : String) (a b : AgentState)
    → agent_states_equal a b ≡ true
    → is_some (lookup uuid a.usage_totals) ≡ true
    → total d uuid a ≡ total d uuid b
unfolding agent_states_equal usage_counters_equal
states_equal-total d uuid a b equal read =
    let within : counters_within a.usage_totals b.usage_totals ≡ true = ground arith in
    within_lookup d uuid a.usage_totals b.usage_totals within read
