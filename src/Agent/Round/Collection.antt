-- ===== src/Agent/Round/Collection.antt =====
-- cmd/node-agent/main.go: the usage that is read from the runtime against the totals that are kept.
use v2ray_platform.Base.{
  ℕ, ◌+◌, ◌-◌, ◌≤◌, ◌⊎◌, subst, sym, ◌<◌, String, ◌≡◌, refl, true, Option, none, some, List, [],
  ◌∷◌, arith, if◌then◌else◌, is_some, Distinct, Bool-cases, inl, inr, ◌∙◌,
}
use v2ray_platform.Base.Int64.{min_negative}
use v2ray_platform.Base.Result.{Error, Result, ok, err, Result-cases}
use v2ray_platform.Maps.{Map, keys, lookup}
use v2ray_platform.Domain.{Time}
use v2ray_platform.Config.{NodeAgentConfig}
use v2ray_platform.Agent.{
  AgentState, UsageCounter, UsageSnapshot, Machine, Library, save_state, save_text,
}
use v2ray_platform.Agent.Counters.{
  Patterns, counter_of, is_empty, parse_usage_counters, diff_usage_counters, agent_states_equal,
}
use v2ray_platform.Agent.Counters.Keys.{parse_usage_counters-Distinct}
use v2ray_platform.Agent.Counters.Difference.{
  Direction, reading, reported, consumed, diff_usage_counters-reported,
}
use v2ray_platform.Agent.Usage.{
  should_collect_usage, usage_command, query_answered, query_runtime_usage, post_usage, uploaded,
  upload_counters, upload_output, maybe_upload_usage_from_runtime, maybe_upload_usage,
}
use v2ray_platform.Agent.Round.{Agent, collected, collect}
use v2ray_platform.Agent.Round.Bookings.{IsCount, IsPosted, post_usage-IsPosted}
use v2ray_platform.Agent.Round.Totals.{total, states_equal-total}

-- The counters show the credential, and its reading did not fall.
pub record HasGrown (d : Direction) (uuid : String) (state : AgentState)
    (counters : Map UsageCounter) : Type 0 where
  pub is_read : is_some (lookup uuid counters) ≡ true
  pub is_small : reading d (counter_of uuid counters) < min_negative
  pub is_more : total d uuid state ≤ reading d (counter_of uuid counters)

reported_empty :
    (d : Direction) (uuid : String) (snapshots : List UsageSnapshot)
    → is_empty snapshots ≡ true
    → reported d uuid snapshots ≡ 0
unfolding reported
reported_empty d uuid [] h = refl
reported_empty d uuid (x ∷ xs) h = cc

-- The control plane has booked all that was read since the totals were kept.
abbrev pub IsAllBooked :
    {W : Type 0} (m : Machine W) (k : Library) (p : Patterns) (cfg : NodeAgentConfig)
    (d : Direction) (uuid : String) (received : W → ℕ)
    → AgentState
    → W
    → W
    → Type 0
IsAllBooked m k p cfg d uuid received state w w' =
    (output : String) × (counters : Map UsageCounter) × ((query_runtime_usage m k p cfg w).0
      ≡ ok output)
    × (parse_usage_counters p output ≡ ok counters)
    × (received w' + total d uuid state ≡ received w + reading d (counter_of uuid counters))

-- The upload failed, though what it sent was booked: the state is as it was, so that the same bytes
-- are sent again.
pub record IsUnacknowledged {W : Type 0} (m : Machine W) (k : Library) (p : Patterns)
    (cfg : NodeAgentConfig) (d : Direction) (uuid : String) (received : W → ℕ) (a : Agent)
    (now : Time) (w : W) (end : Agent × W) : Type 0 where
  pub has_failed : is_some (maybe_upload_usage m k p cfg a.state now w).0.1 ≡ true
  pub state_kept : end.0.state ≡ a.state
  pub all_booked : IsAllBooked m k p cfg d uuid received a.state w end.1

module _ {W : Type 0} (m : Machine W) (k : Library) (p : Patterns) (cfg : NodeAgentConfig)
    (d : Direction) (uuid : String) (received : W → ℕ) (bytes : String → ℕ)
    (count : IsCount m k cfg d uuid received bytes) where
  -- a run of the upload that began in a state and a world, and read some more bytes
  abbrev Ended : AgentState → W → (AgentState × Option Error) × W → Type 0 → Type 0
  Ended state w ((changed, none), w') Booked =
      (received w' + total d uuid state ≡ received w + total d uuid changed)
      × (is_some (lookup uuid changed.usage_totals) ≡ true)
  Ended state w ((changed, some e), w') Booked = (received w' ≡ received w) ⊎ Booked

  abbrev Counted : AgentState → W → Map UsageCounter → W → Type 0
  Counted state w counters w' =
      received w' + total d uuid state ≡ received w + reading d (counter_of uuid counters)

  uploaded-Ended :
      (state counted : AgentState) (w₀ w : W) (n : ℕ) (r : Result (Unit {0}) × W)
      → n + total d uuid state ≡ total d uuid counted
      → is_some (lookup uuid counted.usage_totals) ≡ true
      → received w ≡ received w₀
      → IsPosted received n w r
      → Ended state w₀
          (uploaded m k p cfg counted counted r)
          (Counted state w₀ counted.usage_totals r.1)
  unfolding uploaded
  uploaded-Ended state counted w₀ w n (err e, w') sum read start (inl lost) = inl (lost ∙ start)
  uploaded-Ended state counted w₀ w n (err e, w') sum read start (inr booked) =
      inr (omega (arith, sum, start, booked))
  uploaded-Ended state counted w₀ w n (ok tt, w') sum read start booked =
      (omega (arith, sum, start, booked), read)

  uploaded_world :
      (counted : AgentState) (r : Result (Unit {0}) × W)
      → (uploaded m k p cfg counted counted r).1 ≡ r.1
  unfolding uploaded
  uploaded_world counted (err e, w') = refl
  uploaded_world counted (ok tt, w') = refl

  counters-Ended :
      (state : AgentState) (now : Time) (w₀ w : W) (counters : Map UsageCounter)
      → Distinct (keys counters)
      → HasGrown d uuid state counters
      → received w ≡ received w₀
      → Ended state w₀
          (upload_counters m k p cfg state now (ok counters) w)
          (Counted state w₀ counters (upload_counters m k p cfg state now (ok counters) w).1)
  unfolding upload_counters
  counters-Ended state now w₀ w counters distinct grown start =
      let difference = diff_usage_counters k counters state.usage_totals now in
      let facts =
        diff_usage_counters-reported k d uuid counters state.usage_totals now distinct
          grown.is_small small in
      let counted : AgentState = record state { usage_totals = counters } in
      let sum : reported d uuid difference.0 + total d uuid state
          ≡ reading d (counter_of uuid counters) =
        omega (arith, facts.0 ∙ if_read, grown.is_more) in
      elim (Bool-cases (is_empty difference.0)) [
        | inl nothing ↦
            let zero_sum = reported_empty d uuid difference.0 nothing in
            rw (nothing) (omega (arith, sum, zero_sum, start), grown.is_read)
        | inr some_use ↦ rw (some_use) (
            subst
              (λ world.
                Ended state w₀
                  (uploaded m k p cfg counted counted (post_usage m k p cfg counted difference.0 w))
                  (Counted state w₀ counters world))
              (sym (uploaded_world counted (post_usage m k p cfg counted difference.0 w)))
              (uploaded-Ended state counted w₀ w (reported d uuid difference.0)
                (post_usage m k p cfg counted difference.0 w) sum grown.is_read start
                (post_usage-IsPosted m k p cfg d uuid received bytes counted difference.0 w count)))
      ]
    where
      small : total d uuid state < min_negative
      small = omega (arith, grown.is_small, grown.is_more)

      if_read :
          (if is_some (lookup uuid counters)
            then consumed (total d uuid state) (reading d (counter_of uuid counters))
            else 0)
          ≡ reading d (counter_of uuid counters) - total d uuid state
      if_read = rw (grown.is_read) (ground (arith, grown.is_more))

  query_received :
      (r : (String × Option Error) × W) → received (query_answered m k p cfg r).1 ≡ received r.1
  unfolding query_answered
  query_received ((output, none), w) = refl
  query_received ((output, some e), w) = refl

  output-Ended :
      (state : AgentState) (now : Time) (w : W)
      → ((output : String) (counters : Map UsageCounter)
          → (query_runtime_usage m k p cfg w).0 ≡ ok output
          → parse_usage_counters p output ≡ ok counters
          → HasGrown d uuid state counters)
      → Ended state w (upload_output m k p cfg state now (query_runtime_usage m k p cfg w)) (
          IsAllBooked m k p cfg d uuid received state w
            (upload_output m k p cfg state now (query_runtime_usage m k p cfg w)).1)
  unfolding upload_output
  output-Ended state now w grown = go (query_runtime_usage m k p cfg w) refl
    where
      asked : received (query_runtime_usage m k p cfg w).1 ≡ received w
      asked =
          unfold query_runtime_usage in
          (query_received (m.run (usage_command cfg) w) ∙ count.run-received (usage_command cfg) w)

      failed_read :
          (e : Error) (w' : W)
          → received w' ≡ received w
          → Ended state w (upload_counters m k p cfg state now (err e) w') (
              IsAllBooked m k p cfg d uuid received state w
                (upload_counters m k p cfg state now (err e) w').1)
      failed_read e w' start = unfold upload_counters in (inl start)

      with_more :
          (r : (AgentState × Option Error) × W) (A B : Type 0)
          → (A → B)
          → Ended state w r A
          → Ended state w r B
      with_more ((changed, none), w') A B f ended = ended
      with_more ((changed, some e), w') A B f (inl same) = inl same
      with_more ((changed, some e), w') A B f (inr more) = inr (f more)

      go :
          (r : Result String × W)
          → query_runtime_usage m k p cfg w ≡ r
          → Ended state w (upload_output m k p cfg state now r) (
              IsAllBooked m k p cfg d uuid received state w (upload_output m k p cfg state now r).1)
      go (err e, w') e₁ = inl (rw e₁ at asked)
      go (ok output, w') e₁ = elim (Result-cases (parse_usage_counters p output)) [
        | inr (e, unread) ↦ rw (unread) (failed_read e w' (rw e₁ at asked))
        | inl (counters, parsed) ↦ rw (parsed) (
            let queried : (query_runtime_usage m k p cfg w).0 ≡ ok output = rw (e₁) refl in
            let end = upload_counters m k p cfg state now (ok counters) w' in
            with_more end (Counted state w counters end.1)
              (IsAllBooked m k p cfg d uuid received state w end.1)
              (λ booked. (output, counters, queried, parsed, booked))
              (counters-Ended state now w w' counters
                (parse_usage_counters-Distinct p output counters parsed).0
                (grown output counters queried parsed) (rw e₁ at asked)))
      ]

  saved_received :
      (path : String) (text : Result String) (w : W)
      → received (save_text m path text w).1 ≡ received w
  unfolding save_text
  saved_received path (err e) w = refl
  saved_received path (ok text) w = count.write_file-received path text w

  collected-Ended :
      (a : Agent) (w : W) (r : (AgentState × Option Error) × W) (Booked : Type 0)
      → Ended a.state w r Booked
      → (received (collected m k p cfg a r).1 + total d uuid a.state
          ≡ received w + total d uuid (collected m k p cfg a r).0.state)
        ⊎ ((is_some r.0.1 ≡ true)
            × ((collected m k p cfg a r).0.state ≡ a.state)
            × ((collected m k p cfg a r).1 ≡ r.1)
            × Booked)
  unfolding collected save_state
  collected-Ended a w ((changed, some e), w') Booked (inl same) = inl (omega (arith, same))
  collected-Ended a w ((changed, some e), w') Booked (inr booked) = inr (refl, refl, refl, booked)
  collected-Ended a w ((changed, none), w') Booked balanced =
      elim (Bool-cases (agent_states_equal changed a.state)) [
        | inl same ↦ rw (same) (
            inl (
              omega (arith, balanced.0, states_equal-total d uuid changed a.state same balanced.1)))
        | inr other ↦ rw (other) (
            inl
              (omega (arith, balanced.0, saved_received cfg.state_path (k.state_text changed) w')))
      ]

-- Given a count of what the control plane has booked for a credential, which a request for usage
-- raises, if it is booked, by the bytes that its body reports: when usage is read from the runtime and
-- the credential's counter is shown and has not fallen since the totals were kept, a collection ends in
-- one of two ways, whether the reading, the parsing, the upload or the saving of the state fails or
-- not. Either the count grows by as much as the kept total; or the upload failed though the control
-- plane has booked all that it sent, and the agent's state is as it was, so that the same bytes are
-- still to be reported.
pub collect-balance :
    {W : Type 0} (m : Machine W) (k : Library) (p : Patterns) (cfg : NodeAgentConfig)
    (d : Direction) (uuid : String) (received : W → ℕ) (bytes : String → ℕ) (at : ℕ → Time)
    (a : Agent) (w : W)
    → IsCount m k cfg d uuid received bytes
    → cfg.usage_source ≡ "runtime"
    → ((output : String) (counters : Map UsageCounter)
        → (query_runtime_usage m k p cfg w).0 ≡ ok output
        → parse_usage_counters p output ≡ ok counters
        → HasGrown d uuid a.state counters)
    → (received (collect m k p cfg at (a, w)).1 + total d uuid a.state
        ≡ received w + total d uuid (collect m k p cfg at (a, w)).0.state)
      ⊎ IsUnacknowledged m k p cfg d uuid received a (at 2) w (collect m k p cfg at (a, w))
unfolding collect
collect-balance {W = W} m k p cfg d uuid received bytes at a w count source grown =
    elim (Bool-cases (should_collect_usage cfg a.last_usage_attempt (at 0))) [
      | inr not_yet ↦ rw (not_yet) (inl refl)
      | inl due ↦ rw (due) (
          settled (
            collected-Ended m k p cfg d uuid received bytes count
              (record a { last_usage_attempt = some (at 1) }) w
              (maybe_upload_usage m k p cfg a.state (at 2) w)
              (IsAllBooked m k p cfg d uuid received a.state w
                (maybe_upload_usage m k p cfg a.state (at 2) w).1)
              (rw (from_runtime)
                (output-Ended m k p cfg d uuid received bytes count a.state (at 2) w grown))))
    ]
  where
    from_runtime :
        maybe_upload_usage m k p cfg a.state (at 2) w
        ≡ upload_output m k p cfg a.state (at 2) (query_runtime_usage m k p cfg w)
    from_runtime = unfold maybe_upload_usage maybe_upload_usage_from_runtime in (rw (source) refl)

    end : Agent × W
    end =
        collected m k p cfg (record a { last_usage_attempt = some (at 1) })
          (maybe_upload_usage m k p cfg a.state (at 2) w)

    settled :
        (received end.1 + total d uuid a.state ≡ received w + total d uuid end.0.state)
          ⊎ ((is_some (maybe_upload_usage m k p cfg a.state (at 2) w).0.1 ≡ true)
              × (end.0.state ≡ a.state)
              × (end.1 ≡ (maybe_upload_usage m k p cfg a.state (at 2) w).1)
              × IsAllBooked m k p cfg d uuid received a.state w
                  (maybe_upload_usage m k p cfg a.state (at 2) w).1)
        → (received end.1 + total d uuid a.state ≡ received w + total d uuid end.0.state)
          ⊎ IsUnacknowledged m k p cfg d uuid received a (at 2) w end
    settled (inl balanced) = inl balanced
    settled (inr (failed, kept, same, booked)) = inr (record {
      has_failed = failed;
      state_kept = kept;
      all_booked = subst (IsAllBooked m k p cfg d uuid received a.state w) (sym same) booked;
    })
