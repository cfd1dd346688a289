-- ===== src/Agent/Round/Bookings.antt =====
-- cmd/node-agent/main.go: what a post of usage, `postJSON`, says of what the control plane has booked.
use Prim.Native.String.{◌++◌}
use v2ray_platform.Base.{
  ℕ, ◌+◌, ◌≤◌, String, ◌≡◌, refl, List, ◌∷◌, ◌⊎◌, leb, arith, Bool-cases, inl, inr,
}
use v2ray_platform.Base.Result.{Result, ok, err, Result-cases}
use v2ray_platform.Config.{NodeAgentConfig}
use v2ray_platform.Agent.{
  AgentState, UsageSnapshot, HttpResponse, Machine, Library, bearer_header, post_json,
  post_answered,
}
use v2ray_platform.Agent.Sync.{answer_dropped}
use v2ray_platform.Agent.Counters.{Patterns}
use v2ray_platform.Agent.Counters.Difference.{Direction, reported}
use v2ray_platform.Agent.Usage.{post_usage}

abbrev pub IsFailure : Result HttpResponse → Type 0
IsFailure (err e) = Unit {0}
IsFailure (ok response) = 300 ≤ response.status_code

-- A request that is answered well has been booked; one that fails may have been, when only its answer
-- is lost.
abbrev pub IsBooked : {W : Type 0} → (W → ℕ) → ℕ → W → Result HttpResponse × W → Type 0
IsBooked received n w r =
    (received r.1 ≡ received w + n) ⊎ ((received r.1 ≡ received w) × IsFailure r.0)

-- The bytes that the control plane has for a credential, as a count on the world: a request for usage
-- that is booked adds the bytes that its body stands for, and nothing else that the agent does here
-- changes the count.
pub record IsCount {W : Type 0} (m : Machine W) (k : Library) (cfg : NodeAgentConfig)
    (d : Direction) (uuid : String) (received : W → ℕ) (bytes : String → ℕ) : Type 0 where
  pub run-received : (argv : List String) (w : W) → received (m.run argv w).1 ≡ received w
  pub write_file-received :
      (path text : String) (w : W) → received (m.write_file path text w).1 ≡ received w
  pub bytes-usage_request :
      (snapshots : List UsageSnapshot) (body : String)
      → k.usage_request snapshots ≡ ok body
      → bytes body ≡ reported d uuid snapshots
  pub send-IsBooked :
      (headers : List (String × String)) (body : String) (w : W)
      → IsBooked received (bytes body) w (
          m.send
            (record {
              method = "POST";
              url = cfg.control_plane_url ++ "/api/agent/usage";
              headers = headers;
              body = body;
            })
            w)

abbrev pub IsPosted : {W : Type 0} → (W → ℕ) → ℕ → W → Result (Unit {0}) × W → Type 0
IsPosted received n w (ok _, w') = received w' ≡ received w + n
IsPosted received n w (err e, w') = (received w' ≡ received w) ⊎ (received w' ≡ received w + n)

module _ {W : Type 0} (m : Machine W) (received : W → ℕ) where
  answered-IsPosted :
      (n : ℕ) (w : W) (r : Result HttpResponse × W)
      → IsBooked received n w r
      → IsPosted received n w (answer_dropped (post_answered m r))
  unfolding answer_dropped post_answered
  answered-IsPosted n w (err e, w') (inl booked) = inr booked
  answered-IsPosted n w (err e, w') (inr lost) = inl lost.0
  answered-IsPosted n w (ok response, w') (inl booked) =
      elim (Bool-cases (leb 300 response.status_code)) [
        | inl failed ↦ rw (failed) (inr booked)
        | inr fine ↦ rw (fine) booked
      ]
  answered-IsPosted n w (ok response, w') (inr lost) =
      elim (Bool-cases (leb 300 response.status_code)) [
        | inl failed ↦ rw (failed) (inl lost.0)
        | inr fine ↦ absurd (grind arith)
      ]

pub post_usage-IsPosted :
    {W : Type 0} (m : Machine W) (k : Library) (p : Patterns) (cfg : NodeAgentConfig)
    (d : Direction) (uuid : String) (received : W → ℕ) (bytes : String → ℕ) (state : AgentState)
    (snapshots : List UsageSnapshot) (w : W)
    → IsCount m k cfg d uuid received bytes
    → IsPosted received (reported d uuid snapshots) w (post_usage m k p cfg state snapshots w)
unfolding post_usage post_json answer_dropped
post_usage-IsPosted m k p cfg d uuid received bytes state snapshots w count =
    elim (Result-cases (k.usage_request snapshots)) [
      | inr (e, unwritten) ↦ rw (unwritten) (inl refl)
      | inl (body, written) ↦
          rw (written, ← count.bytes-usage_request snapshots body written)
            (answered-IsPosted m received (bytes body) w
              (m.send
                (record {
                  method = "POST";
                  url = cfg.control_plane_url ++ "/api/agent/usage";
                  headers = ("Content-Type", "application/json") ∷ bearer_header state.node_token;
                  body = body;
                })
                w)
              (count.send-IsBooked
                (("Content-Type", "application/json") ∷ bearer_header state.node_token) body w))
    ]
