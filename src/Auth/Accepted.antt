-- ===== src/Auth/Accepted.antt =====
-- internal/auth/session.go over internal/store/memory.go: what each step of `Verify` has shown when it
-- accepts.
use v2ray_platform.Base.{
  ℕ, String, ◌≡◌, refl, ◌≤◌, ◌⊎◌, inl, inr, true, false, not, ◌||◌, some, List, [], ◌∷◌, arith,
  ◌==◌, eq_iff, is_some, ltb, Bool-cases, Option-cases,
}
use v2ray_platform.Base.Result.{ok}
use v2ray_platform.Maps.{lookup}
use v2ray_platform.Domain.{Time, AdminSession}
use v2ray_platform.Store.State.{MemoryStore}
use v2ray_platform.Store.Sessions
use v2ray_platform.Auth.{
  Claims, Codec, SessionStore, Manager, verify_parts, verify_payload, verify_claims, verify_stored,
  verify_session, verify_signature, memory_sessions,
}

-- The session that the claims name, if they name one, stands in the store: the admin's, not revoked
-- and not expired.
abbrev pub HasSession : MemoryStore → (ℕ → Time) → Claims → Type 0
HasSession s at claims =
    (claims.session_id ≡ "")
    ⊎ ((session : AdminSession) × (lookup claims.session_id s.admin_sessions ≡ some session)
        × (session.admin_id ≡ claims.admin_id)
        × (is_some session.revoked_at ≡ false)
        × (at 1 ≤ session.expires_at))

pub parts_accepted :
    (k : Codec) (m : Manager MemoryStore) (at : ℕ → Time) (s : MemoryStore) (parts : List String)
    (claims : Claims)
    → (verify_parts k m at s parts).0 ≡ ok claims
    → (payload : String) × (sig : String) × (parts ≡ payload ∷ sig ∷ [])
      × (verify_signature k m payload sig ≡ true)
      × ((verify_payload k m at s (k.decode payload)).0 ≡ ok claims)
unfolding verify_parts
parts_accepted k m at s [] claims h = cc
parts_accepted k m at s (a ∷ []) claims h = cc
parts_accepted k m at s (a ∷ b ∷ c ∷ rest) claims h = cc
parts_accepted k m at s (a ∷ b ∷ []) claims h = elim (Bool-cases (verify_signature k m a b)) [
  | inl known ↦ (a, b, refl, known, rw known at h)
  | inr unknown ↦ cc (rw unknown at h)
]

pub payload_accepted :
    (k : Codec) (m : Manager MemoryStore) (at : ℕ → Time) (s : MemoryStore) (payload : String)
    (claims : Claims)
    → (verify_payload k m at s (k.decode payload)).0 ≡ ok claims
    → (text : String) × (found : Claims) × (k.decode payload ≡ some text)
      × (k.unmarshal text ≡ some found)
      × ((verify_claims m at s (some found)).0 ≡ ok claims)
unfolding verify_payload verify_claims
payload_accepted k m at s payload claims h = elim (Option-cases (k.decode payload)) [
  | inl undecoded ↦ cc (rw undecoded at h)
  | inr (text, decoded) ↦ elim (Option-cases (k.unmarshal text)) [
    | inl unread ↦ cc (rw (decoded, unread) at h)
    | inr (found, read) ↦ (text, found, decoded, read, rw (decoded, read) at h)
  ]
]

session_accepted :
    (store : SessionStore MemoryStore) (at : ℕ → Time) (s : MemoryStore) (found claims : Claims)
    (session : AdminSession)
    → (verify_session store found at s (ok (some session))).0 ≡ ok claims
    → (found ≡ claims)
      × (session.admin_id ≡ found.admin_id)
      × (is_some session.revoked_at ≡ false)
      × (at 1 ≤ session.expires_at)
unfolding verify_session
session_accepted store at s found claims session h =
    let owner = session.admin_id == found.admin_id in
    let gone = is_some session.revoked_at in
    let late = ltb session.expires_at (at 1) in
    elim (Bool-cases (not owner || gone || late)) [
      | inl refused ↦ cc (rw refused at h)
      | inr accepted ↦ (
        cc (rw accepted at h),
        (eq_iff session.admin_id found.admin_id).0 (ground arith),
        ground arith,
        ground arith,
      )
    ]

pub claims_accepted :
    (m : Manager MemoryStore) (at : ℕ → Time) (s : MemoryStore) (found claims : Claims)
    → m.store ≡ some memory_sessions
    → (verify_claims m at s (some found)).0 ≡ ok claims
    → (found ≡ claims) × (at 0 ≤ found.expires_at) × HasSession s at found
unfolding verify_claims verify_stored verify_session memory_sessions Sessions.get_admin_session
claims_accepted m at s found claims over h = elim (Bool-cases (ltb found.expires_at (at 0))) [
  | inl late ↦ cc (rw late at h)
  | inr live ↦ elim (Bool-cases (found.session_id == "")) [
    | inl unnamed ↦
        (cc (rw (live, unnamed) at h), ground arith, inl ((eq_iff found.session_id "").0 unnamed))
    | inr named ↦ elim (Option-cases (lookup found.session_id s.admin_sessions)) [
      | inl missing ↦ cc (rw (live, named, over, missing) at h)
      | inr (session, stored) ↦
          let facts =
            session_accepted memory_sessions at s found claims session
              (rw (live, named, over, stored) at h) in
          (facts.0, ground arith, inr (session, stored, facts.1, facts.2, facts.3))
    ]
  ]
]
