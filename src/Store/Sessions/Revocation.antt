-- ===== src/Store/Sessions/Revocation.antt =====
-- What the revocation of an admin's sessions does to each session.
use v2ray_platform.Base.{
  String, ◌≡◌, true, false, not, ◌||◌, some, [], ◌∷◌, arith, ◌==◌, if◌then◌else◌, is_some,
  Bool-cases, inl, inr,
}
use v2ray_platform.Base.Result.{ok}
use v2ray_platform.Maps.{Map, lookup, update_all}
use v2ray_platform.Domain.{AdminSession}
use v2ray_platform.Store.State.{MemoryStore, Env}
use v2ray_platform.Store.Sessions.{revoked, revoke_admin_sessions, get_admin_session}

pub lookup-update_all {ℓ} :
    {V : Type ℓ} (f : V → V) (k : String) (v : V) (m : Map V)
    → lookup k m ≡ some v
    → lookup k (update_all f m) ≡ some (f v)
unfolding lookup update_all
lookup-update_all f k v [] h = cc
lookup-update_all f k v ((j, w) ∷ m) h = elim (Bool-cases (j == k)) [
  | inl here ↦ rw (here) (cc (rw here at h))
  | inr other ↦ rw (other) (lookup-update_all f k v m (rw other at h))
]

-- Revoking the sessions of an admin keeps every stored session under its identifier. Those of the
-- admin are revoked afterwards, while those of another admin, and those that were revoked before,
-- are as they were.
pub revoke_admin_sessions-revoked :
    (e : Env) (admin_id id : String) (s : MemoryStore) (x : AdminSession)
    → lookup id s.admin_sessions ≡ some x
    → (y : AdminSession) × (get_admin_session id (revoke_admin_sessions e admin_id s).1
        ≡ ok (some y))
      × (x.admin_id == admin_id ≡ true → is_some y.revoked_at ≡ true)
      × (x.admin_id == admin_id ≡ false → y ≡ x)
      × (is_some x.revoked_at ≡ true → y ≡ x)
unfolding revoke_admin_sessions get_admin_session revoked
revoke_admin_sessions-revoked e admin_id id s x found = (
  (if not (x.admin_id == admin_id) || is_some x.revoked_at then x else revoked (e.clock 0) x),
  rw (lookup-update_all _ id x s.admin_sessions found),
  λ mine. ground arith,
  λ other. rw (other),
  λ old. ground arith,
)
