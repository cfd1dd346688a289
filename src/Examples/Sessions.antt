-- ===== src/Examples/Sessions.antt =====
-- The theorems on sessions and tags, applied to small inputs.
use v2ray_platform.Base.{String, ◌≡◌, refl, true, false, none, some, [], ◌∷◌, ◌==◌, is_some}
use v2ray_platform.Base.Result.{ok}
use v2ray_platform.Maps.{lookup}
use v2ray_platform.Domain.{AdminSession}
use v2ray_platform.Store.State.{MemoryStore}
use v2ray_platform.Store.Sessions.{get_admin_session, revoke_admin_sessions}
use v2ray_platform.Store.Sessions.Revocation.{revoke_admin_sessions-revoked}
use v2ray_platform.Examples.{env, store}

abbrev session : String → String → AdminSession
session id admin_id = record {
  id = id;
  admin_id = admin_id;
  expires_at = 9000;
  revoked_at = none;
  last_seen_at = none;
  created_at = 20;
  updated_at = 20;
}

abbrev sessions : MemoryStore
sessions = record store {
  admin_sessions = ("s1", session "s1" "root") ∷ ("s2", session "s2" "other") ∷ [];
}

revoke_admin_sessions-revoked_example :
    (y : AdminSession) × (get_admin_session "s2" (revoke_admin_sessions (env "a") "root" sessions).1
      ≡ ok (some y))
    × ("other" == "root" ≡ true → is_some y.revoked_at ≡ true)
    × ("other" == "root" ≡ false → y ≡ session "s2" "other")
    × (false ≡ true → y ≡ session "s2" "other")
unfolding lookup
revoke_admin_sessions-revoked_example =
    revoke_admin_sessions-revoked (env "a") "root" "s2" sessions (session "s2" "other") refl
