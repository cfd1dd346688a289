-- ===== src/Api/Admin.antt =====
-- internal/api/controlplane.go: who may call the handlers of admins, and under whose name they are
-- recorded.
pub mod Revoked
use v2ray_platform.Base.{ℕ, String, Option, none, some, not, ◌&&◌, ◌||◌, ◌==◌, if◌then◌else◌}
use v2ray_platform.Base.Result.{Result, ok, err}
use v2ray_platform.Domain.{Time}
use v2ray_platform.Auth.{Claims, Codec, Manager, verify}
use v2ray_platform.Api.Agents.{bearer_token}

-- the two headers of a request that say who sent it
pub record Credentials : Type 0 where
  pub authorization : String
  pub x_admin_token : String

abbrev pub legacy_claims : Claims
legacy_claims = record {
  session_id = "";
  admin_id = "legacy-admin";
  email = "legacy-admin@local";
  expires_at = 0;
}

unfoldable pub accepted_claims : {S : Type 0} → Result Claims × S → Option Claims × S
accepted_claims (ok claims, s) = (some claims, s)
accepted_claims (err x, s) = (none, s)

unfoldable pub claims_from_session :
    {S : Type 0} → Codec → Manager S → (ℕ → Time) → Credentials → S → Option Claims × S
unfolding bearer_token accepted_claims
claims_from_session k sessions at r s =
    let token = bearer_token r.authorization in
    if token == "" then (none, s) else accepted_claims (verify k sessions at token s)

unfoldable pub or_legacy :
    {S : Type 0} → String → Credentials → Option Claims × S → Option Claims × S
or_legacy admin_token r (some claims, s) = (some claims, s)
or_legacy admin_token r (none, s) =
    if not (admin_token == "") && (r.x_admin_token == admin_token)
    then (some legacy_claims, s)
    else (none, s)

-- `withAdmin`: the claims that the handler runs with, or none if the request is refused
unfoldable pub with_admin :
    {S : Type 0} → String → Codec → Manager S → (ℕ → Time) → Credentials → S → Option Claims × S
unfolding claims_from_session or_legacy
with_admin admin_token k sessions at r s =
    or_legacy admin_token r (claims_from_session k sessions at r s)

-- `actorAdminID`, for the audit log
unfoldable pub actor_admin_id : Option Claims → String
actor_admin_id none = ""
actor_admin_id (some claims) =
    if (claims.admin_id == "") || (claims.admin_id == "legacy-admin") then "" else claims.admin_id
