-- ===== src/Auth.antt =====
-- internal/auth/session.go: signed session tokens, and the sessions behind them. The signature, the
-- JSON of the claims and base64 are parameters (`Codec`); the sessions are an interface
-- (`SessionStore`) over any state, which the in-memory store implements.
pub mod Tokens
pub mod Accepted
pub mod Revocation
use Prim.Native.String.{◌++◌}
use v2ray_platform.Base.{
  ℕ, String, Bool, true, false, not, ◌||◌, Option, none, some, List, [], ◌∷◌, ◌==◌, ltb, ◌+◌, ◌*◌,
  if◌then◌else◌, is_some, any_of,
}
use v2ray_platform.Base.Int64.{Int64, le64}
use v2ray_platform.Base.Text.{trim_space}
use v2ray_platform.Base.Split.{split}
use v2ray_platform.Base.Result.{Error, message, Result, ok, err}
use v2ray_platform.Domain.{Time, Admin, AdminSession}
use v2ray_platform.Store.State.{MemoryStore, Env}
use v2ray_platform.Store.Sessions

pub record Claims : Type 0 where
  pub session_id : String
  pub admin_id : String
  pub email : String
  pub expires_at : Time

-- HMAC-SHA256 of a payload under a secret, `base64.RawURLEncoding`, and the JSON of the claims
pub record Codec : Type 0 where
  pub hmac_sha256 : String → String → String
  pub encode : String → String
  pub decode : String → Option String
  pub marshal : Claims → Result String
  pub unmarshal : String → Option Claims

pub record SessionStore (S : Type 0) : Type 0 where
  pub create_admin_session : Env → String → Time → S → Result AdminSession × S
  pub get_admin_session : String → S → Result (Option AdminSession)
  pub touch_admin_session : String → Time → S → Result (Unit {0}) × S

pub record Manager (S : Type 0) : Type 0 where
  pub secret : String
  pub verify_secrets : List String
  pub ttl : Int64
  pub store : Option (SessionStore S)

unfoldable pub memory_sessions : SessionStore MemoryStore
memory_sessions = record {
  create_admin_session = Sessions.create_admin_session;
  get_admin_session = Sessions.get_admin_session;
  touch_admin_session = Sessions.touch_admin_session;
}

abbrev pub err_invalid_session : Error
err_invalid_session = message "invalid session"

abbrev pub day : Int64
day = 86400 * 1000000000

unfoldable pub previous_secrets : List String → List String
previous_secrets [] = []
previous_secrets (candidate ∷ rest) =
    let secrets = previous_secrets rest in
    if trim_space candidate == "" then secrets else trim_space candidate ∷ secrets

unfoldable pub new_manager :
    {S : Type 0} → String → List String → Int64 → Option (SessionStore S) → Manager S
unfolding previous_secrets
new_manager secret previous ttl store = record {
  secret = secret;
  verify_secrets = secret ∷ previous_secrets previous;
  ttl = if le64 ttl 0 then day else ttl;
  store = store;
}

unfoldable pub sign : Codec → String → String → String
sign k secret payload = k.encode (k.hmac_sha256 secret payload)

module _ {S : Type 0} where
  -- the token of some claims
  unfoldable pub signed : Codec → Manager S → Claims → Result (String × Claims)
  unfolding sign
  signed k m claims = elim (k.marshal claims) [
    | err e ↦ err e
    | ok payload ↦ ok (k.encode payload ++ ("." ++ sign k m.secret (k.encode payload)), claims)
  ]

  unfoldable pub issued_with :
      Codec → Manager S → Admin → Time → Result AdminSession × S → Result (String × Claims) × S
  unfolding signed
  issued_with k m admin expires_at (err e, s) = (err e, s)
  issued_with k m admin expires_at (ok session, s) =
      let claims : Claims = record {
        session_id = session.id;
        admin_id = admin.id;
        email = admin.email;
        expires_at = expires_at;
      } in
      (signed k m claims, s)

  -- `Issue`, called at an instant
  unfoldable pub issue : Codec → Manager S → Env → Time → Admin → S → Result (String × Claims) × S
  unfolding issued_with signed
  issue k m e now admin s =
      let expires_at = now + m.ttl in
      elim m.store [
        | none ↦
            let claims : Claims = record {
              session_id = "";
              admin_id = admin.id;
              email = admin.email;
              expires_at = expires_at;
            } in
            (signed k m claims, s)
        | some store ↦
            issued_with k m admin expires_at (store.create_admin_session e admin.id expires_at s)
      ]

  unfoldable pub verify_signature : Codec → Manager S → String → String → Bool
  unfolding sign
  verify_signature k m payload sig =
      any_of (λ secret. sig == sign k secret payload) m.verify_secrets

  -- A store that fails does not refuse the token.
  unfoldable pub verify_session :
      SessionStore S → Claims → (ℕ → Time) → S → Result (Option AdminSession) → Result Claims × S
  verify_session store claims at s (err e) = (ok claims, s)
  verify_session store claims at s (ok none) = (err err_invalid_session, s)
  verify_session store claims at s (ok (some session)) =
      if not (session.admin_id == claims.admin_id)
        || is_some session.revoked_at
        || ltb session.expires_at (at 1)
      then (err err_invalid_session, s)
      else (ok claims, (store.touch_admin_session claims.session_id (at 2) s).1)

  unfoldable pub verify_stored :
      Claims → (ℕ → Time) → S → Option (SessionStore S) → Result Claims × S
  unfolding verify_session
  verify_stored claims at s none = (ok claims, s)
  verify_stored claims at s (some store) =
      verify_session store claims at s (store.get_admin_session claims.session_id s)

  unfoldable pub verify_claims : Manager S → (ℕ → Time) → S → Option Claims → Result Claims × S
  unfolding verify_stored
  verify_claims m at s none = (err err_invalid_session, s)
  verify_claims m at s (some claims) =
      if ltb claims.expires_at (at 0)
      then (err err_invalid_session, s)
      else if claims.session_id == ""
      then (ok claims, s)
      else verify_stored claims at s m.store

  unfoldable pub verify_payload :
      Codec → Manager S → (ℕ → Time) → S → Option String → Result Claims × S
  unfolding verify_claims
  verify_payload k m at s none = (err err_invalid_session, s)
  verify_payload k m at s (some payload) = verify_claims m at s (k.unmarshal payload)

  unfoldable pub verify_parts : Codec → Manager S → (ℕ → Time) → S → List String → Result Claims × S
  unfolding verify_payload verify_signature
  verify_parts k m at s (payload ∷ sig ∷ []) =
      if not (verify_signature k m payload sig)
      then (err err_invalid_session, s)
      else verify_payload k m at s (k.decode payload)
  verify_parts k m at s parts = (err err_invalid_session, s)

  -- `Verify`, with the readings of the clock in their order
  unfoldable pub verify : Codec → Manager S → (ℕ → Time) → String → S → Result Claims × S
  unfolding verify_parts
  verify k m at token s = verify_parts k m at s (split b'.' token)
