-- ===== src/Auth/Revocation.antt =====
-- internal/auth/session.go over internal/store/memory.go: what `Verify` refuses.
use Prim.Native.String.{◌++◌}
use v2ray_platform.Base.{
  ℕ, String, ◌≡◌, refl, ◌≤◌, ◌⊎◌, inl, inr, true, false, some, List, [], ◌∷◌, arith, ◌==◌, eq_iff,
  is_some, ltb, Bool-cases, subst, ◌+◌, ap, ◌∙◌,
}
use v2ray_platform.Base.Split.{split, split_two}
use v2ray_platform.Base.Int64.{Int64}
use v2ray_platform.Base.Result.{ok, err, Result-cases}
use v2ray_platform.Maps.{lookup, lookup-insert_self}
use v2ray_platform.Domain.{Time, Admin, AdminSession}
use v2ray_platform.Store.State.{MemoryStore, Env, new_id}
use v2ray_platform.Store.Sessions
use v2ray_platform.Store.Sessions.Revocation.{revoke_admin_sessions-revoked}
use v2ray_platform.Store.Calls.{Call, run}
use v2ray_platform.Store.Calls.Followed.{IsFollowed}
use v2ray_platform.Store.Calls.Histories.{AvoidsSession, run-IsFollowed}
use v2ray_platform.Auth.{
  sign, signed, Claims, Codec, Manager, new_manager, issued_with, issue, verify, verify_parts,
  verify_payload, verify_claims, verify_stored, verify_session, verify_signature, memory_sessions,
  err_invalid_session,
}
use v2ray_platform.Auth.Tokens.{IsFaithful, issued_claims, issued_session, session_id_not_empty}
use v2ray_platform.Auth.Accepted.{HasSession, parts_accepted, payload_accepted, claims_accepted}

verify_claims_revoked :
    (m : Manager MemoryStore) (claims : Claims) (session : AdminSession) (at : ℕ → Time)
    (t : MemoryStore)
    → m.store ≡ some memory_sessions
    → claims.session_id == "" ≡ false
    → Sessions.get_admin_session claims.session_id t ≡ ok (some session)
    → is_some session.revoked_at ≡ true
    → verify_claims m at t (some claims) ≡ (err err_invalid_session, t)
unfolding verify_claims verify_stored verify_session memory_sessions
verify_claims_revoked m claims session at t over named found gone =
    elim (Bool-cases (ltb claims.expires_at (at 0))) [
      | inl late ↦ rw (late) refl
      | inr live ↦ rw (live, named, over, found, gone) (ground arith)
    ]

-- A token that a manager signed is refused by its signature, or judged by its claims.
signed-cases :
    (k : Codec) (m m' : Manager MemoryStore) (claims given : Claims) (token : String)
    (at : ℕ → Time) (s : MemoryStore)
    → IsFaithful k
    → signed k m claims ≡ ok (token, given)
    → (verify k m' at token s ≡ (err err_invalid_session, s))
      ⊎ (verify k m' at token s ≡ verify_claims m' at s (some claims))
unfolding verify verify_parts verify_payload signed sign
signed-cases k m m' claims given token at s faithful made = elim (Result-cases (k.marshal claims)) [
  | inr (e, failed) ↦ cc (rw (failed, signed) at made)
  | inl (payload, marshalled) ↦
      let body : String = k.encode payload in
      let sig : String = k.encode (k.hmac_sha256 m.secret body) in
      let made' : ok (body ++ ("." ++ sig), claims) ≡ ok (token, given) =
        rw (marshalled, signed) at made in
      let t : body ++ ("." ++ sig) ≡ token = cc made' in
      let parts : split b'.' (body ++ ("." ++ sig)) ≡ body ∷ sig ∷ [] =
        split_two b'.' "." body sig refl (faithful.encode_no_stop payload)
          (faithful.encode_no_stop _) in
      elim (Bool-cases (verify_signature k m' body sig)) [
        | inr unknown ↦ inl (rw (← t, parts, unknown) refl)
        | inl known ↦ inr (
            rw
              (
                ← t,
                parts,
                known,
                faithful.decode-encode payload,
                faithful.unmarshal-marshal claims payload marshalled,
              )
              refl)
      ]
]

-- With a codec that reads back what it writes: a token is issued over the in-memory store, any calls
-- of the store follow, then
-- `RevokeAdminSessions` for its admin, and any calls again. If no session that these calls create is
-- given the identifier of the token's session, no manager over that store accepts the token
-- afterwards, whatever its secrets are and at whatever time.
pub verify-revoke_admin_sessions :
    (k : Codec) (secret secret' : String) (previous previous' : List String) (ttl ttl' : Int64)
    (e e' : Env) (now : Time) (admin : Admin) (s : MemoryStore) (token : String) (claims : Claims)
    (at : ℕ → Time) (before after : List (Env × Call))
    → IsFaithful k
    → AvoidsSession (new_id e "sess" 0) before
    → AvoidsSession (new_id e "sess" 0) after
    → (issue k (new_manager secret previous ttl (some memory_sessions)) e now admin s).0
      ≡ ok (token, claims)
    → (verify k (new_manager secret' previous' ttl' (some memory_sessions)) at token (
        run after
          (Sessions.revoke_admin_sessions e' admin.id (
            run before
              (issue k
                (new_manager secret previous ttl (some memory_sessions))
                e
                now
                admin
                s).1)).1)).0
      ≡ err err_invalid_session
unfolding issue issued_with memory_sessions Sessions.create_admin_session new_manager
verify-revoke_admin_sessions k secret secret' previous previous' ttl ttl' e e' now admin s token
      claims at before after faithful avoids avoids' issued =
    elim (signed-cases k m m' mine claims token at end faithful issued) [
      | inl refused ↦ ap (λ r. r.0) refused
      | inr judged ↦
          ap (λ r. r.0)
            (judged
              ∙ verify_claims_revoked m' mine later.session at end refl (session_id_not_empty e)
                  (unfold Sessions.get_admin_session in ap ok later.is_stored)
                  (later.is_later.still_revoked (gone.2 same_admin)))
    ]
  where
    id : String
    id = new_id e "sess" 0

    m : Manager MemoryStore
    m = new_manager secret previous ttl (some memory_sessions)

    m' : Manager MemoryStore
    m' = new_manager secret' previous' ttl' (some memory_sessions)

    mine : Claims
    mine = issued_claims e (now + m.ttl) admin

    session : AdminSession
    session = issued_session e (now + m.ttl) admin

    start : MemoryStore
    start = (issue k m e now admin s).1

    used : MemoryStore
    used = run before start

    revoked : MemoryStore
    revoked = (Sessions.revoke_admin_sessions e' admin.id used).1

    end : MemoryStore
    end = run after revoked

    first : IsFollowed id session used
    first = run-IsFollowed id session before start avoids (record {
      session = session;
      is_stored = lookup-insert_self id session s.admin_sessions;
      is_later = record { same_admin = refl; still_revoked = λ h. h };
    })

    same_admin : first.session.admin_id == admin.id ≡ true
    same_admin = (eq_iff first.session.admin_id admin.id).1 first.is_later.same_admin

    gone :
        (y : AdminSession) × (Sessions.get_admin_session id revoked ≡ ok (some y))
        × (first.session.admin_id == admin.id ≡ true → is_some y.revoked_at ≡ true)
        × (first.session.admin_id == admin.id ≡ false → y ≡ first.session)
        × (is_some first.session.revoked_at ≡ true → y ≡ first.session)
    gone = revoke_admin_sessions-revoked e' admin.id id used first.session first.is_stored

    later : IsFollowed id gone.0 end
    later = run-IsFollowed id gone.0 after revoked avoids' (record {
      session = gone.0;
      is_stored =
          let found : ok (lookup id revoked.admin_sessions) ≡ ok (some gone.0) =
            unfold Sessions.get_admin_session in gone.1 in
          cc found;
      is_later = record { same_admin = refl; still_revoked = λ h. h };
    })

-- What an accepted token has shown.
pub record IsAccepted (k : Codec) (m : Manager MemoryStore) (at : ℕ → Time) (token : String)
    (s : MemoryStore) (claims : Claims) : Type 0 where
  pub payload : String
  pub sig : String
  pub text : String
  pub token-parts : split b'.' token ≡ payload ∷ sig ∷ []
  pub is_signed : verify_signature k m payload sig ≡ true
  pub payload-text : k.decode payload ≡ some text
  pub text-claims : k.unmarshal text ≡ some claims
  pub is_live : at 0 ≤ claims.expires_at
  pub has_session : HasSession s at claims

-- A token that a manager over the in-memory store accepts has two parts, a signature by one of its
-- secrets, and claims that have not expired and are the ones returned; the session that they name, if
-- they name one, is stored, of the same admin, not revoked and not expired.
pub verify-IsAccepted :
    (k : Codec) (m : Manager MemoryStore) (at : ℕ → Time) (token : String) (s : MemoryStore)
    (claims : Claims)
    → m.store ≡ some memory_sessions
    → (verify k m at token s).0 ≡ ok claims
    → IsAccepted k m at token s claims
unfolding verify
verify-IsAccepted k m at token s claims over accepted =
    let a = parts_accepted k m at s (split b'.' token) claims accepted in
    let b = payload_accepted k m at s a.0 claims a.4 in
    let c = claims_accepted m at s b.1 claims over b.4 in
    record {
      payload = a.0;
      sig = a.1;
      text = b.0;
      token-parts = a.2;
      is_signed = a.3;
      payload-text = b.2;
      text-claims = b.3 ∙ ap some c.0;
      is_live = subst (λ (x : Claims). at 0 ≤ x.expires_at) c.0 c.1;
      has_session = subst (HasSession s at) c.0 c.2;
    }
