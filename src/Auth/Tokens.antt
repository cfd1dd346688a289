-- ===== src/Auth/Tokens.antt =====
-- internal/auth/session.go: which tokens `Verify` accepts, those that `Issue` makes among them.
use Prim.Native.Char.{Char}
use Prim.Native.String.{◌++◌}
use text.Mathlib.TextLemmas.{cons-append, cons≢nil}
use v2ray_platform.Base.{
  ℕ, String, ◌≡◌, refl, ◌≤◌, inl, inr, true, false, Option, none, some, List, [], ◌∷◌, arith, ◌==◌,
  eq_iff, eq_refl, contains, any_of, Bool-cases, ◌+◌, ap, sym, ◌∙◌, subst,
}
use v2ray_platform.Base.Split.{has_char, split_two}
use v2ray_platform.Base.Text.{trim_space}
use v2ray_platform.Base.Int64.{Int64}
use v2ray_platform.Base.Result.{ok, Result-cases}
use v2ray_platform.Maps.{lookup, lookup-insert_self}
use v2ray_platform.Domain.{Time, Admin, AdminSession}
use v2ray_platform.Store.State.{MemoryStore, Env, new_id}
use v2ray_platform.Store.Sessions
use v2ray_platform.Auth.{
  Claims, Codec, SessionStore, Manager, new_manager, previous_secrets, sign, signed, issued_with,
  issue, verify, verify_parts, verify_payload, verify_claims, verify_stored, verify_session,
  verify_signature, memory_sessions,
}

-- What is relied on: base64url decodes what it encoded and has no full stop, and the JSON of some
-- claims is read back as these claims.
pub record IsFaithful (k : Codec) : Type 0 where
  pub decode-encode : (text : String) → k.decode (k.encode text) ≡ some text
  pub encode_no_stop : (text : String) → has_char b'.' (k.encode text) ≡ false
  pub unmarshal-marshal :
      (claims : Claims) (text : String)
      → k.marshal claims ≡ ok text
      → k.unmarshal text ≡ some claims

any_of-contains :
    (f : String → String) (xs : List String) (x : String)
    → contains xs x ≡ true
    → any_of (λ y. f x == f y) xs ≡ true
unfolding contains any_of
any_of-contains f [] x h = cc
any_of-contains f (y ∷ ys) x h = elim (Bool-cases (y == x)) [
  | inl same ↦ let e : y ≡ x = (eq_iff y x).0 same in rw (e, eq_refl (f x)) refl
  | inr other ↦
      let rest : contains ys x ≡ true = rw other at h in
      let ih : any_of (λ z. f x == f z) ys ≡ true = any_of-contains f ys x rest in ground arith
]

module _ {S : Type 0} (k : Codec) (faithful : IsFaithful k) where
  -- The token of a payload that a known secret signs is checked as its claims.
  verify-token :
      (m' : Manager S) (secret payload : String) (claims : Claims) (at : ℕ → Time) (s : S)
      → contains m'.verify_secrets secret ≡ true
      → k.unmarshal payload ≡ some claims
      → verify k m' at (k.encode payload ++ ("." ++ sign k secret (k.encode payload))) s
        ≡ verify_claims m' at s (some claims)
  unfolding verify verify_parts verify_payload verify_signature sign
  verify-token m' secret payload claims at s known read =
      rw
        (
          split_two b'.' "." (k.encode payload) (k.encode (k.hmac_sha256 secret (k.encode payload)))
              refl (faithful.encode_no_stop payload) (faithful.encode_no_stop _),
          any_of-contains (λ x. k.encode (k.hmac_sha256 x (k.encode payload))) m'.verify_secrets
              secret known,
          faithful.decode-encode payload,
          read,
        )
        refl

  pub signed-verify :
      (m m' : Manager S) (claims given : Claims) (token : String) (at : ℕ → Time) (s : S)
      → contains m'.verify_secrets m.secret ≡ true
      → signed k m claims ≡ ok (token, given)
      → (given ≡ claims) × (verify k m' at token s ≡ verify_claims m' at s (some claims))
  unfolding signed
  signed-verify m m' claims given token at s known made = elim (Result-cases (k.marshal claims)) [
    | inr (e, failed) ↦ cc (rw (failed, signed) at made)
    | inl (payload, marshalled) ↦
        let made' : ok (k.encode payload ++ ("." ++ sign k m.secret (k.encode payload)), claims)
            ≡ ok (token, given) =
          rw (marshalled, signed) at made in
        let t : k.encode payload ++ ("." ++ sign k m.secret (k.encode payload)) ≡ token =
          cc made' in
        let c : given ≡ claims = cc made' in
        (
          c,
          rw (← t) (
              verify-token m' m.secret payload claims at s known
                (faithful.unmarshal-marshal claims payload marshalled)),
        )
  ]

-- A manager's own secret verifies what it signs, and so do the previous secrets that are not blank,
-- without the spaces around them.
pub new_manager-rotation :
    {S : Type 0} (secret old : String) (previous : List String) (ttl : Int64)
    (store : Option (SessionStore S))
    → (contains (new_manager secret previous ttl store).verify_secrets secret ≡ true)
      × (contains previous old ≡ true
          → trim_space old == "" ≡ false
          → contains (new_manager secret previous ttl store).verify_secrets (trim_space old) ≡ true)
unfolding new_manager previous_secrets contains
new_manager-rotation secret old previous ttl store =
    (rw (eq_refl secret) refl, λ given blank. ground (arith, in_previous previous given blank))
  where
    in_previous :
        (xs : List String)
        → contains xs old ≡ true
        → trim_space old == "" ≡ false
        → contains (previous_secrets xs) (trim_space old) ≡ true
    in_previous [] h n = cc
    in_previous (x ∷ xs) h n = elim (Bool-cases (x == old)) [
      | inl same ↦
          let e : x ≡ old = (eq_iff x old).0 same in rw (e, n, eq_refl (trim_space old)) refl
      | inr other ↦
          let ih : contains (previous_secrets xs) (trim_space old) ≡ true =
            in_previous xs (rw other at h) n in
          ground arith
    ]

-- The claims and the session that `Issue` makes over the in-memory store.
abbrev pub issued_claims : Env → Time → Admin → Claims
issued_claims e expires_at admin = record {
  session_id = new_id e "sess" 0;
  admin_id = admin.id;
  email = admin.email;
  expires_at = expires_at;
}

abbrev pub issued_session : Env → Time → Admin → AdminSession
issued_session e expires_at admin = record {
  id = new_id e "sess" 0;
  admin_id = admin.id;
  expires_at = expires_at;
  revoked_at = none;
  last_seen_at = none;
  created_at = e.clock 0;
  updated_at = e.clock 0;
}

cons_not_empty : (c : Char) (text rest : String) → String.◌∷◌ c text ++ rest == "" ≡ false
cons_not_empty c text rest = elim (Bool-cases (String.◌∷◌ c text ++ rest == "")) [
  | inr other ↦ other
  | inl same ↦
      absurd (cons≢nil (rw (cons-append) at ((eq_iff (String.◌∷◌ c text ++ rest) "").0 same)))
]

pub session_id_not_empty : (e : Env) → new_id e "sess" 0 == "" ≡ false
unfolding new_id
session_id_not_empty e = cons_not_empty _ "ess" _

verify_claims_live :
    (m : Manager MemoryStore) (claims : Claims) (session : AdminSession) (at : ℕ → Time)
    (t : MemoryStore)
    → m.store ≡ some memory_sessions
    → claims.session_id == "" ≡ false
    → lookup claims.session_id t.admin_sessions ≡ some session
    → session.admin_id ≡ claims.admin_id
    → session.revoked_at ≡ none
    → at 0 ≤ claims.expires_at
    → at 1 ≤ session.expires_at
    → verify_claims m at t (some claims)
      ≡ (ok claims, (Sessions.touch_admin_session claims.session_id (at 2) t).1)
unfolding verify_claims verify_stored verify_session memory_sessions Sessions.get_admin_session
verify_claims_live m claims session at t over named found owner live now later =
    rw (over, named, found, owner, eq_refl claims.admin_id, live) (ground arith)

-- A token that `Issue` made over the in-memory store is accepted as its claims by every manager over
-- that store that knows the secret, as long as neither reading of the clock is later than the claims'
-- expiry, and the session is then marked as seen.
pub verify-issue :
    (k : Codec) (secret secret' : String) (previous previous' : List String) (ttl ttl' : Int64)
    (e : Env) (now : Time) (admin : Admin) (s : MemoryStore) (token : String) (claims : Claims)
    (at : ℕ → Time)
    → IsFaithful k
    → contains (new_manager secret' previous' ttl' (some memory_sessions)).verify_secrets secret
      ≡ true
    → (issue k (new_manager secret previous ttl (some memory_sessions)) e now admin s).0
      ≡ ok (token, claims)
    → at 0 ≤ claims.expires_at
    → at 1 ≤ claims.expires_at
    → verify k
        (new_manager secret' previous' ttl' (some memory_sessions))
        at
        token
        (issue k (new_manager secret previous ttl (some memory_sessions)) e now admin s).1
      ≡ (
        ok claims,
        (Sessions.touch_admin_session claims.session_id
            (at 2)
            (issue k (new_manager secret previous ttl (some memory_sessions)) e now admin s).1).1,
      )
unfolding issue issued_with memory_sessions Sessions.create_admin_session new_manager
verify-issue k secret secret' previous previous' ttl ttl' e now admin s token claims at faithful
      known issued live live' =
    let m = new_manager secret previous ttl (some memory_sessions) in
    let m' = new_manager secret' previous' ttl' (some memory_sessions) in
    let mine = issued_claims e (now + m.ttl) admin in
    let t = (issue k m e now admin s).1 in
    let made = signed-verify k faithful m m' mine claims token at t known issued in
    let session = issued_session e (now + m.ttl) admin in
    rw (made.1) (
      verify_claims_live m' mine session at t refl (session_id_not_empty e)
        (lookup-insert_self (new_id e "sess" 0) session s.admin_sessions) refl refl
        (subst (λ (c : Claims). at 0 ≤ c.expires_at) made.0 live)
        (subst (λ (c : Claims). at 1 ≤ c.expires_at) made.0 live')
      ∙ ap (λ (c : Claims). (ok c, (Sessions.touch_admin_session c.session_id (at 2) t).1))
          (sym made.0))
