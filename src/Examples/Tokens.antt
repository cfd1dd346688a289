-- ===== src/Examples/Tokens.antt =====
-- The theorems on session tokens, applied to an issued token and to a codec in which a full stop and
-- any other character are written as two characters.
use Prim.Native.Char.{Char, char, code, IsScalar}
use Prim.Native.String.{◌++◌}
use text.Mathlib.TextLemmas.{nil-append, cons-append}
use v2ray_platform.Base.{
  String, ◌≡◌, ◌≢◌, refl, true, false, Option, none, some, List, [], ◌∷◌, eqb, ◌==◌, eq_iff,
  if◌then◌else◌, arith, Bool-cases, inl, inr, contains, ap, sym, ◌∙◌, subst, All,
}
use v2ray_platform.Base.Split.{split, has_char, split-join}
use v2ray_platform.Base.Text.{join, trim_space, to_lower}
use v2ray_platform.Base.Int64.{le64}
use v2ray_platform.Base.Decimal.{format_int}
use v2ray_platform.Base.Result.{Result, message, ok, err}
use v2ray_platform.Domain.{Time, Admin}
use v2ray_platform.Store.Sessions
use v2ray_platform.Store.State.{MemoryStore, Env, new_id}
use v2ray_platform.Store.Calls.{Call, run}
use v2ray_platform.Auth.{
  Claims, Codec, Manager, memory_sessions, new_manager, previous_secrets, issue, verify,
  err_invalid_session,
}
use v2ray_platform.Auth.Tokens.{IsFaithful, verify-issue}
use v2ray_platform.Auth.Revocation.{IsAccepted, verify-revoke_admin_sessions, verify-IsAccepted}
use v2ray_platform.Api.Admin.{Credentials}
use v2ray_platform.Examples.{env, store}

unfoldable flagged : Char → String
flagged c = if eqb (code c) b'.' then "dx" else "k" ++ String.◌∷◌ c ""

unfoldable encode : String → String
unfolding flagged
encode String.[] = ""
encode (String.◌∷◌ c text) = flagged c ++ encode text

unfoldable before : String → Option String → Option String
before text none = none
before text (some rest) = some (text ++ rest)

unfoldable decode : String → Option String
unfolding before
decode String.[] = some ""
decode (String.◌∷◌ flag String.[]) = none
decode (String.◌∷◌ flag (String.◌∷◌ c text)) =
    before (if eqb (code flag) b'd' then "." else String.◌∷◌ c "") (decode text)

stop_char : (c : Char) → eqb (code c) b'.' ≡ true → String.◌∷◌ c "" ≡ "."
stop_char (char n p) h =
    let e : n ≡ b'.' = ground arith in
    subst (λ x. (q : IsScalar x) → String.◌∷◌ (char x q) "" ≡ ".") (sym e) (λ q. refl) p

decode-encode : (text : String) → decode (encode text) ≡ some text
unfolding encode decode before flagged
decode-encode String.[] = refl
decode-encode (String.◌∷◌ c text) = elim (Bool-cases (eqb (code c) b'.')) [
  | inl stop ↦
      rw (stop, cons-append, cons-append, nil-append, decode-encode text)
        (ap (λ x. some (x ++ text)) (sym (stop_char c stop)) ∙ rw (cons-append, nil-append) refl)
  | inr other ↦
      rw (other, cons-append, nil-append, cons-append, cons-append, nil-append, decode-encode text)
        (rw (cons-append, nil-append) refl)
]

encode_no_stop : (text : String) → has_char b'.' (encode text) ≡ false
unfolding encode flagged has_char
encode_no_stop String.[] = refl
encode_no_stop (String.◌∷◌ c text) = elim (Bool-cases (eqb (code c) b'.')) [
  | inl stop ↦ rw (stop, cons-append, cons-append, nil-append, encode_no_stop text) refl
  | inr other ↦
      rw
        (
          other,
          cons-append,
          nil-append,
          cons-append,
          cons-append,
          nil-append,
          other,
          encode_no_stop text,
        )
        refl
]

-- the claims of tokens that expire at 9000, as three texts
unfoldable marshal : Claims → Result String
unfolding encode
marshal claims =
    if eqb claims.expires_at 9000
    then ok
        (join (encode claims.session_id ∷ encode claims.admin_id ∷ encode claims.email ∷ []) ".")
    else err (message "not supported")

unfoldable claims_from : Option String → Option String → Option String → Option Claims
claims_from (some session_id) (some admin_id) (some email) =
    some (record { session_id = session_id; admin_id = admin_id; email = email; expires_at = 9000 })
claims_from _ _ _ = none

unfoldable claims_of : List String → Option Claims
unfolding claims_from decode
claims_of (a ∷ b ∷ c ∷ []) = claims_from (decode a) (decode b) (decode c)
claims_of _ = none

unfoldable unmarshal : String → Option Claims
unfolding claims_of
unmarshal text = claims_of (split b'.' text)

abbrev codec : Codec
codec = record {
  hmac_sha256 = λ secret payload. secret ++ payload;
  encode = encode;
  decode = decode;
  marshal = marshal;
  unmarshal = unmarshal;
}

unmarshal-marshal :
    (claims : Claims) (text : String) → marshal claims ≡ ok text → unmarshal text ≡ some claims
unfolding marshal unmarshal claims_of claims_from
unmarshal-marshal claims text written = elim (Bool-cases (eqb claims.expires_at 9000)) [
  | inr other ↦ cc (rw other at written)
  | inl same ↦
      let parts = encode claims.session_id ∷ encode claims.admin_id ∷ encode claims.email ∷ [] in
      let e : join parts "." ≡ text = cc (rw same at written) in
      let clean : All (λ part. has_char b'.' part ≡ false) parts = (
        encode_no_stop claims.session_id,
        (encode_no_stop claims.admin_id, (encode_no_stop claims.email, tt)),
      ) in
      let at : claims.expires_at ≡ 9000 = ground arith in
      rw
        (
          ← e,
          split-join b'.' "." (encode claims.session_id)
              (encode claims.admin_id ∷ encode claims.email ∷ []) refl clean,
          decode-encode claims.session_id,
          decode-encode claims.admin_id,
          decode-encode claims.email,
        )
        (ap (λ (t : Time). some (record claims { expires_at = t })) (sym at))
]

codec-IsFaithful : IsFaithful codec
codec-IsFaithful = record {
  decode-encode = decode-encode;
  encode_no_stop = encode_no_stop;
  unmarshal-marshal = unmarshal-marshal;
}

abbrev root : Admin
root = record {
  id = "root";
  email = "root@example.org";
  password_hash = "";
  created_at = 1;
  updated_at = 1;
}

-- the manager that issues the token, and one that has another secret and knows the first as a
-- previous one
abbrev issuer : Manager MemoryStore
issuer = new_manager "old" [] 8000 (some memory_sessions)

abbrev manager : Manager MemoryStore
manager = new_manager "new" (" old " ∷ []) 8000 (some memory_sessions)

abbrev issued : Result (String × Claims) × MemoryStore
issued = issue codec issuer (env "a") 1000 root store

abbrev claims : Claims
claims = record {
  session_id = "sess_a0";
  admin_id = "root";
  email = "root@example.org";
  expires_at = 9000;
}

abbrev payload : String
payload = encode (join (encode "sess_a0" ∷ encode "root" ∷ encode "root@example.org" ∷ []) ".")

abbrev token : String
token = payload ++ ("." ++ encode ("old" ++ payload))

issued_token : issued.0 ≡ ok (token, claims)
unfolding issue encode new_manager memory_sessions Sessions.create_admin_session marshal le64
    to_lower format_int
issued_token = refl

known_secret : contains manager.verify_secrets "old" ≡ true
unfolding new_manager previous_secrets contains trim_space
known_secret = refl

verify-issue_example :
    verify codec manager (λ i. 5000) token issued.1
    ≡ (ok claims, (Sessions.touch_admin_session "sess_a0" 5000 issued.1).1)
verify-issue_example =
    verify-issue codec "old" "new" [] (" old " ∷ []) 8000 8000 (env "a") 1000 root store token
      claims (λ i. 5000) codec-IsFaithful known_secret issued_token (omega arith) (omega arith)

-- The session is used, and another one created, before the revocation; both are used after it.
abbrev used_once : List (Env × Call)
used_once =
    (env "t", Call.touch_admin_session "sess_a0" 2000)
    ∷ (env "c", Call.create_admin_session "root" 9500)
    ∷ []

abbrev used_again : List (Env × Call)
used_again =
    (env "u", Call.touch_admin_session "sess_a0" 4000)
    ∷ (env "v", Call.touch_admin_session "sess_c0" 4500)
    ∷ []

unequal_ids : new_id (env "c") "sess" 0 == new_id (env "a") "sess" 0 ≡ false
unfolding new_id to_lower format_int
unequal_ids = refl

other_session : new_id (env "c") "sess" 0 ≢ new_id (env "a") "sess" 0
other_session same =
    let equal = (eq_iff (new_id (env "c") "sess" 0) (new_id (env "a") "sess" 0)).1 same in
    let both : true ≡ false = sym equal ∙ unequal_ids in cc both

verify-revoke_admin_sessions_example :
    (verify codec manager
      (λ i. 5000)
      token
      (run used_again
        (Sessions.revoke_admin_sessions (env "b") "root" (run used_once issued.1)).1)).0
    ≡ err err_invalid_session
verify-revoke_admin_sessions_example =
    verify-revoke_admin_sessions codec "old" "new" [] (" old " ∷ []) 8000 8000 (env "a") (env "b")
      1000 root store token claims (λ i. 5000) used_once used_again codec-IsFaithful
      (other_session, tt) tt issued_token

accepted_token : (verify codec manager (λ i. 5000) token issued.1).0 ≡ ok claims
accepted_token = ap (λ r. r.0) verify-issue_example

verify-IsAccepted_example : IsAccepted codec manager (λ i. 5000) token issued.1 claims
unfolding new_manager
verify-IsAccepted_example =
    verify-IsAccepted codec manager (λ i. 5000) token issued.1 claims refl accepted_token

abbrev request : Credentials
request = record { authorization = "Bearer " ++ token; x_admin_token = "guess" }
