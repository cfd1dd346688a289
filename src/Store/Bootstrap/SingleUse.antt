-- ===== src/Store/Bootstrap/SingleUse.antt =====
-- A bootstrap token registers at most one node.
use v2ray_platform.Base.{
  String, ◌≡◌, ◌≢◌, refl, Bool, true, false, Option, none, some, [], ◌∷◌, arith, ◌==◌, eq_refl,
  eq_iff, if◌then◌else◌, Bool-cases, inl, inr,
}
use v2ray_platform.Base.Result.{Result, ok, err, wrapped, unauthorized}
use v2ray_platform.Base.Text.{trim_space}
use v2ray_platform.Maps.{Map, insert, find_entry}
use v2ray_platform.Domain.{Time, BootstrapToken, ConfigRevision}
use v2ray_platform.Store.State.{MemoryStore, Env, RegisterNodeInput, RegisterNodeOutput}
use v2ray_platform.Store.Rebuild.{rebuild_node_config_locked, expired_before}
use v2ray_platform.Store.Bootstrap.{
  usable_token, find_bootstrap_token_locked, use_token, register_with, registered, register_unused,
  register_found, register_node,
}

-- Writing the entry that was found, with the test still passed, makes it the one that is found.
find_entry-insert {ℓ} :
    {V : Type ℓ} (p : V → Bool) (k : String) (v v' : V) (m : Map V)
    → find_entry p m ≡ some (k, v)
    → p v' ≡ true
    → find_entry p (insert k v' m) ≡ some (k, v')
unfolding find_entry insert
find_entry-insert p k v v' [] h e = cc
find_entry-insert p k v v' ((i, w) ∷ m) h e = elim (Bool-cases (p w)) [
  | inl hit ↦ let key : i ≡ k = ground arith in rw (key, eq_refl, e)
  | inr miss ↦ elim (Bool-cases (i == k)) [
    | inl same ↦ rw (same, e, (eq_iff i k).0 same)
    | inr other ↦ rw (other, miss) (find_entry-insert p k v v' m (ground arith) e)
  ]
]

abbrev has_hash : String → BootstrapToken → Bool
has_hash hash t = t.token_hash == hash

-- What a registration that succeeds has found and written.
record Used (e : Env) (hash : String) (s t : MemoryStore) : Type 0 where
  key : String
  token : BootstrapToken
  was_found : find_entry (has_hash hash) s.bootstrap_tokens ≡ some (key, token)
  written :
      t.bootstrap_tokens
      ≡ insert key (record token { used_at = some (e.clock 1) }) s.bootstrap_tokens

tokens-rebuild :
    (id : String) (now : Time) (s : MemoryStore)
    → (rebuild_node_config_locked id now s).1.bootstrap_tokens ≡ s.bootstrap_tokens
unfolding rebuild_node_config_locked
tokens-rebuild id now s = ground arith

module _ (e : Env) (input : RegisterNodeInput) where
  tokens-registered :
      (id token : String) (r : Result ConfigRevision × MemoryStore)
      → (registered e input id token r).1.bootstrap_tokens ≡ r.1.bootstrap_tokens
  unfolding registered
  tokens-registered id token (err x, s) = refl
  tokens-registered id token (ok r, s) = refl

  tokens-register_with :
      (s : MemoryStore) (a b : Result String)
      → (register_with e input s a b).1.bootstrap_tokens ≡ s.bootstrap_tokens
  unfolding register_with
  tokens-register_with s (err x) b = refl
  tokens-register_with s (ok a) (err x) = refl
  tokens-register_with s (ok a) (ok b) = rw (tokens-registered, tokens-rebuild)

  Used-unused :
      (s : MemoryStore) (k : String) (token : BootstrapToken) (o : Option Time)
      (out : RegisterNodeOutput)
      → find_entry (has_hash (e.sha256_hex (trim_space input.bootstrap_token))) s.bootstrap_tokens
        ≡ some (k, token)
      → (register_unused e input k token o s).0 ≡ ok out
      → Used e
          (e.sha256_hex (trim_space input.bootstrap_token))
          s
          (register_unused e input k token o s).1
  unfolding register_unused use_token
  Used-unused s k token (some t) out found h = cc
  Used-unused s k token none out found h = record {
    key = k;
    token = token;
    was_found = found;
    written =
        tokens-register_with (use_token e input k token s) (e.random_token 1) (e.random_token 2);
  }

  Used-found :
      (s : MemoryStore) (late : Bool) (k : String) (token : BootstrapToken)
      (out : RegisterNodeOutput)
      → find_entry (has_hash (e.sha256_hex (trim_space input.bootstrap_token))) s.bootstrap_tokens
        ≡ some (k, token)
      → (register_found e input s
          (if late then err (wrapped unauthorized "bootstrap token expired") else ok (k, token))).0
        ≡ ok out
      → Used e
          (e.sha256_hex (trim_space input.bootstrap_token))
          s
          (register_found e input s (
            if late then err (wrapped unauthorized "bootstrap token expired") else ok (k, token))).1
  unfolding register_found
  Used-found s true k token out found h = cc
  Used-found s false k token out found h = Used-unused s k token token.used_at out found h

  Used-usable :
      (s : MemoryStore) (o : Option (String × BootstrapToken)) (out : RegisterNodeOutput)
      → find_entry (has_hash (e.sha256_hex (trim_space input.bootstrap_token))) s.bootstrap_tokens
        ≡ o
      → (register_found e input s (usable_token (e.clock 0) o)).0 ≡ ok out
      → Used e
          (e.sha256_hex (trim_space input.bootstrap_token))
          s
          (register_found e input s (usable_token (e.clock 0) o)).1
  unfolding register_found usable_token
  Used-usable s none out found h = cc
  Used-usable s (some (k, token)) out found h =
      Used-found s (expired_before token.expires_at (e.clock 0)) k token out found h

  Used-register_node :
      (s : MemoryStore) (out : RegisterNodeOutput)
      → (register_node e input s).0 ≡ ok out
      → Used e (e.sha256_hex (trim_space input.bootstrap_token)) s (register_node e input s).1
  unfolding register_node find_bootstrap_token_locked
  Used-register_node s out h =
      Used-usable s
        (find_entry (has_hash (e.sha256_hex (trim_space input.bootstrap_token))) s.bootstrap_tokens)
        out refl h

refused-unused :
    (e : Env) (input : RegisterNodeInput) (t : MemoryStore) (k : String) (token : BootstrapToken)
    (o : Option Time) (now : Time) (out : RegisterNodeOutput)
    → o ≡ some now
    → (register_unused e input k token o t).0 ≢ ok out
unfolding register_unused
refused-unused e input t k token none now out used h = cc
refused-unused e input t k token (some x) now out used h = cc

refused-found :
    (e : Env) (input : RegisterNodeInput) (t : MemoryStore) (late : Bool) (k : String)
    (token : BootstrapToken) (now : Time) (out : RegisterNodeOutput)
    → token.used_at ≡ some now
    → (register_found e input t
        (if late then err (wrapped unauthorized "bootstrap token expired") else ok (k, token))).0
      ≢ ok out
unfolding register_found
refused-found e input t true k token now out used h = cc
refused-found e input t false k token now out used h =
    refused-unused e input t k token token.used_at now out used h

-- A registration is refused when the token with its hash is used.
refused-used :
    (e : Env) (input : RegisterNodeInput) (t : MemoryStore) (k : String) (token : BootstrapToken)
    (now : Time) (out : RegisterNodeOutput)
    → find_entry (has_hash (e.sha256_hex (trim_space input.bootstrap_token))) t.bootstrap_tokens
      ≡ some (k, token)
    → token.used_at ≡ some now
    → (register_node e input t).0 ≢ ok out
unfolding register_node find_bootstrap_token_locked usable_token
refused-used e input t k token now out found used =
    rw (found)
      (refused-found e input t (expired_before token.expires_at (e.clock 0)) k token now out used)

find_entry-test {ℓ} :
    {V : Type ℓ} (p : V → Bool) (k : String) (v : V) (m : Map V)
    → find_entry p m ≡ some (k, v)
    → p v ≡ true
unfolding find_entry
find_entry-test p k v [] h = cc
find_entry-test p k v ((i, w) ∷ m) h = ground (arith, find_entry-test p k v m)

-- When a registration has succeeded, a later one with a bootstrap token of the same hash never
-- succeeds, as long as the bootstrap tokens are the ones the first has left behind.
pub register_node-single_use :
    (e e' : Env) (input input' : RegisterNodeInput) (s t : MemoryStore)
    (out out' : RegisterNodeOutput)
    → (register_node e input s).0 ≡ ok out
    → t.bootstrap_tokens ≡ (register_node e input s).1.bootstrap_tokens
    → e'.sha256_hex (trim_space input'.bootstrap_token)
      ≡ e.sha256_hex (trim_space input.bootstrap_token)
    → (register_node e' input' t).0 ≢ ok out'
register_node-single_use e e' input input' s t out out' h kept same =
    let u = Used-register_node e input s out h in
    refused-used e' input' t u.key (record u.token { used_at = some (e.clock 1) }) (e.clock 1) out'
      (rw (same, kept, u.written)
        (find_entry-insert (has_hash (e.sha256_hex (trim_space input.bootstrap_token))) u.key
          u.token (record u.token { used_at = some (e.clock 1) }) s.bootstrap_tokens u.was_found
          (find_entry-test (has_hash (e.sha256_hex (trim_space input.bootstrap_token))) u.key
            u.token s.bootstrap_tokens u.was_found)))
      refl
