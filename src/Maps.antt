-- ===== src/Maps.antt =====
-- Go's `map[string]V`: entries in the order in which a `range` visits them. The order means nothing
-- to the program, so every statement is about all orders; the keys of a map are distinct.
use v2ray_platform.Base.{
  String, ◌≡◌, refl, Bool, true, false, ◌||◌, Option, none, some, List, [], ◌∷◌, map, arith, ◌==◌,
  eq_iff, eq_refl, if◌then◌else◌, is_some, contains, Distinct, All, Bool-cases, inl, inr, subst,
  any_of,
}

abbrev pub Map {ℓ} : Type ℓ → Type ℓ
Map V = List (String × V)

abbrev pub keys {ℓ} : {V : Type ℓ} → Map V → List String
keys m = map (λ e. e.0) m

abbrev pub values {ℓ} : {V : Type ℓ} → Map V → List V
values m = map (λ e. e.1) m

module _ {ℓ} {V : Type ℓ} where
  -- `v, ok := m[k]`
  unfoldable pub lookup : String → Map V → Option V
  lookup key [] = none
  lookup key ((k, value) ∷ rest) = if k == key then some value else lookup key rest

  -- `m[k] = v`
  unfoldable pub insert : String → V → Map V → Map V
  insert k v [] = (k, v) ∷ []
  insert k v ((j, w) ∷ m) = if j == k then (j, v) ∷ m else (j, w) ∷ insert k v m

  -- the first entry that a `range` visits whose value passes a test
  unfoldable pub find_entry : (V → Bool) → Map V → Option (String × V)
  find_entry p [] = none
  find_entry p ((k, v) ∷ m) = if p v then some (k, v) else find_entry p m

  -- `delete(m, k)`
  unfoldable pub delete : String → Map V → Map V
  delete k [] = []
  delete k ((j, v) ∷ m) = let rest = delete k m in if j == k then rest else (j, v) ∷ rest

  -- deletes the entries of a `range` that pass a test
  unfoldable pub delete_where : (V → Bool) → Map V → Map V
  delete_where p [] = []
  delete_where p ((j, v) ∷ m) = let rest = delete_where p m in if p v then rest else (j, v) ∷ rest

  -- changes the entries of a `range` in place
  unfoldable pub update_all : (V → V) → Map V → Map V
  update_all f [] = []
  update_all f ((j, v) ∷ m) = (j, f v) ∷ update_all f m

  pub lookup-insert :
      (key other : String) (value : V) (entries : Map V)
      → lookup other (insert key value entries)
        ≡ (if key == other then some value else lookup other entries)
  unfolding lookup insert
  lookup-insert key other value [] = refl
  lookup-insert key other value ((i, old) ∷ rest) =
      ground
        (arith, eq_iff i key, eq_iff key other, eq_iff i other, lookup-insert key other value rest)

  pub lookup-delete :
      (k j : String) (m : Map V) → lookup j (delete k m) ≡ (if k == j then none else lookup j m)
  unfolding lookup delete
  lookup-delete k j [] = ground arith
  lookup-delete k j ((i, w) ∷ m) =
      ground (arith, eq_iff k j, eq_iff i k, eq_iff i j, lookup-delete k j m)

  pub lookup-insert_self : (k : String) (v : V) (m : Map V) → lookup k (insert k v m) ≡ some v
  lookup-insert_self k v m = simp (lookup-insert, eq_refl)

  -- A key is among the keys exactly when a lookup finds it.
  pub contains-keys : (k : String) (m : Map V) → contains (keys m) k ≡ is_some (lookup k m)
  unfolding lookup contains
  contains-keys k [] = refl
  contains-keys k ((j, v) ∷ m) = ground (arith, contains-keys k m)

  contains-keys-insert :
      (k j : String) (v : V) (m : Map V)
      → contains (keys (insert k v m)) j ≡ (k == j || contains (keys m) j)
  unfolding insert contains
  contains-keys-insert k j v [] = refl
  contains-keys-insert k j v ((i, w) ∷ m) =
      ground (arith, eq_iff k j, eq_iff i k, eq_iff i j, contains-keys-insert k j v m)

  contains-keys-delete :
      (k j : String) (m : Map V)
      → contains (keys m) j ≡ false
      → contains (keys (delete k m)) j ≡ false
  unfolding delete contains
  contains-keys-delete k j [] h = refl
  contains-keys-delete k j ((i, w) ∷ m) h = ground (arith, contains-keys-delete k j m)

  pub insert-Distinct :
      (k : String) (v : V) (m : Map V) → Distinct (keys m) → Distinct (keys (insert k v m))
  unfolding insert contains
  insert-Distinct k v [] d = (refl, tt)
  insert-Distinct k v ((i, w) ∷ m) d =
      ground
        (arith, eq_iff i k, eq_iff k i, insert-Distinct k v m d.1, contains-keys-insert k i v m)

  pub delete-Distinct : (k : String) (m : Map V) → Distinct (keys m) → Distinct (keys (delete k m))
  unfolding delete
  delete-Distinct k [] d = d
  delete-Distinct k ((i, w) ∷ m) d =
      ground (arith, delete-Distinct k m d.1, contains-keys-delete k i m d.0)

  -- A property of all values survives an insertion of a value that has it, and a deletion.
  pub insert-All {κ} :
      (P : V → Type κ) (k : String) (v : V) (m : Map V)
      → P v
      → All P (values m)
      → All P (values (insert k v m))
  unfolding insert
  insert-All P k v [] h a = (h, tt)
  insert-All P k v ((i, w) ∷ m) h a = elim (Bool-cases (i == k)) [
    | inl e ↦ rw e (h, a.1)
    | inr e ↦ rw e (a.0, insert-All P k v m h a.1)
  ]

  pub delete-All {κ} :
      (P : V → Type κ) (k : String) (m : Map V) → All P (values m) → All P (values (delete k m))
  unfolding delete
  delete-All P k [] a = a
  delete-All P k ((i, w) ∷ m) a = elim (Bool-cases (i == k)) [
    | inl e ↦ rw e (delete-All P k m a.1)
    | inr e ↦ rw e (a.0, delete-All P k m a.1)
  ]

  -- What a lookup finds has the property of all values.
  pub lookup-All {κ} :
      (P : V → Type κ) (k : String) (v : V) (m : Map V)
      → lookup k m ≡ some v
      → All P (values m)
      → P v
  unfolding lookup
  lookup-All P k v [] h a = cc
  lookup-All P k v ((i, w) ∷ m) h a = elim (Bool-cases (i == k)) [
    | inl e ↦ let e' : w ≡ v = ground arith in subst P e' a.0
    | inr e ↦ lookup-All P k v m (ground arith) a.1
  ]

  -- What is left after the entries that pass a test are deleted.
  pub delete_where-All {κ μ} :
      (P : V → Type κ) (Q : V → Type μ) (p : V → Bool) (m : Map V)
      → ((v : V) → p v ≡ false → P v → Q v)
      → All P (values m)
      → All Q (values (delete_where p m))
  unfolding delete_where
  delete_where-All P Q p [] f a = tt
  delete_where-All P Q p ((i, w) ∷ m) f a = elim (Bool-cases (p w)) [
    | inl e ↦ rw e (delete_where-All P Q p m f a.1)
    | inr e ↦ rw e (f w e a.0, delete_where-All P Q p m f a.1)
  ]

  pub lookup-delete_where :
      (p : V → Bool) (k : String) (v : V) (m : Map V)
      → lookup k m ≡ some v
      → p v ≡ false
      → lookup k (delete_where p m) ≡ some v
  unfolding lookup delete_where
  lookup-delete_where p k v [] h e = h
  lookup-delete_where p k v ((i, w) ∷ m) h e = elim (Bool-cases (i == k)) [
    | inl same ↦
        let here : w ≡ v = ground arith in
        let stays : p w ≡ false = rw here e in rw (stays, same) (ground arith)
    | inr other ↦ elim (Bool-cases (p w)) [
      | inl gone ↦ rw gone (lookup-delete_where p k v m (ground arith) e)
      | inr stays ↦ rw (stays, other) (lookup-delete_where p k v m (ground arith) e)
    ]
  ]

  pub update_all-All {κ μ} :
      (P : V → Type κ) (Q : V → Type μ) (f : V → V) (m : Map V)
      → ((v : V) → P v → Q (f v))
      → All P (values m)
      → All Q (values (update_all f m))
  unfolding update_all
  update_all-All P Q f [] g a = tt
  update_all-All P Q f ((i, w) ∷ m) g a = (g w a.0, update_all-All P Q f m g a.1)

  -- A value that a lookup finds is among the values.
  pub any_of-lookup :
      (p : V → Bool) (k : String) (v : V) (m : Map V)
      → lookup k m ≡ some v
      → p v ≡ true
      → any_of p (values m) ≡ true
  unfolding lookup any_of
  any_of-lookup p k v [] h e = cc
  any_of-lookup p k v ((i, w) ∷ m) h e = elim (Bool-cases (i == k)) [
    | inl same ↦ let here : w ≡ v = ground arith in rw (here, e)
    | inr other ↦ ground (arith, any_of-lookup p k v m (ground arith) e)
  ]
