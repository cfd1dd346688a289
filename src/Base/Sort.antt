-- ===== src/Base/Sort.antt =====
-- `sort.Slice(xs, less)` and `sort.Strings`: insertion before the first element that is not less.
use Prim.Native.String.{String, compare}
use Prim.Native.Nat.{Ordering}
use mathlib.Core.Path.{◌≡◌, refl, ap, ◌∙◌}
use text.Mathlib.Text.{◌==◌}
use text.Mathlib.TextEquality.{eq_iff}
use mathlib.Core.Bool.{Bool, true, false, ◌||◌}
use mathlib.Core.List.{List, [], ◌∷◌, map, Perm}
use mathlib.Core.List.Perm
use native.Mathlib.Omega.{arith}
use v2ray_platform.Base.Tests.{if◌then◌else◌, Bool-cases}
use v2ray_platform.Base.Lists.{All, contains, Distinct}
use mathlib.Core.Logic.{inl, inr}

abbrev pub str_lt : String → String → Bool
str_lt a b = elim (compare a b) [ Ordering.lt ↦ true | _ ↦ false ]

module _ {ℓ} {A : Type ℓ} (less : A → A → Bool) where
  unfoldable pub insert_sorted : A → List A → List A
  insert_sorted x [] = x ∷ []
  insert_sorted x (y ∷ ys) =
      let rest = insert_sorted x ys in if less y x then y ∷ rest else x ∷ y ∷ ys

  unfoldable pub sort_slice : List A → List A
  sort_slice [] = []
  sort_slice (x ∷ xs) = insert_sorted x (sort_slice xs)

  insert_sorted-perm : (x : A) (ys : List A) → Perm (insert_sorted x ys) (x ∷ ys)
  unfolding insert_sorted
  insert_sorted-perm x [] = Perm.refl (x ∷ [])
  insert_sorted-perm x (y ∷ ys) = elim (Bool-cases (less y x)) [
    | inl e ↦ rw e (Perm.trans (Perm.cons y (insert_sorted-perm x ys)) (Perm.swap x y ys))
    | inr e ↦ rw e (Perm.refl (x ∷ y ∷ ys))
  ]

  pub sort_slice-perm : (xs : List A) → Perm (sort_slice xs) xs
  unfolding sort_slice
  sort_slice-perm [] = Perm.refl []
  sort_slice-perm (x ∷ xs) =
      Perm.trans (insert_sorted-perm x (sort_slice xs)) (Perm.cons x (sort_slice-perm xs))

  insert_sorted-All {κ} :
      (P : A → Type κ) (x : A) (ys : List A) → P x → All P ys → All P (insert_sorted x ys)
  unfolding insert_sorted
  insert_sorted-All P x [] h k = (h, tt)
  insert_sorted-All P x (y ∷ ys) h k = elim (Bool-cases (less y x)) [
    | inl e ↦ rw e (k.0, insert_sorted-All P x ys h k.1)
    | inr e ↦ rw e (h, k)
  ]

  pub sort_slice-All {κ} : (P : A → Type κ) (xs : List A) → All P xs → All P (sort_slice xs)
  unfolding sort_slice
  sort_slice-All P [] h = tt
  sort_slice-All P (x ∷ xs) h = insert_sorted-All P x (sort_slice xs) h.0 (sort_slice-All P xs h.1)

  contains-insert_sorted :
      (f : A → String) (x : A) (ys : List A) (a : String)
      → contains (map f (insert_sorted x ys)) a ≡ (f x == a || contains (map f ys) a)
  unfolding insert_sorted contains
  contains-insert_sorted f x [] a = refl
  contains-insert_sorted f x (y ∷ ys) a = elim (Bool-cases (less y x)) [
    | inl e ↦ rw e (ground (arith, contains-insert_sorted f x ys a))
    | inr e ↦ rw e
  ]

  -- Sorting keeps what a field of the elements takes.
  pub contains-sort_slice :
      (f : A → String) (xs : List A) (a : String)
      → contains (map f (sort_slice xs)) a ≡ contains (map f xs) a
  unfolding sort_slice contains
  contains-sort_slice f [] a = refl
  contains-sort_slice f (x ∷ xs) a =
      contains-insert_sorted f x (sort_slice xs) a
      ∙ ap (λ (b : Bool). f x == a || b) (contains-sort_slice f xs a)

  Distinct-insert_sorted :
      (f : A → String) (x : A) (ys : List A)
      → Distinct (map f ys)
      → contains (map f ys) (f x) ≡ false
      → Distinct (map f (insert_sorted x ys))
  unfolding insert_sorted contains
  Distinct-insert_sorted f x [] d h = (refl, tt)
  Distinct-insert_sorted f x (y ∷ ys) d h = elim (Bool-cases (less y x)) [
    | inl e ↦ rw e (
      contains-insert_sorted f x ys (f y)
          ∙ ground (arith, eq_iff (f x) (f y), eq_iff (f y) (f x), d.0),
      Distinct-insert_sorted f x ys d.1 (ground arith),
    )
    | inr e ↦ rw e (h, d)
  ]

  -- Sorting keeps the values of a field distinct.
  pub Distinct-sort_slice :
      (f : A → String) (xs : List A) → Distinct (map f xs) → Distinct (map f (sort_slice xs))
  unfolding sort_slice
  Distinct-sort_slice f [] d = d
  Distinct-sort_slice f (x ∷ xs) d =
      Distinct-insert_sorted f x (sort_slice xs) (Distinct-sort_slice f xs d.1)
        (contains-sort_slice f xs (f x) ∙ d.0)
