-- ===== src/Store/Paging/Pages.antt =====
-- What a page holds, and the pages at which the offset wraps around.
use v2ray_platform.Base.{
  ℕ, zero, suc, ◌+◌, ◌*◌, ◌%◌, ◌-◌, ◌≤◌, ◌<◌, ◌≡◌, refl, true, false, ◌||◌, List, [], ◌∷◌, ◌++◌,
  arith, ltb, leb, if◌then◌else◌, Bool-cases, inl, inr, length, take, drop, ap, sym, ◌∙◌,
}
use v2ray_platform.Base.Int64.{
  Int64, add64, sub64, bias, lt64, le64, add64_small, lt64_small, le64_small, modulus, min_negative,
}
use v2ray_platform.Store.Paging.{Sliced, slice, panic, page_params, slice_of, page_of}

take-all {ℓ} : {A : Type ℓ} (n : ℕ) (xs : List A) → length xs ≤ n → take n xs ≡ xs
take-all zero [] h = refl
take-all (suc n) [] h = refl
take-all zero (x ∷ xs) h = ground arith
take-all (suc n) (x ∷ xs) h = ap (λ r. x ∷ r) (take-all n xs (omega arith))

drop-all {ℓ} : {A : Type ℓ} (n : ℕ) (xs : List A) → length xs ≤ n → drop n xs ≡ []
drop-all zero [] h = refl
drop-all (suc n) [] h = refl
drop-all zero (x ∷ xs) h = ground arith
drop-all (suc n) (x ∷ xs) h = drop-all n xs (omega arith)

length-drop {ℓ} : {A : Type ℓ} (n : ℕ) (xs : List A) → length (drop n xs) ≡ length xs - n
length-drop zero xs = omega arith
length-drop (suc n) [] = omega arith
length-drop (suc n) (x ∷ xs) = rw (length-drop n xs) (omega arith)

take-nil {ℓ} : {A : Type ℓ} (n : ℕ) → take {A = A} n [] ≡ []
take-nil zero = refl
take-nil (suc n) = refl

take-add {ℓ} :
    {A : Type ℓ} (m n : ℕ) (xs : List A) → take m xs ++ take n (drop m xs) ≡ take (m + n) xs
take-add zero n xs = ap (λ i. take i xs) (omega arith)
take-add (suc m) n [] = rw (take-nil n) (sym (take-nil (suc m + n)))
take-add (suc m) n (x ∷ xs) =
    let same : suc (m + n) ≡ suc m + n = omega arith in
    ap (λ r. x ∷ r) (take-add m n xs) ∙ ap (λ i. take i (x ∷ xs)) same

-- the part of the list at an offset and of a length
abbrev window {ℓ} : {A : Type ℓ} → List A → Int64 → Int64 → Sliced A
window all o l =
    if le64 (length all) o
    then slice []
    else slice_of all o (if lt64 (length all) (add64 o l) then length all else add64 o l)

le64-negative : (n o : ℕ) → n < min_negative → min_negative ≤ o → o < modulus → le64 n o ≡ false
unfolding le64 bias
le64-negative n o h k m = ground arith

bad_end :
    (n o l : ℕ)
    → n < min_negative
    → min_negative ≤ o
    → o < modulus
    → l < min_negative
    → (ltb (if lt64 n (add64 o l) then n else add64 o l) o
        || ltb n (if lt64 n (add64 o l) then n else add64 o l))
      ≡ true
unfolding lt64 add64 bias
bad_end n o l h k m b = ground arith

module _ {ℓ} {A : Type ℓ} (all : List A) where
  slice_of-part :
      (o h : ℕ) → o ≤ h → h ≤ length all → slice_of all o h ≡ slice (take (h - o) (drop o all))
  unfolding slice_of
  slice_of-part o h le le' =
      let fine : (ltb h o || ltb (length all) h) ≡ false = ground arith in rw (fine)

  -- The part of the list from an offset on, when nothing wraps.
  window-slice :
      (o l : ℕ)
      → length all < min_negative
      → o + l < min_negative
      → window all o l ≡ slice (take l (drop o all))
  window-slice o l h b =
      rw
        (
          add64_small o l b,
          le64_small (length all) o h (omega arith),
          lt64_small (length all) (o + l) h b,
        )
        (elim (Bool-cases (leb (length all) o)) [
          | inl e ↦ rw (e, drop-all o all (ground arith), take-nil l)
          | inr e ↦ elim (Bool-cases (ltb (length all) (o + l))) [
            | inl f ↦
                rw (e, f, slice_of-part o (length all) (ground arith) (omega arith))
                  (ap slice (
                    take-all (length all - o) (drop o all) (rw (length-drop o all) (omega arith))
                    ∙ sym (take-all l (drop o all) (rw (length-drop o all) (ground arith)))))
            | inr f ↦
                rw (e, f, slice_of-part o (o + l) (omega arith) (ground arith))
                  (ap (λ i. slice (take i (drop o all))) (omega arith))
          ]
        ])

  -- The part of the list from an offset on that is negative as a signed number.
  window-panic :
      (o l : ℕ)
      → length all < min_negative
      → min_negative ≤ o
      → o < modulus
      → l < min_negative
      → window all o l ≡ panic
  unfolding slice_of
  window-panic o l h n m b =
      let inside : le64 (length all) o ≡ false = le64-negative (length all) o h n m in
      let bad : (ltb (if lt64 (length all) (add64 o l) then length all else add64 o l) o
            || ltb (length all) (if lt64 (length all) (add64 o l) then length all else add64 o l))
          ≡ true =
        bad_end (length all) o l h n m b in
      rw (inside, bad)

sub64-suc : (k : ℕ) → suc k < min_negative → sub64 (suc k) 1 ≡ k
unfolding sub64
sub64-suc k c = omega arith

page_of-window {ℓ} :
    {A : Type ℓ} (all : List A) (k limit : ℕ)
    → 1 ≤ limit
    → limit < min_negative
    → suc k < min_negative
    → page_of all (suc k) limit ≡ window all ((k * limit) % modulus) limit
unfolding page_of page_params
page_of-window all k limit l b c =
    let small : le64 limit 0 ≡ false = rw (le64_small limit 0 b (omega arith)) (ground arith) in
    let first : lt64 (suc k) 1 ≡ false = rw (lt64_small (suc k) 1 c (omega arith)) (ground arith) in
    rw (small, first, sub64-suc k c)

-- For every list of less than 2^63 elements and every limit from 1 on, page `suc k` is the elements
-- that come right after the first `k * limit`, at most `limit` of them, as long as the end of the page
-- is less than 2^63; put behind the first `k * limit` elements they make the first
-- `k * limit + limit`.
pub page_of-slice {ℓ} :
    {A : Type ℓ} (all : List A) (k limit : ℕ)
    → length all < min_negative
    → 1 ≤ limit
    → suc k < min_negative
    → k * limit + limit < min_negative
    → (page_of all (suc k) limit ≡ slice (take limit (drop (k * limit) all)))
      × (take (k * limit) all ++ take limit (drop (k * limit) all) ≡ take (k * limit + limit) all)
page_of-slice all k limit h l c b = (
  page_of-window all k limit l (omega arith) c
      ∙ ap (λ o. window all o limit) (omega arith)
      ∙ window-slice all (k * limit) limit h b,
  take-add (k * limit) limit all,
)

-- When the offset of a page, `k * limit` in 64 bits, is negative, the page is a run-time panic,
-- for every list of less than 2^63 elements.
pub page_of-panic {ℓ} :
    {A : Type ℓ} (all : List A) (k limit : ℕ)
    → length all < min_negative
    → 1 ≤ limit
    → limit < min_negative
    → suc k < min_negative
    → min_negative ≤ (k * limit) % modulus
    → page_of all (suc k) limit ≡ panic
page_of-panic all k limit h l b c n =
    page_of-window all k limit l b c
    ∙ window-panic all ((k * limit) % modulus) limit h n (omega arith) b
