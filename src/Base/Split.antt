-- ===== src/Base/Split.antt =====
-- `strings.Split` at a separator of one character.
use Prim.Native.Nat.{ℕ}
use Prim.Native.Char.{Char, code}
use Prim.Native.String.{String, ◌++◌}
use mathlib.Core.Path.{◌≡◌, refl}
use mathlib.Core.Bool.{Bool, true, false, ◌||◌}
use mathlib.Core.List.{List, [], ◌∷◌}
use mathlib.Core.Logic.{inl, inr}
use text.Mathlib.TextLemmas.{nil-append, cons-append}
use v2ray_platform.Base.Lists.{All}
use v2ray_platform.Base.Text.{join}
use v2ray_platform.Base.Tests.{eqb, if◌then◌else◌, Bool-cases}

-- puts a character before the first part
unfoldable pub onto_first : Char → List String → List String
onto_first c [] = String.◌∷◌ c "" ∷ []
onto_first c (part ∷ parts) = String.◌∷◌ c part ∷ parts

unfoldable pub split : ℕ → String → List String
unfolding onto_first
split separator String.[] = "" ∷ []
split separator (String.◌∷◌ c text) =
    let rest = split separator text in
    if eqb (code c) separator then "" ∷ rest else onto_first c rest

unfoldable pub has_char : ℕ → String → Bool
has_char n String.[] = false
has_char n (String.◌∷◌ c text) = eqb (code c) n || has_char n text

-- A text without the separator is one part.
pub split_one : (n : ℕ) (text : String) → has_char n text ≡ false → split n text ≡ text ∷ []
unfolding split has_char onto_first
split_one n String.[] h = refl
split_one n (String.◌∷◌ c text) h = elim (Bool-cases (eqb (code c) n)) [
  | inl here ↦ cc (rw here at h)
  | inr other ↦ rw (other, split_one n text (rw other at h)) refl
]

-- The first part ends at the first separator.
pub split_first :
    (n : ℕ) (c : Char) (text rest : String)
    → eqb (code c) n ≡ true
    → has_char n text ≡ false
    → split n (text ++ (String.◌∷◌ c "" ++ rest)) ≡ text ∷ split n rest
unfolding split has_char onto_first
split_first n c String.[] rest sep h = rw (nil-append, cons-append, nil-append, sep) refl
split_first n c (String.◌∷◌ d text) rest sep h = elim (Bool-cases (eqb (code d) n)) [
  | inl here ↦ cc (rw here at h)
  | inr other ↦
      let ih = split_first n c text rest sep (rw other at h) in rw (cons-append, other, ih) refl
]

-- Two texts without the separator, joined by it, are two parts.
pub split_two :
    (n : ℕ) (c : Char) (text rest : String)
    → eqb (code c) n ≡ true
    → has_char n text ≡ false
    → has_char n rest ≡ false
    → split n (text ++ (String.◌∷◌ c "" ++ rest)) ≡ text ∷ rest ∷ []
split_two n c text rest sep h k = rw (split_first n c text rest sep h, split_one n rest k) refl

-- Parts without the separator, joined by it, are split into these parts.
pub split-join :
    (n : ℕ) (c : Char) (first : String) (parts : List String)
    → eqb (code c) n ≡ true
    → All (λ part. has_char n part ≡ false) (first ∷ parts)
    → split n (join (first ∷ parts) (String.◌∷◌ c "")) ≡ first ∷ parts
unfolding join
split-join n c first [] sep clean = split_one n first clean.0
split-join n c first (part ∷ parts) sep clean =
    rw
      (
        split_first n c first (join (part ∷ parts) (String.◌∷◌ c "")) sep clean.0,
        split-join n c part parts sep clean.1,
      )
      refl
