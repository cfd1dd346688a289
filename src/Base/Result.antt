-- ===== src/Base/Result.antt =====
-- Errors as values: the sentinels of internal/store/memory.go, an error that wraps one of them
-- with a text (`fmt.Errorf` with %w), and an error that is only a text (`errors.New`).
use Prim.Native.String.{String, ◌++◌}
use mathlib.Core.Path.{◌≡◌, refl}
use mathlib.Core.Logic.{◌⊎◌, inl, inr}

pub data Error : Type 0 where
  unauthorized not_found conflict : Error
  wrapped : Error → String → Error
  message : String → Error

pub data Result {ℓ} (A : Type ℓ) : Type ℓ where
  ok : A → Result A
  err : Error → Result A

infixl 5 ◌>>=◌
abbrev pub ◌>>=◌ {ℓ κ} : {A : Type ℓ} {B : Type κ} → Result A → (A → Result B) → Result B
ok a >>= f = f a
err e >>= f = err e

-- `err.Error()`
unfoldable pub error_text : Error → String
error_text unauthorized = "unauthorized"
error_text not_found = "not found"
error_text conflict = "conflict"
error_text (wrapped e text) = error_text e ++ (": " ++ text)
error_text (message text) = text

pub Result-cases {ℓ} :
    {A : Type ℓ} (r : Result A) → ((a : A) × (r ≡ ok a)) ⊎ ((e : Error) × (r ≡ err e))
Result-cases (ok a) = inl (a, refl)
Result-cases (err e) = inr (e, refl)
