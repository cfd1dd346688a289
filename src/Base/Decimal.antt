-- ===== src/Base/Decimal.antt =====
-- Numbers in decimal, as `strconv.FormatInt` and the verb %d print them.
use Prim.Native.Nat.{ℕ, zero, suc, ◌-◌, ◌/◌, ◌%◌}
use Prim.Native.String.{String, ◌++◌}
use v2ray_platform.Base.Tests.{ltb, if◌then◌else◌}
use v2ray_platform.Base.Int64.{Int64, modulus, min_negative}

digit : ℕ → String
digit zero = "0"
digit (suc zero) = "1"
digit (suc (suc zero)) = "2"
digit (suc (suc (suc zero))) = "3"
digit (suc (suc (suc (suc zero)))) = "4"
digit (suc (suc (suc (suc (suc zero))))) = "5"
digit (suc (suc (suc (suc (suc (suc zero)))))) = "6"
digit (suc (suc (suc (suc (suc (suc (suc zero))))))) = "7"
digit (suc (suc (suc (suc (suc (suc (suc (suc zero)))))))) = "8"
digit _ = "9"

-- the fuel bounds the digits
digits : ℕ → ℕ → String
unfolding digit
digits zero n = ""
digits (suc fuel) n =
    let front = digits fuel (n / 10) in if ltb n 10 then digit n else front ++ digit (n % 10)

-- Twenty digits are enough for 2 ^ 64.
unfoldable pub format_int : Int64 → String
unfolding digits
format_int n = if ltb n min_negative then digits 20 n else "-" ++ digits 20 (modulus - n)
