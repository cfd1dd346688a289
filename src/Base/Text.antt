-- ===== src/Base/Text.antt =====
-- What the code uses of Go's package `strings`, over the code points of a text.
-- `to_lower` maps the letters A to Z and leaves every other character as it is.
use Prim.Native.Nat.{ℕ}
use Prim.Native.Char.{Char, code}
use mathlib.Core.Option.{Option, none, some}
use Prim.Native.String.{String, ◌++◌}
use mathlib.Core.Bool.{Bool, ◌&&◌, ◌||◌}
use mathlib.Core.List.{List, [], ◌∷◌}
use text.Mathlib.Text.{◌==◌, starts_with}
use v2ray_platform.Base.Tests.{leb, eqb, if◌then◌else◌}

-- `unicode.IsSpace`
unfoldable pub is_space : Char → Bool
is_space c =
    let n = code c in
    (leb 9 n && leb n 13)
    || eqb n 32
    || eqb n 0x85
    || eqb n 0xA0
    || eqb n 0x1680
    || (leb 0x2000 n && leb n 0x200A)
    || eqb n 0x2028
    || eqb n 0x2029
    || eqb n 0x202F
    || eqb n 0x205F
    || eqb n 0x3000

unfoldable pub trim_left : String → String
unfolding is_space
trim_left String.[] = ""
trim_left (String.◌∷◌ c s) = let rest = trim_left s in if is_space c then rest else String.◌∷◌ c s

-- A text whose characters are all spaces is dropped from the right end.
unfoldable pub trim_right : String → String
unfolding is_space
trim_right String.[] = ""
trim_right (String.◌∷◌ c s) =
    let rest = trim_right s in if is_space c && (rest == "") then "" else String.◌∷◌ c rest

-- `strings.TrimSpace`
unfoldable pub trim_space : String → String
unfolding trim_left trim_right
trim_space s = trim_right (trim_left s)

-- the character of the second text at the place where the first one has `c`
lower_by : String → String → Char → Char
lower_by String.[] ls c = c
lower_by (String.◌∷◌ u us) String.[] c = c
lower_by (String.◌∷◌ u us) (String.◌∷◌ l ls) c =
    if eqb (code u) (code c) then l else lower_by us ls c

lower_char : Char → Char
unfolding lower_by
lower_char c = lower_by "ABCDEFGHIJKLMNOPQRSTUVWXYZ" "abcdefghijklmnopqrstuvwxyz" c

-- `strings.ToLower`
unfoldable pub to_lower : String → String
unfolding lower_char
to_lower String.[] = ""
to_lower (String.◌∷◌ c s) = String.◌∷◌ (lower_char c) (to_lower s)

unfoldable pub drop_prefix : String → String → String
drop_prefix String.[] s = s
drop_prefix (String.◌∷◌ p ps) String.[] = ""
drop_prefix (String.◌∷◌ p ps) (String.◌∷◌ c s) = drop_prefix ps s

-- `strings.TrimPrefix(s, prefix)`
unfoldable pub trim_prefix : String → String → String
unfolding drop_prefix
trim_prefix s prefix = if starts_with s prefix then drop_prefix prefix s else s

-- `strings.Join(parts, sep)`
unfoldable pub join : List String → String → String
join [] sep = ""
join (x ∷ []) sep = x
join (x ∷ y ∷ xs) sep = x ++ (sep ++ join (y ∷ xs) sep)

-- `strings.TrimSuffix(s, suffix)`
unfoldable pub trim_suffix : String → String → String
trim_suffix String.[] suffix = ""
trim_suffix (String.◌∷◌ c s) suffix =
    let rest = trim_suffix s suffix in if String.◌∷◌ c s == suffix then "" else String.◌∷◌ c rest

-- `strings.TrimLeft` and `strings.TrimRight` with a set of one character
unfoldable pub trim_left_char : ℕ → String → String
trim_left_char n String.[] = ""
trim_left_char n (String.◌∷◌ c s) =
    let rest = trim_left_char n s in if eqb (code c) n then rest else String.◌∷◌ c s

unfoldable pub trim_right_char : ℕ → String → String
trim_right_char n String.[] = ""
trim_right_char n (String.◌∷◌ c s) =
    let rest = trim_right_char n s in
    if eqb (code c) n && (rest == "") then "" else String.◌∷◌ c rest

-- `strings.EqualFold`, for texts of ASCII letters
unfoldable pub equal_fold : String → String → Bool
unfolding to_lower
equal_fold a b = to_lower a == to_lower b

-- the fields before, with the one that is read now, if there is one
fields_from : Option String → String → List String
unfolding is_space
fields_from none String.[] = []
fields_from (some field) String.[] = field ∷ []
fields_from none (String.◌∷◌ c s) =
    fields_from (if is_space c then none else some (String.◌∷◌ c "")) s
fields_from (some field) (String.◌∷◌ c s) =
    let rest = fields_from none s in
    let longer = fields_from (some (field ++ String.◌∷◌ c "")) s in
    if is_space c then field ∷ rest else longer

-- `strings.Fields`
unfoldable pub fields : String → List String
unfolding fields_from
fields s = fields_from none s
