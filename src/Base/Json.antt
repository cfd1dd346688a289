-- ===== src/Base/Json.antt =====
-- JSON values, and the text that `json.MarshalIndent(v, "", "  ")` prints for them.
use Prim.Native.Char.{Char, code}
use Prim.Native.Nat.{ℕ, zero, suc, ◌/◌, ◌%◌}
use Prim.Native.String.{String, ◌++◌}
use mathlib.Core.Bool.{Bool, true, false}
use mathlib.Core.List.{List, [], ◌∷◌}
use mathlib.Core.Option.{Option, none, some}
use text.Mathlib.Text.{◌==◌}
use v2ray_platform.Base.Tests.{ltb, eqb, if◌then◌else◌}
use v2ray_platform.Base.Decimal.{format_int}

mutual
  pub data Json : Type 0 where
    string : String → Json
    number : ℕ → Json
    boolean : Bool → Json
    array : Items → Json
    object : Fields → Json

  pub data Items : Type 0 where
    nil : Items
    cons : Json → Items → Items

  pub data Fields : Type 0 where
    end : Fields
    field : String → Json → Fields → Fields

unfoldable pub items : List Json → Items
items [] = nil
items (x ∷ xs) = cons x (items xs)

unfoldable pub fields : List (String × Json) → Fields
fields [] = end
fields ((k, v) ∷ xs) = field k v (fields xs)

unfoldable pub field_of : String → Fields → Option Json
field_of k end = none
field_of k (field j v rest) = if j == k then some v else field_of k rest

-- the value under a key of an object
unfoldable pub get : String → Json → Option Json
unfolding field_of
get k (object fs) = field_of k fs
get k _ = none

unfoldable pub item_of : ℕ → Items → Option Json
item_of i nil = none
item_of zero (cons x xs) = some x
item_of (suc i) (cons x xs) = item_of i xs

-- the element of an array at a place
unfoldable pub at : ℕ → Json → Option Json
unfolding item_of
at i (array xs) = item_of i xs
at i _ = none

hex_digit : ℕ → String
hex_digit n =
    if ltb n 10
    then format_int n
    else if eqb n 10
    then "a"
    else if eqb n 11
    then "b"
    else if eqb n 12
    then "c"
    else if eqb n 13
    then "d"
    else if eqb n 14
    then "e"
    else "f"

-- One character inside a quoted text, with the escapes of encoding/json.
escape : Char → String
unfolding hex_digit
escape c =
    let n = code c in
    if eqb n 0x22
    then "\\\""
    else if eqb n 0x5c
    then "\\\\"
    else if eqb n 8
    then "\\b"
    else if eqb n 12
    then "\\f"
    else if eqb n 10
    then "\\n"
    else if eqb n 13
    then "\\r"
    else if eqb n 9
    then "\\t"
    else if ltb n 0x20
    then "\\u00" ++ (hex_digit (n / 16) ++ hex_digit (n % 16))
    else if eqb n 0x3c
    then "\\u003c"
    else if eqb n 0x3e
    then "\\u003e"
    else if eqb n 0x26
    then "\\u0026"
    else if eqb n 0x2028
    then "\\u2028"
    else if eqb n 0x2029
    then "\\u2029"
    else String.◌∷◌ c ""

escape_all : String → String
unfolding escape
escape_all String.[] = ""
escape_all (String.◌∷◌ c s) = escape c ++ escape_all s

quote : String → String
unfolding escape_all
quote s = "\"" ++ (escape_all s ++ "\"")

-- two spaces for each level
indent : ℕ → String
indent zero = ""
indent (suc n) = "  " ++ indent n

abbrev separator : Items → String
separator nil = ""
separator _ = ","

abbrev field_separator : Fields → String
field_separator end = ""
field_separator _ = ","

unfoldable mutual
  unfolding quote indent

  pub print : ℕ → Json → String
  print depth (string s) = quote s
  print depth (number n) = format_int n
  print depth (boolean true) = "true"
  print depth (boolean false) = "false"
  print depth (array nil) = "[]"
  print depth (array (cons x xs)) =
      "[\n" ++ (print_items (suc depth) (cons x xs) ++ (indent depth ++ "]"))
  print depth (object end) = "{}"
  print depth (object (field k v rest)) =
      "{\n" ++ (print_fields (suc depth) (field k v rest) ++ (indent depth ++ "}"))

  pub print_items : ℕ → Items → String
  print_items depth nil = ""
  print_items depth (cons x xs) =
      indent depth ++ (print depth x ++ (separator xs ++ ("\n" ++ print_items depth xs)))

  pub print_fields : ℕ → Fields → String
  print_fields depth end = ""
  print_fields depth (field k v rest) =
      indent depth
      ++ (quote k
          ++ (": "
              ++ (print depth v ++ (field_separator rest ++ ("\n" ++ print_fields depth rest)))))

-- `json.MarshalIndent(v, "", "  ")`
unfoldable pub marshal_indent : Json → String
unfolding print quote indent
marshal_indent v = print 0 v
