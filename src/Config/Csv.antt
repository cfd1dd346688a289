-- ===== src/Config/Csv.antt =====
-- internal/config/config.go: the lists that the environment holds with commas between the values.
use v2ray_platform.Base.{String, ◌≡◌, refl, false, List, [], ◌∷◌, ◌==◌, All}
use v2ray_platform.Base.Text.{trim_space, join}
use v2ray_platform.Base.Split.{has_char, split-join}
use v2ray_platform.Config.{csv_parts, split_csv}

-- A value that a list with commas can hold: no comma, no space around it, not empty.
pub record IsClean (value : String) : Type 0 where
  pub no_comma : has_char b',' value ≡ false
  pub is_trimmed : trim_space value ≡ value
  pub not_empty : value == "" ≡ false

csv_parts_clean : (values : List String) → All IsClean values → csv_parts values ≡ values
unfolding csv_parts
csv_parts_clean [] clean = refl
csv_parts_clean (value ∷ values) clean =
    rw (clean.0.is_trimmed, clean.0.not_empty, csv_parts_clean values clean.1) refl

no_commas : (values : List String) → All IsClean values → All (λ v. has_char b',' v ≡ false) values
no_commas [] clean = tt
no_commas (value ∷ values) clean = (clean.0.no_comma, no_commas values clean.1)

-- Values without commas and without spaces around them, none empty, are read back from the text that
-- joins them with commas, if that text is not blank.
pub split_csv-join :
    (first : String) (values : List String)
    → All IsClean (first ∷ values)
    → trim_space (join (first ∷ values) ",") == "" ≡ false
    → split_csv (join (first ∷ values) ",") ≡ first ∷ values
unfolding split_csv
split_csv-join first values clean shown =
    rw
      (
        shown,
        split-join b',' "," first values refl (no_commas (first ∷ values) clean),
        csv_parts_clean (first ∷ values) clean,
      )
      refl
