-- ===== src/Store/Bootstrap/Tags.antt =====
-- What `normalizeTags` of internal/store/helpers.go returns.
use v2ray_platform.Base.{
  String, ◌≡◌, refl, false, ◌||◌, List, [], ◌∷◌, ◌++◌, map, arith, ◌==◌, All, All-append, Distinct,
  Distinct-append_one, contains, Bool-cases, inl, inr, ap,
}
use v2ray_platform.Base.Text.{trim_space, to_lower}
use v2ray_platform.Base.Sort.{str_lt, sort_slice-All, Distinct-sort_slice}
use v2ray_platform.Store.Bootstrap.{normalize_tags, normalize_tags_loop}

abbrev pub IsTag : String → Type 0
IsTag t = (t == "") ≡ false

map_self : (xs : List String) → map (λ t. t) xs ≡ xs
map_self [] = refl
map_self (x ∷ xs) = ap (λ r. x ∷ r) (map_self xs)

normalize_tags_loop-Distinct :
    (tags out : List String)
    → Distinct out × All IsTag out
    → Distinct (normalize_tags_loop tags out) × All IsTag (normalize_tags_loop tags out)
unfolding normalize_tags_loop
normalize_tags_loop-Distinct [] out h = h
normalize_tags_loop-Distinct (t ∷ rest) out h =
    let tag : String = to_lower (trim_space t) in
    elim (Bool-cases ((tag == "") || contains out tag)) [
      | inl skip ↦ rw (skip) (normalize_tags_loop-Distinct rest out h)
      | inr new ↦ rw (new) (
          normalize_tags_loop-Distinct rest (out ++ tag ∷ []) (
            Distinct-append_one out tag h.0 (ground arith),
            All-append IsTag out (tag ∷ []) h.1 (ground arith, tt),
          ))
    ]

-- The tags of a node are distinct, and none of them is empty.
pub normalize_tags-Distinct :
    (tags : List String) → Distinct (normalize_tags tags) × All IsTag (normalize_tags tags)
unfolding normalize_tags
normalize_tags-Distinct tags =
    let out : List String = normalize_tags_loop tags [] in
    let fine = normalize_tags_loop-Distinct tags [] (tt, tt) in
    (
      rw (map_self) at (Distinct-sort_slice str_lt (λ t. t) out (rw (map_self) fine.0)),
      sort_slice-All str_lt IsTag out fine.1,
    )
