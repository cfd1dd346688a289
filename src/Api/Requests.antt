-- ===== src/Api/Requests.antt =====
-- internal/api/controlplane.go: what the handlers make of identifiers and of search texts. The
-- parameters of a query are given as a function from their names, with "" for one that is missing.
use text.Mathlib.Text.{starts_with}
use v2ray_platform.Base.{
  String, Bool, ◌&&◌, ◌||◌, List, [], ◌∷◌, ◌==◌, if◌then◌else◌, contains, any_of,
}
use v2ray_platform.Base.Text.{trim_space, to_lower, join}
use v2ray_platform.Domain.{Node, Member, GrantView}

-- `strings.Contains`
unfoldable pub has_text : String → String → Bool
has_text String.[] needle = needle == ""
has_text (String.◌∷◌ c text) needle = starts_with (String.◌∷◌ c text) needle || has_text text needle

-- the loop of `normalizeIDs`, with the identifiers seen
unfoldable pub normalize_ids_loop : List String → List String → List String
normalize_ids_loop seen [] = []
normalize_ids_loop seen (id ∷ rest) =
    let trimmed = trim_space id in
    let without = normalize_ids_loop seen rest in
    let with_it = trimmed ∷ normalize_ids_loop (trimmed ∷ seen) rest in
    if trimmed == "" then without else if contains seen trimmed then without else with_it

unfoldable pub normalize_ids : List String → List String
unfolding normalize_ids_loop
normalize_ids ids = normalize_ids_loop [] ids

unfoldable pub normalize_search : String → String
normalize_search value = to_lower (trim_space value)

unfoldable pub matches_any : String → List String → Bool
unfolding has_text normalize_search
matches_any query values = any_of (λ value. has_text (normalize_search value) query) values

unfoldable pub node_has_tag : Node → String → Bool
unfolding normalize_search
node_has_tag node query = any_of (λ tag. normalize_search tag == query) node.tags

-- the elements that pass a test
unfoldable pub kept {ℓ} : {A : Type ℓ} → (A → Bool) → List A → List A
kept p [] = []
kept p (x ∷ xs) = let rest = kept p xs in if p x then x ∷ rest else rest

-- a filter that is not set lets everything pass
unfoldable pub passes : String → Bool → Bool
passes filter test = (filter == "") || test

unfoldable pub filter_nodes : List Node → (String → String) → List Node
unfolding kept passes matches_any node_has_tag
filter_nodes items query =
    let q = normalize_search (query "q") in
    let status = normalize_search (query "status") in
    let region = normalize_search (query "region") in
    let tag = normalize_search (query "tag") in
    kept
      (λ item.
        passes status (normalize_search item.status == status)
        && (passes region (has_text (normalize_search item.region) region)
            && (passes tag (node_has_tag item tag)
                && passes q (
                    matches_any q (
                      item.id
                      ∷ item.name
                      ∷ item.region
                      ∷ item.public_host
                      ∷ item.provider
                      ∷ item.runtime_flavor
                      ∷ join item.tags " "
                      ∷ [])))))
      items

unfoldable pub filter_members : List Member → (String → String) → List Member
unfolding kept passes matches_any
filter_members items query =
    let q = normalize_search (query "q") in
    let status = normalize_search (query "status") in
    kept
      (λ item.
        passes status (normalize_search item.status == status)
        && passes q (matches_any q (item.id ∷ item.name ∷ item.email ∷ item.note ∷ [])))
      items

unfoldable pub filter_grants : List GrantView → (String → String) → List GrantView
unfolding kept passes matches_any
filter_grants items query =
    let q = normalize_search (query "q") in
    let node_id = normalize_search (query "node_id") in
    let member_id = normalize_search (query "member_id") in
    kept
      (λ item.
        passes node_id (normalize_search item.node_id == node_id)
        && (passes member_id (normalize_search item.member_id == member_id)
            && passes q (
                matches_any q (
                  item.id ∷ item.node_id ∷ item.node_name ∷ item.member_id ∷ item.member_name
                  ∷ item.member_email ∷ []))))
      items
