-- ===== src/Aws/Paths.antt =====
-- internal/cloudfront/aws_client.go: where a path of a distribution leads, and what actions ask for it.
use v2ray_platform.Base.{
  String, ◌≡◌, refl, false, not, Option, none, some, List, [], ◌∷◌, arith, ◌==◌, eq_iff,
  if◌then◌else◌, Bool-cases, inl, inr, ◌∙◌,
}
use v2ray_platform.CloudFront.{RouteAction}
use v2ray_platform.Aws.{CacheBehavior, BehaviorSettings}
use v2ray_platform.Aws.Edit.{route_pattern, upsert_behavior, remove_behavior, behavior_for}

-- the origin that a path pattern leads to
abbrev pub origin_of : Option CacheBehavior → Option String
origin_of none = none
origin_of (some behavior) = some behavior.target_origin_id

abbrev pub origin_at : String → List CacheBehavior → Option String
origin_at pattern behaviors = origin_of (behavior_for pattern behaviors)

-- what an action asks of the pattern
unfoldable pub asked : RouteAction → String → Option String → Option String
asked a pattern before =
    if not (route_pattern a.route_key == pattern)
    then before
    else if a.action == "remove_route"
    then none
    else some a.origin_id

unfoldable pub asked_by : List RouteAction → String → Option String → Option String
unfolding asked
asked_by [] pattern before = before
asked_by (a ∷ rest) pattern before = asked_by rest pattern (asked a pattern before)

pub origin_at-upsert :
    (pattern origin_id p : String) (template : BehaviorSettings) (behaviors : List CacheBehavior)
    → origin_at p (upsert_behavior pattern origin_id template behaviors)
      ≡ (if pattern == p then some origin_id else origin_at p behaviors)
unfolding upsert_behavior behavior_for
origin_at-upsert pattern origin_id p template [] = elim (Bool-cases (pattern == p)) [
  | inl e ↦ rw (e) refl
  | inr e ↦ rw (e) refl
]
origin_at-upsert pattern origin_id p template (b ∷ rest) =
    let ih = origin_at-upsert pattern origin_id p template rest in
    elim (Bool-cases (b.path_pattern == pattern)) [
      | inl same ↦
          let e : b.path_pattern ≡ pattern = (eq_iff b.path_pattern pattern).0 same in
          elim (Bool-cases (pattern == p)) [
            | inl here ↦ rw (same, here, e, here) refl
            | inr other ↦ rw (same, other, e, other) refl
          ]
      | inr differs ↦ elim (Bool-cases (b.path_pattern == p)) [
        | inl here ↦
            let away : pattern == p ≡ false =
              ground
                (arith, eq_iff b.path_pattern p, eq_iff b.path_pattern pattern, eq_iff pattern p) in
            rw (differs, here, away) refl
        | inr other ↦ rw (differs, other) ih
      ]
    ]

pub origin_at-remove :
    (pattern p : String) (behaviors : List CacheBehavior)
    → origin_at p (remove_behavior pattern behaviors)
      ≡ (if pattern == p then none else origin_at p behaviors)
unfolding remove_behavior behavior_for
origin_at-remove pattern p [] = elim (Bool-cases (pattern == p)) [
  | inl e ↦ rw (e) refl
  | inr e ↦ rw (e) refl
]
origin_at-remove pattern p (b ∷ rest) =
    let ih = origin_at-remove pattern p rest in
    elim (Bool-cases (b.path_pattern == pattern)) [
      | inl same ↦
          let e : b.path_pattern ≡ pattern = (eq_iff b.path_pattern pattern).0 same in
          elim (Bool-cases (pattern == p)) [
            | inl here ↦ rw (same, here) (ih ∙ rw (here) refl)
            | inr other ↦ rw (same, other, e, other) (ih ∙ rw (other) refl)
          ]
      | inr differs ↦ elim (Bool-cases (b.path_pattern == p)) [
        | inl here ↦
            let away : pattern == p ≡ false =
              ground
                (arith, eq_iff b.path_pattern p, eq_iff b.path_pattern pattern, eq_iff pattern p) in
            rw (differs, here, away) refl
        | inr other ↦ rw (differs, other) ih
      ]
    ]
