-- ===== src/Aws/Actions.antt =====
-- internal/cloudfront/aws_client.go: what one action does to the routes of a distribution.
use v2ray_platform.Base.{
  String, ◌≡◌, refl, true, false, not, ◌&&◌, ◌||◌, Option, none, some, ◌==◌, eq_iff, Bool-cases,
  inl, inr, sym, ◌∙◌,
}
use v2ray_platform.Base.Text.{trim_space}
use v2ray_platform.Base.Result.{ok}
use v2ray_platform.CloudFront.{RouteAction}
use v2ray_platform.CloudFront.Plan.{is_managed_origin_id}
use v2ray_platform.Aws.{CacheBehavior, BehaviorSettings}
use v2ray_platform.Aws.Edit.{
  route_pattern, upsert_behavior, upsert_origin, behavior_references_origin, remove_behavior,
  behavior_for,
}
use v2ray_platform.Aws.Apply.{
  Routing, is_taken, is_unmanaged, apply_route, remove_route, apply_action,
}
use v2ray_platform.Aws.Paths.{origin_of, origin_at, asked, origin_at-upsert, origin_at-remove}

-- an action that was carried out, and what it asks of a pattern
pub record Done (a : RouteAction) (r r' : Routing) : Type 0 where
  pub asked_for : (p : String) → origin_at p r'.behaviors ≡ asked a p (origin_at p r.behaviors)
  pub respects :
      (p o : String)
      → origin_at p r.behaviors ≡ some o
      → is_managed_origin_id o ≡ false
      → route_pattern a.route_key == p ≡ false

taken_by :
    (origin_id o : String) (b : Option CacheBehavior)
    → origin_of b ≡ some o
    → is_managed_origin_id o ≡ false
    → is_managed_origin_id origin_id ≡ true
    → is_taken origin_id b ≡ true
unfolding is_taken
taken_by origin_id o none h k m = cc
taken_by origin_id o (some b) h k m =
    let e : b.target_origin_id ≡ o = cc h in
    elim (Bool-cases (b.target_origin_id == origin_id)) [
      | inl same ↦
          let f : o ≡ origin_id = sym e ∙ (eq_iff b.target_origin_id origin_id).0 same in
          cc (rw (f, m) at k)
      | inr other ↦ rw (other, e, k) refl
    ]

unmanaged_by :
    (o : String) (b : Option CacheBehavior)
    → origin_of b ≡ some o
    → is_managed_origin_id o ≡ false
    → is_unmanaged b ≡ true
unfolding is_unmanaged
unmanaged_by o none h k = cc
unmanaged_by o (some b) h k = let e : b.target_origin_id ≡ o = cc h in rw (e, k) refl

apply_route-Done :
    (template : BehaviorSettings) (a : RouteAction) (r r' : Routing)
    → a.action == "remove_route" ≡ false
    → apply_route template a r ≡ ok r'
    → Done a r r'
unfolding apply_route asked
apply_route-Done template a r r' kind applied =
    let pattern = route_pattern a.route_key in
    elim (Bool-cases (is_managed_origin_id a.origin_id)) [
      | inr foreign ↦ cc (rw (foreign) at applied)
      | inl managed ↦ elim (Bool-cases (is_taken a.origin_id (behavior_for pattern r.behaviors))) [
        | inl taken ↦ cc (rw (managed, taken) at applied)
        | inr free ↦
            let after : Routing = record {
              behaviors = upsert_behavior pattern a.origin_id template r.behaviors;
              origins = upsert_origin a.origin_id a.host r.origins;
            } in
            let e : after ≡ r' = cc (rw (managed, free) at applied) in
            rw (← e) (record {
              asked_for = λ p.
                  origin_at-upsert pattern a.origin_id p template r.behaviors
                  ∙ elim (Bool-cases (pattern == p)) [
                    | inl here ↦ rw (here, kind) refl
                    | inr other ↦ rw (other) refl
                  ];
              respects = λ p o at foreign. elim (Bool-cases (pattern == p)) [
                | inr other ↦ other
                | inl here ↦
                    let same : pattern ≡ p = (eq_iff pattern p).0 here in
                    let taken =
                      taken_by a.origin_id o (behavior_for pattern r.behaviors) (rw (same) at)
                        foreign managed in
                    cc (rw taken at free)
              ];
            })
      ]
    ]

remove_route-Done :
    (a : RouteAction) (r r' : Routing)
    → a.action == "remove_route" ≡ true
    → remove_route a r ≡ ok r'
    → Done a r r'
unfolding remove_route asked
remove_route-Done a r r' kind applied =
    let pattern = route_pattern a.route_key in
    let behaviors = remove_behavior pattern r.behaviors in
    elim (Bool-cases (is_unmanaged (behavior_for pattern r.behaviors))) [
      | inl foreign ↦ cc (rw (foreign) at applied)
      | inr managed ↦
          let same : r'.behaviors ≡ behaviors = removed managed in
          record {
            asked_for = λ p. rw (same) (
                origin_at-remove pattern p r.behaviors ∙ elim (Bool-cases (pattern == p)) [
                  | inl here ↦ rw (here, kind) refl
                  | inr other ↦ rw (other) refl
                ]);
            respects = λ p o at foreign. elim (Bool-cases (pattern == p)) [
              | inr other ↦ other
              | inl here ↦
                  let e : pattern ≡ p = (eq_iff pattern p).0 here in
                  let taken =
                    unmanaged_by o (behavior_for pattern r.behaviors) (rw (e) at) foreign in
                  cc (rw taken at managed)
            ];
          }
    ]
  where
    removed :
        is_unmanaged (behavior_for (route_pattern a.route_key) r.behaviors) ≡ false
        → r'.behaviors ≡ remove_behavior (route_pattern a.route_key) r.behaviors
    removed managed =
        let blank = trim_space a.origin_id == "" in
        let own = is_managed_origin_id a.origin_id in
        let kept =
          behavior_references_origin a.origin_id
            (remove_behavior (route_pattern a.route_key) r.behaviors) in
        elim (Bool-cases (not blank && not own)) [
          | inl foreign ↦ cc (rw (managed, foreign) at applied)
          | inr mine ↦ elim (Bool-cases (not blank && not kept)) [
            | inl gone ↦ cc (rw (managed, mine, gone) at applied)
            | inr stays ↦ cc (rw (managed, mine, stays) at applied)
          ]
        ]

pub apply_action-Done :
    (template : BehaviorSettings) (a : RouteAction) (r r' : Routing)
    → apply_action template a r ≡ ok r'
    → Done a r r'
unfolding apply_action
apply_action-Done template a r r' applied = elim (Bool-cases (a.action == "remove_route")) [
  | inl removal ↦
      let no_route : ((a.action == "add_route") || a.action == "replace_route") ≡ false =
        rw ((eq_iff a.action "remove_route").0 removal) refl in
      remove_route-Done a r r' removal (rw (no_route, removal) at applied)
  | inr other ↦ elim (Bool-cases ((a.action == "add_route") || a.action == "replace_route")) [
    | inl route ↦ apply_route-Done template a r r' other (rw (route) at applied)
    | inr unknown ↦ cc (rw (unknown, other) at applied)
  ]
]
