-- ===== src/Aws/Routes.antt =====
-- internal/cloudfront/aws_client.go: the routes of a distribution after the actions.
use v2ray_platform.Base.{
  String, ◌≡◌, refl, false, Option, some, List, [], ◌∷◌, ◌==◌, inl, inr, ap, ◌∙◌,
}
use v2ray_platform.Base.Result.{ok, Result-cases}
use v2ray_platform.CloudFront.{RouteAction}
use v2ray_platform.CloudFront.Plan.{is_managed_origin_id}
use v2ray_platform.Aws.{BehaviorSettings, DistributionConfig}
use v2ray_platform.Aws.Edit.{route_pattern, default_behavior_template}
use v2ray_platform.Aws.Apply.{
  Routing, apply_action, and_apply, apply_actions, actionable, edit_routes, with_routing,
}
use v2ray_platform.Aws.Paths.{origin_at, asked, asked_by}
use v2ray_platform.Aws.Actions.{apply_action-Done}

asked-other :
    (a : RouteAction) (p : String) (before : Option String)
    → route_pattern a.route_key == p ≡ false
    → asked a p before ≡ before
unfolding asked
asked-other a p before h = rw (h) refl

apply_actions-asked :
    (template : BehaviorSettings) (actions : List RouteAction) (r r' : Routing)
    → apply_actions template actions r ≡ ok r'
    → ((p : String) → origin_at p r'.behaviors ≡ asked_by actions p (origin_at p r.behaviors))
      × ((p o : String)
          → origin_at p r.behaviors ≡ some o
          → is_managed_origin_id o ≡ false
          → origin_at p r'.behaviors ≡ some o)
unfolding apply_actions and_apply asked_by
apply_actions-asked template [] r r' applied =
    let e : r ≡ r' = cc applied in rw (← e) ((λ p. refl), (λ p o at foreign. at))
apply_actions-asked template (a ∷ rest) r r' applied =
    elim (Result-cases (apply_action template a r)) [
      | inr (x, failed) ↦ cc (rw (failed) at applied)
      | inl (next, done) ↦
          let first = apply_action-Done template a r next done in
          let ih = apply_actions-asked template rest next r' (rw (done) at applied) in
          (
            (λ p. ih.0 p ∙ ap (asked_by rest p) (first.asked_for p)),
            (λ p o at foreign.
                ih.1 p o
                  (first.asked_for p ∙ asked-other a p _ (first.respects p o at foreign) ∙ at)
                  foreign),
          )
    ]

-- When the actions have been carried into a distribution without an error, every path leads to the
-- origin that the last action on it asked for, or to none after a removal, and as before where no
-- action asked; every path that led to an unmanaged origin still does.
pub edit_routes-asked :
    (actions : List RouteAction) (cfg cfg' : DistributionConfig) (p : String)
    → edit_routes actions cfg ≡ ok cfg'
    → (origin_at p cfg'.cache_behaviors.items
        ≡ asked_by (actionable actions) p (origin_at p cfg.cache_behaviors.items))
      × ((o : String)
          → origin_at p cfg.cache_behaviors.items ≡ some o
          → is_managed_origin_id o ≡ false
          → origin_at p cfg'.cache_behaviors.items ≡ some o)
unfolding edit_routes with_routing
edit_routes-asked actions cfg cfg' p edited =
    let template = default_behavior_template cfg in
    let start : Routing = record {
      behaviors = cfg.cache_behaviors.items;
      origins = cfg.origins.items;
    } in
    elim (Result-cases (apply_actions template (actionable actions) start)) [
      | inr (x, failed) ↦ cc (rw (failed) at edited)
      | inl (r, applied) ↦
          let facts = apply_actions-asked template (actionable actions) start r applied in
          let same : r.behaviors ≡ cfg'.cache_behaviors.items = edited_behaviors r applied in
          rw (← same) (facts.0 p, facts.1 p)
    ]
  where
    edited_behaviors :
        (r : Routing)
        → apply_actions
            (default_behavior_template cfg)
            (actionable actions)
            (record { behaviors = cfg.cache_behaviors.items; origins = cfg.origins.items })
          ≡ ok r
        → r.behaviors ≡ cfg'.cache_behaviors.items
    edited_behaviors r applied = cc (rw (applied) at edited)
