-- ===== src/Aws/Apply.antt =====
-- internal/cloudfront/aws_client.go: the loop of `ApplyDistributionRoutes` that carries the actions
-- into a fetched configuration. The requests around it are not modelled.
use Prim.Native.String.{◌++◌}
use v2ray_platform.Base.{
  String, Bool, false, not, ◌&&◌, ◌||◌, Option, none, some, List, [], ◌∷◌, ◌==◌, if◌then◌else◌,
}
use v2ray_platform.Base.Text.{trim_space}
use v2ray_platform.Base.Result.{message, Result, ok, err}
use v2ray_platform.CloudFront.{RouteAction}
use v2ray_platform.CloudFront.Plan.{is_managed_origin_id}
use v2ray_platform.Aws.{Origin, CacheBehavior, BehaviorSettings, DistributionConfig}
use v2ray_platform.Aws.Edit.{
  route_pattern, upsert_origin, upsert_behavior, remove_behavior, behavior_for, remove_origin,
  behavior_references_origin, default_behavior_template,
}

-- `actionable`
unfoldable pub actionable : List RouteAction → List RouteAction
actionable [] = []
actionable (a ∷ rest) =
    let others = actionable rest in
    if (trim_space a.action == "") || a.action == "noop" then others else a ∷ others

abbrev pub quoted : String → String
quoted text = "\"" ++ (text ++ "\"")

-- the behaviors and the origins of the configuration
pub record Routing : Type 0 where
  pub behaviors : List CacheBehavior
  pub origins : List Origin

unfoldable pub is_taken : String → Option CacheBehavior → Bool
is_taken origin_id none = false
is_taken origin_id (some existing) =
    not (existing.target_origin_id == origin_id)
    && not (is_managed_origin_id existing.target_origin_id)

unfoldable pub is_unmanaged : Option CacheBehavior → Bool
is_unmanaged none = false
is_unmanaged (some existing) = not (is_managed_origin_id existing.target_origin_id)

abbrev pub origin_text : Option CacheBehavior → String
origin_text none = quoted ""
origin_text (some existing) = quoted existing.target_origin_id

unfoldable pub apply_route : BehaviorSettings → RouteAction → Routing → Result Routing
unfolding is_taken
apply_route template a r =
    let pattern = route_pattern a.route_key in
    if not (is_managed_origin_id a.origin_id)
    then err (
        message (
          "cloudfront: refusing to manage route "
          ++ (quoted pattern ++ (" with unmanaged origin " ++ quoted a.origin_id))))
    else if is_taken a.origin_id (behavior_for pattern r.behaviors)
    then err (
        message (
          "cloudfront: route "
          ++ (quoted pattern
              ++ (" is occupied by unmanaged origin "
                  ++ origin_text (behavior_for pattern r.behaviors)))))
    else ok (record {
      behaviors = upsert_behavior pattern a.origin_id template r.behaviors;
      origins = upsert_origin a.origin_id a.host r.origins;
    })

unfoldable pub remove_route : RouteAction → Routing → Result Routing
unfolding is_unmanaged
remove_route a r =
    let pattern = route_pattern a.route_key in
    let behaviors = remove_behavior pattern r.behaviors in
    if is_unmanaged (behavior_for pattern r.behaviors)
    then err (
        message (
          "cloudfront: refusing to remove unmanaged route "
          ++ (quoted pattern
              ++ (" with origin " ++ origin_text (behavior_for pattern r.behaviors)))))
    else if not (trim_space a.origin_id == "") && not (is_managed_origin_id a.origin_id)
    then err (message ("cloudfront: refusing to remove unmanaged origin " ++ quoted a.origin_id))
    else if not (trim_space a.origin_id == "")
        && not (behavior_references_origin a.origin_id behaviors)
    then ok (record { behaviors = behaviors; origins = remove_origin a.origin_id r.origins })
    else ok (record { behaviors = behaviors; origins = r.origins })

-- the `switch` on an action
unfoldable pub apply_action : BehaviorSettings → RouteAction → Routing → Result Routing
unfolding apply_route remove_route
apply_action template a r =
    if (a.action == "add_route") || a.action == "replace_route"
    then apply_route template a r
    else if a.action == "remove_route"
    then remove_route a r
    else err (message ("cloudfront: unsupported route action " ++ quoted a.action))

unfoldable pub and_apply : (Routing → Result Routing) → Result Routing → Result Routing
and_apply rest (err x) = err x
and_apply rest (ok r) = rest r

unfoldable pub apply_actions : BehaviorSettings → List RouteAction → Routing → Result Routing
unfolding apply_action and_apply
apply_actions template [] r = ok r
apply_actions template (a ∷ rest) r =
    and_apply (apply_actions template rest) (apply_action template a r)

unfoldable pub with_routing : DistributionConfig → Result Routing → Result DistributionConfig
with_routing cfg (err x) = err x
with_routing cfg (ok r) = ok (record cfg {
  origins = record cfg.origins { items = r.origins };
  cache_behaviors = record cfg.cache_behaviors { items = r.behaviors };
})

-- the configuration after all actions, before the rewrites and `normalize`
unfoldable pub edit_routes : List RouteAction → DistributionConfig → Result DistributionConfig
unfolding with_routing apply_actions actionable
edit_routes actions cfg = with_routing cfg (
    apply_actions (default_behavior_template cfg) (actionable actions)
      (record { behaviors = cfg.cache_behaviors.items; origins = cfg.origins.items }))
