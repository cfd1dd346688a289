-- ===== src/CloudFront/Plan.antt =====
-- internal/cloudfront/plan.go: the plan that brings a distribution's routes to the bindings. The two
-- loops over maps are functions of the order in which they visit the entries.
pub mod Safety
pub mod Drift
pub mod Actions
pub mod Bindings
pub mod Reconcile
use Prim.Native.String.{◌++◌ as str_append}
use text.Mathlib.Text.{starts_with}
use v2ray_platform.Base.{
  String, Bool, not, ◌&&◌, ◌||◌, Option, none, some, List, [], ◌∷◌, ◌++◌, ◌==◌, if◌then◌else◌,
  is_some,
}
use v2ray_platform.Base.Text.{trim_space, trim_prefix}
use v2ray_platform.Maps.{Map, lookup, insert}
use v2ray_platform.Domain.{CloudFrontBinding}
use v2ray_platform.CloudFront.{
  OriginState, BehaviorState, DistributionState, RouteAction, RewriteRoute,
}

-- `isManagedOriginID` of bind.go
unfoldable pub is_managed_origin_id : String → Bool
is_managed_origin_id origin_id = starts_with (trim_space origin_id) "v2ray-platform-node-"

pub record RouteState : Type 0 where
  pub route_key : String
  pub origin_id : String
  pub host : String
  pub managed : Bool

pub record SyncPlan : Type 0 where
  pub actions : List RouteAction
  pub rewrite_routes : List RewriteRoute
  pub drift_status : String

-- `desiredByRouteKey`
unfoldable pub desired_by_route_key :
    List CloudFrontBinding → Map CloudFrontBinding → Map CloudFrontBinding
desired_by_route_key [] m = m
desired_by_route_key (b ∷ rest) m =
    desired_by_route_key rest (if trim_space b.route_key == "" then m else insert b.route_key b m)

-- `originByID`
unfoldable pub origin_by_id : List OriginState → Map OriginState → Map OriginState
origin_by_id [] m = m
origin_by_id (o ∷ rest) m = origin_by_id rest (insert o.origin_id o m)

-- a missing key of a Go map is read as the zero value
abbrev pub domain_of : Option OriginState → String
domain_of none = ""
domain_of (some o) = o.domain_name

abbrev pub text_of : Option String → String
text_of none = ""
text_of (some s) = s

unfoldable pub route_state : Map OriginState → String → BehaviorState → RouteState
unfolding is_managed_origin_id
route_state origins key b = record {
  route_key = key;
  origin_id = b.origin_id;
  host = domain_of (lookup b.origin_id origins);
  managed = is_managed_origin_id b.origin_id;
}

-- `currentByRouteKey`
unfoldable pub current_by_route_key :
    Map OriginState → List BehaviorState → Map RouteState → Map RouteState
unfolding route_state
current_by_route_key origins [] m = m
current_by_route_key origins (b ∷ rest) m =
    let key = trim_prefix (trim_space b.path_pattern) "/" in
    current_by_route_key origins rest
      (if key == "" then m else insert key (route_state origins key b) m)

-- the path that requests are rewritten to
unfoldable pub rewrite_path : String → String → String
rewrite_path node_path group_name =
    let path =
      if trim_space node_path == ""
      then str_append "/" (trim_space group_name)
      else trim_space node_path in
    if not (path == "") && not (starts_with path "/") then str_append "/" path else path

unfoldable pub add_rewrite : String → String → List RewriteRoute → List RewriteRoute
add_rewrite key path rewrites =
    if not (path == "") && not (path == "/")
    then rewrites ++ record { route_key = key; path = path } ∷ []
    else rewrites

-- `append(actions, …)` together with `driftStatus = …`
unfoldable pub planned : SyncPlan → List RewriteRoute → RouteAction → String → SyncPlan
planned p rewrites a drift = record {
  actions = p.actions ++ a ∷ [];
  rewrite_routes = rewrites;
  drift_status = drift;
}

module _ (node_hosts node_paths : Map String) (current : Map RouteState) where
  abbrev pub host_of : CloudFrontBinding → String
  host_of b = trim_space (text_of (lookup b.node_id node_hosts))

  -- the `switch` on the current route
  unfoldable pub plan_route :
      String → CloudFrontBinding → SyncPlan → List RewriteRoute → Option RouteState → SyncPlan
  unfolding planned
  plan_route key b p rewrites none =
      planned p rewrites
        (record {
          action = "add_route";
          route_key = key;
          origin_id = b.origin_id;
          host = host_of b;
          group_name = b.group_name;
          reason = "route missing from distribution";
        })
        "drifted"
  plan_route key b p rewrites (some c) =
      if not c.managed
      then planned p rewrites
          (record {
            action = "conflict";
            route_key = key;
            origin_id = c.origin_id;
            host = c.host;
            group_name = b.group_name;
            reason = "route is occupied by an unmanaged origin";
          })
          "conflict"
      else if not (c.origin_id == b.origin_id) || not (c.host == host_of b)
      then planned p rewrites
          (record {
            action = "replace_route";
            route_key = key;
            origin_id = b.origin_id;
            host = host_of b;
            group_name = b.group_name;
            reason = "route target differs from platform binding";
          })
          "drifted"
      else record p { rewrite_routes = rewrites }

  -- one round of the loop over the bindings
  unfoldable pub plan_binding : String → CloudFrontBinding → SyncPlan → SyncPlan
  unfolding plan_route planned rewrite_path add_rewrite
  plan_binding key b p =
      if host_of b == ""
      then planned p p.rewrite_routes
          (record {
            action = "conflict";
            route_key = key;
            origin_id = b.origin_id;
            host = "";
            group_name = b.group_name;
            reason = "node public_host is required for cloudfront origin";
          })
          "conflict"
      else plan_route key b p
          (add_rewrite key (rewrite_path (text_of (lookup b.node_id node_paths)) b.group_name)
            p.rewrite_routes)
          (lookup key current)

  unfoldable pub plan_bindings : Map CloudFrontBinding → SyncPlan → SyncPlan
  unfolding plan_binding
  plan_bindings [] p = p
  plan_bindings ((key, b) ∷ rest) p = plan_bindings rest (plan_binding key b p)

-- one round of the loop over the current routes
unfoldable pub plan_removal : Map CloudFrontBinding → String → RouteState → SyncPlan → SyncPlan
unfolding planned
plan_removal desired key c p =
    if is_some (lookup key desired) || not c.managed
    then p
    else planned p p.rewrite_routes
        (record {
          action = "remove_route";
          route_key = key;
          origin_id = c.origin_id;
          host = c.host;
          group_name = "";
          reason = "route exists in distribution but not in platform bindings";
        })
        "drifted"

unfoldable pub plan_removals : Map CloudFrontBinding → Map RouteState → SyncPlan → SyncPlan
unfolding plan_removal
plan_removals desired [] p = p
plan_removals desired ((key, c) ∷ rest) p =
    plan_removals desired rest (plan_removal desired key c p)

-- a plan without actions gets the one that does nothing
unfoldable pub or_noop : List RouteAction → List RouteAction
or_noop [] =
    record {
      action = "noop";
      route_key = "";
      origin_id = "";
      host = "";
      group_name = "";
      reason = "distribution is in sync";
    }
    ∷ []
or_noop (a ∷ rest) = a ∷ rest

-- the plan before `noop` is put in
unfoldable pub plan_loops :
    Map CloudFrontBinding → Map RouteState → Map String → Map String → SyncPlan
unfolding plan_bindings plan_removals
plan_loops desired current node_hosts node_paths = plan_removals desired current (
    plan_bindings node_hosts node_paths current desired
      (record { actions = []; rewrite_routes = []; drift_status = "in_sync" }))

-- the rest of `Plan` after the maps are built
unfoldable pub plan_of : Map CloudFrontBinding → Map RouteState → Map String → Map String → SyncPlan
unfolding plan_loops or_noop
plan_of desired current node_hosts node_paths =
    let p = plan_loops desired current node_hosts node_paths in
    record p { actions = or_noop p.actions }

unfoldable pub plan :
    List CloudFrontBinding → DistributionState → Map String → Map String → SyncPlan
unfolding plan_of desired_by_route_key origin_by_id current_by_route_key
plan bindings dist node_hosts node_paths =
    plan_of (desired_by_route_key bindings [])
      (current_by_route_key (origin_by_id dist.origins []) dist.behaviors []) node_hosts node_paths
