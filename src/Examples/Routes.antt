-- ===== src/Examples/Routes.antt =====
-- The theorems on plans, applied to a small distribution.
use v2ray_platform.Base.{String, ◌≡◌, refl, true, false, List, [], ◌∷◌, map, All, ◌==◌}
use v2ray_platform.Base.Text.{trim_space, trim_prefix}
use v2ray_platform.Maps.{Map, lookup, insert}
use v2ray_platform.Domain.{CloudFrontBinding}
use v2ray_platform.CloudFront.{DistributionState}
use v2ray_platform.CloudFront.Plan.{
  plan, plan_of, plan_loops, desired_by_route_key, current_by_route_key, origin_by_id,
  is_managed_origin_id,
}
use v2ray_platform.CloudFront.Plan.Safety.{respects, plan-respects}
use v2ray_platform.CloudFront.Plan.Drift.{is_empty, has_stale, plan_of-drift}
use v2ray_platform.CloudFront.Plan.Actions.{after_actions, target_of}
use v2ray_platform.CloudFront.Plan.Reconcile.{agreed, routes_of, bound_by_key, plan-reconciles}

-- two bindings; the node of the second one has no host
abbrev bindings : List CloudFrontBinding
bindings =
    record {
      node_id = "n1";
      origin_id = "v2ray-platform-node-n1";
      route_key = "r1";
      group_name = "tokyo";
    }
    ∷ record {
      node_id = "n2";
      origin_id = "v2ray-platform-node-n2";
      route_key = "r2";
      group_name = "osaka";
    }
    ∷ []

-- a managed route that has no binding
abbrev dist : DistributionState
dist = record {
  distribution_id = "E1";
  domain_name = "d1.example.org";
  status = "Deployed";
  comment = "";
  aliases = [];
  origins = record { origin_id = "v2ray-platform-node-n9"; domain_name = "old.example.org" } ∷ [];
  behaviors =
      record { path_pattern = "/r9"; origin_id = "v2ray-platform-node-n9"; is_default = false }
      ∷ [];
  parameters = [];
}

abbrev hosts : Map String
hosts = ("n1", "tokyo.example.org") ∷ []

plan-respects_example :
    All
      (λ a.
        respects (current_by_route_key (origin_by_id dist.origins []) dist.behaviors []) a ≡ true)
      (plan bindings dist hosts []).actions
plan-respects_example = plan-respects bindings dist hosts []

plan_of-drift_example :
    (((plan_of (bound_by_key bindings) (routes_of dist) hosts []).drift_status == "in_sync")
      ≡ is_empty (plan_loops (bound_by_key bindings) (routes_of dist) hosts []).actions)
    × (has_stale (bound_by_key bindings) (routes_of dist) ≡ true
        → (plan_of (bound_by_key bindings) (routes_of dist) hosts []).drift_status ≡ "drifted")
plan_of-drift_example = plan_of-drift (bound_by_key bindings) (routes_of dist) hosts []

plan-reconciles_example :
    after_actions
      (plan bindings dist hosts []).actions
      "r1"
      (target_of (lookup "r1" (routes_of dist)))
    ≡ agreed hosts []
        (routes_of dist)
        (lookup "r1" (bound_by_key bindings))
        (lookup "r1" (routes_of dist))
plan-reconciles_example = plan-reconciles bindings dist hosts [] "r1"

-- the second binding is a conflict, and yet the status of the plan is that of a drift
masked_test :
    (map (λ a. a.action) (plan bindings dist hosts []).actions
      ≡ "add_route" ∷ "conflict" ∷ "remove_route" ∷ [])
    × ((plan bindings dist hosts []).drift_status ≡ "drifted")
unfolding plan desired_by_route_key current_by_route_key origin_by_id is_managed_origin_id
    trim_space trim_prefix lookup insert
masked_test = (refl, refl)
