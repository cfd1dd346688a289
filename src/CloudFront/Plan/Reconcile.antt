-- ===== src/CloudFront/Plan/Reconcile.antt =====
-- Carrying out a plan: the routes of the distribution become those of the bindings.
use v2ray_platform.Base.{
  String, ◌≡◌, refl, ◌∙◌, ap, Bool, true, false, not, ◌||◌, Option, none, some, List, [], ◌∷◌,
  arith, ◌==◌, eq_iff, eq_refl, if◌then◌else◌, is_some, Bool-cases, Option-cases, inl, inr,
  Distinct,
}
use v2ray_platform.Maps.{Map, keys, lookup, insert, contains-keys}
use v2ray_platform.Base.Text.{trim_space}
use v2ray_platform.Domain.{CloudFrontBinding}
use v2ray_platform.CloudFront.{RouteAction}
use v2ray_platform.CloudFront.Plan.{
  RouteState, SyncPlan, planned, plan_bindings, plan_removal, plan_removals, plan_loops, plan_of,
  or_noop,
}
use v2ray_platform.CloudFront.{DistributionState}
use v2ray_platform.CloudFront.Plan.{plan, desired_by_route_key, current_by_route_key, origin_by_id}
use v2ray_platform.CloudFront.Plan.Safety.{current-Distinct}
use v2ray_platform.CloudFront.Plan.Actions.{
  Target, after_action, after_actions, after_actions-append_one, planned-other, target_of,
}
use v2ray_platform.Maps.{insert-Distinct}
use v2ray_platform.CloudFront.Plan.Bindings.{wanted, plan_bindings-other, plan_bindings_self}

plan_removal-other :
    (desired : Map CloudFrontBinding) (key k : String) (c : RouteState) (p : SyncPlan)
    (t : Option Target)
    → (key == k) ≡ false
    → after_actions (plan_removal desired key c p).actions k t ≡ after_actions p.actions k t
unfolding plan_removal
plan_removal-other desired key k c p t h =
    elim (Bool-cases (is_some (lookup key desired) || not c.managed)) [
      | inl stays ↦ rw (stays)
      | inr goes ↦ rw (goes) (planned-other p p.rewrite_routes _ "drifted" k t h)
    ]

plan_removal_self :
    (desired : Map CloudFrontBinding) (key : String) (c : RouteState) (p : SyncPlan)
    (t : Option Target)
    → after_actions (plan_removal desired key c p).actions key t ≡ (
        if is_some (lookup key desired) || not c.managed
        then after_actions p.actions key t
        else none)
unfolding plan_removal planned after_action
plan_removal_self desired key c p t =
    elim (Bool-cases (is_some (lookup key desired) || not c.managed)) [
      | inl stays ↦ rw (stays)
      | inr goes ↦ rw (goes) (after_actions-append_one p.actions _ key t ∙ rw (eq_refl key))
    ]

plan_removals-other :
    (desired : Map CloudFrontBinding) (m : Map RouteState) (k : String) (p : SyncPlan)
    (t : Option Target)
    → lookup k m ≡ none
    → after_actions (plan_removals desired m p).actions k t ≡ after_actions p.actions k t
unfolding plan_removals lookup
plan_removals-other desired [] k p t h = refl
plan_removals-other desired ((key, c) ∷ rest) k p t h =
    plan_removals-other desired rest k (plan_removal desired key c p) t (ground arith)
    ∙ plan_removal-other desired key k c p t (ground arith)

abbrev pub after_removal : Bool → Option RouteState → Option Target → Option Target
after_removal bound none t = t
after_removal bound (some c) t = if bound || not c.managed then t else none

plan_removals_self :
    (desired : Map CloudFrontBinding) (m : Map RouteState) (k : String) (p : SyncPlan)
    (t : Option Target)
    → Distinct (keys m)
    → after_actions (plan_removals desired m p).actions k t
      ≡ after_removal (is_some (lookup k desired)) (lookup k m) (after_actions p.actions k t)
unfolding plan_removals lookup
plan_removals_self desired [] k p t d = refl
plan_removals_self desired ((key, c) ∷ rest) k p t d = elim (Bool-cases (key == k)) [
  | inr other ↦ rw (other) (
      plan_removals_self desired rest k (plan_removal desired key c p) t d.1
      ∙ ap (λ x. after_removal (is_some (lookup k desired)) (lookup k rest) x)
          (plan_removal-other desired key k c p t other))
  | inl here ↦
      let same : key ≡ k = (eq_iff key k).0 here in
      let gone : lookup k rest ≡ none = ground (arith, d.0, contains-keys k rest) in
      rw (here) (
        plan_removals-other desired rest k (plan_removal desired key c p) t gone
        ∙ rw (same) (plan_removal_self desired k c p t))
]

or_noop-asks :
    (as' : List RouteAction) (k : String) (t : Option Target)
    → after_actions (or_noop as') k t ≡ after_actions as' k t
unfolding or_noop after_actions after_action
or_noop-asks [] k t = ground arith
or_noop-asks (a ∷ rest) k t = refl

-- the target that a route has when the distribution agrees with the bindings
abbrev pub agreed :
    Map String
    → Map String
    → Map RouteState
    → Option CloudFrontBinding
    → Option RouteState
    → Option Target
agreed hosts paths current (some b) o = wanted hosts paths current b o
agreed hosts paths current none o = after_removal false o (target_of o)

bound_stays : (o : Option RouteState) (t : Option Target) → after_removal true o t ≡ t
bound_stays none t = refl
bound_stays (some c) t = refl

-- Carrying out a plan makes each route lead where it should, in whatever order the routes and the
-- bindings are visited: a route with a binding leads to the binding's origin and the host of its node,
-- if that host is known and no unmanaged origin has the route, and stays as it is otherwise; a
-- managed route without a binding is gone, and an unmanaged one stays as it is.
pub plan_of-reconciles :
    (desired : Map CloudFrontBinding) (current : Map RouteState) (hosts paths : Map String)
    (k : String)
    → Distinct (keys desired)
    → Distinct (keys current)
    → after_actions (plan_of desired current hosts paths).actions k (target_of (lookup k current))
      ≡ agreed hosts paths current (lookup k desired) (lookup k current)
unfolding plan_of plan_loops after_actions
plan_of-reconciles desired current hosts paths k d c =
    let start : SyncPlan = record { actions = []; rewrite_routes = []; drift_status = "in_sync" } in
    let bound : SyncPlan = plan_bindings hosts paths current desired start in
    or_noop-asks (plan_removals desired current bound).actions k (target_of (lookup k current))
    ∙ plan_removals_self desired current k bound (target_of (lookup k current)) c
    ∙ elim (Option-cases (lookup k desired)) [
      | inl missing ↦ rw (
        missing,
        plan_bindings-other hosts paths current desired k start (target_of (lookup k current))
            missing,
      )
      | inr (b, found) ↦
          rw (found, plan_bindings_self hosts paths current desired k b start d found refl)
            (bound_stays (lookup k current) (wanted hosts paths current b (lookup k current)))
    ]

desired-Distinct :
    (bs : List CloudFrontBinding) (m : Map CloudFrontBinding)
    → Distinct (keys m)
    → Distinct (keys (desired_by_route_key bs m))
unfolding desired_by_route_key
desired-Distinct [] m d = d
desired-Distinct (b ∷ rest) m d =
    desired-Distinct rest (if trim_space b.route_key == "" then m else insert b.route_key b m)
      (elim (Bool-cases (trim_space b.route_key == "")) [
        | inl blank ↦ rw (blank) d
        | inr named ↦ rw (named) (insert-Distinct b.route_key b m d)
      ])

-- the routes of a distribution, and the bindings, by their keys
abbrev pub routes_of : DistributionState → Map RouteState
routes_of dist = current_by_route_key (origin_by_id dist.origins []) dist.behaviors []

abbrev pub bound_by_key : List CloudFrontBinding → Map CloudFrontBinding
bound_by_key bindings = desired_by_route_key bindings []

-- Carrying out the plan for any bindings and any distribution makes each route lead where it should: a
-- route with a binding leads to the binding's origin and the host of its node, if that host is known
-- and no unmanaged origin has the route, and stays as it is otherwise; a managed route without a
-- binding is gone, and an unmanaged one stays as it is.
pub plan-reconciles :
    (bindings : List CloudFrontBinding) (dist : DistributionState) (hosts paths : Map String)
    (k : String)
    → after_actions
        (plan bindings dist hosts paths).actions
        k
        (target_of (lookup k (routes_of dist)))
      ≡ agreed hosts paths
          (routes_of dist)
          (lookup k (bound_by_key bindings))
          (lookup k (routes_of dist))
unfolding plan
plan-reconciles bindings dist hosts paths k =
    plan_of-reconciles (bound_by_key bindings) (routes_of dist) hosts paths k
      (desired-Distinct bindings [] tt)
      (current-Distinct (origin_by_id dist.origins []) dist.behaviors [] tt)
