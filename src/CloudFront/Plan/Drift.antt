-- ===== src/CloudFront/Plan/Drift.antt =====
-- What the drift status of a plan says of its actions.
use v2ray_platform.Base.{
  String, ◌≡◌, refl, ◌∙◌, Bool, true, false, not, ◌&&◌, ◌||◌, Option, none, some, List, [], ◌∷◌,
  ◌++◌, arith, ◌==◌, if◌then◌else◌, is_some, Bool-cases, inl, inr,
}
use v2ray_platform.Maps.{Map, lookup}
use v2ray_platform.Base.Text.{trim_space}
use v2ray_platform.Domain.{CloudFrontBinding}
use v2ray_platform.CloudFront.{RouteAction, RewriteRoute}
use v2ray_platform.CloudFront.Plan.{
  RouteState, SyncPlan, text_of, planned, plan_route, plan_binding, plan_bindings, plan_removal,
  plan_removals, plan_loops, plan_of,
}

abbrev pub is_empty : List RouteAction → Bool
is_empty [] = true
is_empty (a ∷ rest) = false

is_empty-append_one : (xs : List RouteAction) (a : RouteAction) → is_empty (xs ++ a ∷ []) ≡ false
is_empty-append_one [] a = refl
is_empty-append_one (x ∷ xs) a = refl

-- the status is that of a plan in sync exactly while nothing is planned
abbrev IsHonest : SyncPlan → Type 0
IsHonest p = (p.drift_status == "in_sync") ≡ is_empty p.actions

planned-IsHonest :
    (p : SyncPlan) (r : List RewriteRoute) (a : RouteAction) (d : String)
    → (d == "in_sync") ≡ false
    → IsHonest (planned p r a d)
unfolding planned
planned-IsHonest p r a d h = rw (is_empty-append_one) h

module _ (hosts paths : Map String) (current : Map RouteState) where
  plan_route-IsHonest :
      (key : String) (b : CloudFrontBinding) (p : SyncPlan) (r : List RewriteRoute)
      (o : Option RouteState)
      → IsHonest p
      → IsHonest (plan_route hosts paths current key b p r o)
  unfolding plan_route
  plan_route-IsHonest key b p r none h = planned-IsHonest p r _ "drifted" refl
  plan_route-IsHonest key b p r (some c) h = elim (Bool-cases c.managed) [
    | inr wild ↦ rw (wild) (planned-IsHonest p r _ "conflict" refl)
    | inl ours ↦
        elim (Bool-cases (
          not (c.origin_id == b.origin_id)
          || not (c.host == trim_space (text_of (lookup b.node_id hosts))))) [
            | inl moved ↦ rw (ours, moved) (planned-IsHonest p r _ "drifted" refl)
            | inr same ↦ rw (ours, same) h
          ]
  ]

  plan_binding-IsHonest :
      (key : String) (b : CloudFrontBinding) (p : SyncPlan)
      → IsHonest p
      → IsHonest (plan_binding hosts paths current key b p)
  unfolding plan_binding
  plan_binding-IsHonest key b p h =
      elim (Bool-cases (trim_space (text_of (lookup b.node_id hosts)) == "")) [
        | inl lost ↦ rw (lost) (planned-IsHonest p p.rewrite_routes _ "conflict" refl)
        | inr known ↦ rw (known) (plan_route-IsHonest key b p _ (lookup key current) h)
      ]

  plan_bindings-IsHonest :
      (m : Map CloudFrontBinding) (p : SyncPlan)
      → IsHonest p
      → IsHonest (plan_bindings hosts paths current m p)
  unfolding plan_bindings
  plan_bindings-IsHonest [] p h = h
  plan_bindings-IsHonest ((key, b) ∷ rest) p h =
      plan_bindings-IsHonest rest (plan_binding hosts paths current key b p)
        (plan_binding-IsHonest key b p h)

module _ (desired : Map CloudFrontBinding) where
  plan_removal-IsHonest :
      (key : String) (c : RouteState) (p : SyncPlan)
      → IsHonest p
      → IsHonest (plan_removal desired key c p)
  unfolding plan_removal
  plan_removal-IsHonest key c p h =
      elim (Bool-cases (is_some (lookup key desired) || not c.managed)) [
        | inl stays ↦ rw (stays) h
        | inr goes ↦ rw (goes) (planned-IsHonest p p.rewrite_routes _ "drifted" refl)
      ]

  plan_removals-IsHonest :
      (m : Map RouteState) (p : SyncPlan) → IsHonest p → IsHonest (plan_removals desired m p)
  unfolding plan_removals
  plan_removals-IsHonest [] p h = h
  plan_removals-IsHonest ((key, c) ∷ rest) p h =
      plan_removals-IsHonest rest (plan_removal desired key c p) (plan_removal-IsHonest key c p h)

-- some current route is managed and has no binding
abbrev pub has_stale : Map CloudFrontBinding → Map RouteState → Bool
has_stale desired [] = false
has_stale desired ((key, c) ∷ rest) =
    (not (is_some (lookup key desired)) && c.managed) || has_stale desired rest

plan_removal-drift :
    (desired : Map CloudFrontBinding) (key : String) (c : RouteState) (p : SyncPlan)
    → (plan_removal desired key c p).drift_status
      ≡ (if not (is_some (lookup key desired)) && c.managed then "drifted" else p.drift_status)
unfolding plan_removal planned
plan_removal-drift desired key c p = ground arith

plan_removals-drift :
    (desired : Map CloudFrontBinding) (m : Map RouteState) (p : SyncPlan)
    → (plan_removals desired m p).drift_status
      ≡ (if has_stale desired m then "drifted" else p.drift_status)
unfolding plan_removals
plan_removals-drift desired [] p = refl
plan_removals-drift desired ((key, c) ∷ rest) p =
    plan_removals-drift desired rest (plan_removal desired key c p)
    ∙ rw (plan_removal-drift) (ground arith)

-- A plan is in sync exactly when its loops have planned no action, and is marked as drifted when a
-- managed route has no binding, also if it has conflicts.
pub plan_of-drift :
    (desired : Map CloudFrontBinding) (current : Map RouteState) (hosts paths : Map String)
    → (((plan_of desired current hosts paths).drift_status == "in_sync")
        ≡ is_empty (plan_loops desired current hosts paths).actions)
      × (has_stale desired current ≡ true
          → (plan_of desired current hosts paths).drift_status ≡ "drifted")
unfolding plan_of plan_loops
plan_of-drift desired current hosts paths = (
  plan_removals-IsHonest desired current
      (plan_bindings hosts paths current desired
        (record { actions = []; rewrite_routes = []; drift_status = "in_sync" }))
      (plan_bindings-IsHonest hosts paths current desired
        (record { actions = []; rewrite_routes = []; drift_status = "in_sync" }) refl),
  λ stale. rw (plan_removals-drift, stale),
)
