-- ===== src/CloudFront/Plan/Safety.antt =====
-- Which routes a plan touches, and what its drift status says.
use v2ray_platform.Base.{
  String, ◌≡◌, refl, Bool, true, false, not, ◌||◌, Option, none, some, List, [], ◌∷◌, arith, ◌==◌,
  eq_iff, eq_refl, if◌then◌else◌, is_some, All, All-append, Distinct, contains, Bool-cases, inl,
  inr,
}
use v2ray_platform.Maps.{Map, keys, lookup, insert, insert-Distinct}
use v2ray_platform.Base.Text.{trim_space, trim_prefix}
use v2ray_platform.Domain.{CloudFrontBinding}
use v2ray_platform.CloudFront.{
  OriginState, BehaviorState, DistributionState, RouteAction, RewriteRoute,
}
use v2ray_platform.CloudFront.Plan.{
  RouteState, SyncPlan, text_of, planned, plan_route, plan_binding, plan_bindings, plan_removal,
  plan_removals, plan_loops, plan_of, or_noop, plan, origin_by_id, route_state,
  current_by_route_key, desired_by_route_key,
}

abbrev managed_at : Option RouteState → Bool
managed_at none = false
managed_at (some c) = c.managed

-- An action may add a route where there is none, and may replace or remove one that is managed.
abbrev pub respects : Map RouteState → RouteAction → Bool
respects current a =
    if (a.action == "conflict") || a.action == "noop"
    then true
    else if a.action == "add_route"
    then not (is_some (lookup a.route_key current))
    else managed_at (lookup a.route_key current)

abbrev Respects : Map RouteState → List RouteAction → Type 0
Respects current as' = All (λ a. respects current a ≡ true) as'

module _ (hosts paths : Map String) (current : Map RouteState) where
  plan_route-Respects :
      (key : String) (b : CloudFrontBinding) (p : SyncPlan) (r : List RewriteRoute)
      (o : Option RouteState)
      → lookup key current ≡ o
      → Respects current p.actions
      → Respects current (plan_route hosts paths current key b p r o).actions
  unfolding plan_route planned
  plan_route-Respects key b p r none found h =
      All-append (λ a. respects current a ≡ true) p.actions _ h (rw (found), tt)
  plan_route-Respects key b p r (some c) found h = elim (Bool-cases c.managed) [
    | inr wild ↦ rw (wild) (All-append (λ a. respects current a ≡ true) p.actions _ h (refl, tt))
    | inl ours ↦
        elim (Bool-cases (
          not (c.origin_id == b.origin_id)
          || not (c.host == trim_space (text_of (lookup b.node_id hosts))))) [
            | inl moved ↦
                rw (ours, moved)
                  (All-append (λ a. respects current a ≡ true) p.actions _ h (rw (found) ours, tt))
            | inr same ↦ rw (ours, same) h
          ]
  ]

  plan_binding-Respects :
      (key : String) (b : CloudFrontBinding) (p : SyncPlan)
      → Respects current p.actions
      → Respects current (plan_binding hosts paths current key b p).actions
  unfolding plan_binding planned
  plan_binding-Respects key b p h =
      elim (Bool-cases (trim_space (text_of (lookup b.node_id hosts)) == "")) [
        | inl lost ↦
            rw (lost) (All-append (λ a. respects current a ≡ true) p.actions _ h (refl, tt))
        | inr known ↦ rw (known) (plan_route-Respects key b p _ (lookup key current) refl h)
      ]

  plan_bindings-Respects :
      (m : Map CloudFrontBinding) (p : SyncPlan)
      → Respects current p.actions
      → Respects current (plan_bindings hosts paths current m p).actions
  unfolding plan_bindings
  plan_bindings-Respects [] p h = h
  plan_bindings-Respects ((key, b) ∷ rest) p h =
      plan_bindings-Respects rest (plan_binding hosts paths current key b p)
        (plan_binding-Respects key b p h)

plan_removal-Respects :
    (desired : Map CloudFrontBinding) (current : Map RouteState) (key : String) (c : RouteState)
    (p : SyncPlan)
    → lookup key current ≡ some c
    → Respects current p.actions
    → Respects current (plan_removal desired key c p).actions
unfolding plan_removal planned
plan_removal-Respects desired current key c p found h =
    elim (Bool-cases (is_some (lookup key desired) || not c.managed)) [
      | inl stays ↦ rw (stays) h
      | inr goes ↦
          let ours : c.managed ≡ true = ground arith in
          rw (goes)
            (All-append (λ a. respects current a ≡ true) p.actions _ h (rw (found) ours, tt))
    ]

plan_removals-Respects :
    (desired : Map CloudFrontBinding) (current rest : Map RouteState) (p : SyncPlan)
    → All (λ e. lookup e.0 current ≡ some e.1) rest
    → Respects current p.actions
    → Respects current (plan_removals desired rest p).actions
unfolding plan_removals
plan_removals-Respects desired current [] p found h = h
plan_removals-Respects desired current ((key, c) ∷ rest) p found h =
    plan_removals-Respects desired current rest (plan_removal desired key c p) found.1
      (plan_removal-Respects desired current key c p found.0 h)

lookup-skip :
    (k : String) (v : RouteState) (m rest : Map RouteState)
    → contains (keys rest) k ≡ false
    → All (λ e. lookup e.0 m ≡ some e.1) rest
    → All (λ e. lookup e.0 ((k, v) ∷ m) ≡ some e.1) rest
unfolding lookup contains
lookup-skip k v m [] fresh h = tt
lookup-skip k v m ((j, w) ∷ rest) fresh h =
    (ground (arith, eq_iff k j, eq_iff j k), lookup-skip k v m rest (ground arith) h.1)

-- Every entry of a map is what a lookup of its key finds.
entries-lookup : (m : Map RouteState) → Distinct (keys m) → All (λ e. lookup e.0 m ≡ some e.1) m
unfolding lookup
entries-lookup [] d = tt
entries-lookup ((k, v) ∷ m) d = (rw (eq_refl), lookup-skip k v m m d.0 (entries-lookup m d.1))

or_noop-Respects :
    (current : Map RouteState) (as' : List RouteAction)
    → Respects current as'
    → Respects current (or_noop as')
unfolding or_noop
or_noop-Respects current [] h = (refl, tt)
or_noop-Respects current (a ∷ rest) h = h

pub current-Distinct :
    (origins : Map OriginState) (bs : List BehaviorState) (m : Map RouteState)
    → Distinct (keys m)
    → Distinct (keys (current_by_route_key origins bs m))
unfolding current_by_route_key
current-Distinct origins [] m d = d
current-Distinct origins (b ∷ rest) m d =
    let key : String = trim_prefix (trim_space b.path_pattern) "/" in
    current-Distinct origins rest
      (if key == "" then m else insert key (route_state origins key b) m)
      (elim (Bool-cases (key == "")) [
        | inl blank ↦ rw (blank) d
        | inr named ↦ rw (named) (insert-Distinct key (route_state origins key b) m d)
      ])

-- In whatever order the routes and bindings are visited, a plan adds a route only where the
-- distribution has none, and replaces or removes only routes to managed origins.
pub plan_of-respects :
    (desired : Map CloudFrontBinding) (current : Map RouteState) (hosts paths : Map String)
    → Distinct (keys current)
    → All (λ a. respects current a ≡ true) (plan_of desired current hosts paths).actions
unfolding plan_of plan_loops
plan_of-respects desired current hosts paths d =
    or_noop-Respects current (plan_loops desired current hosts paths).actions (
      plan_removals-Respects desired current current
        (plan_bindings hosts paths current desired
          (record { actions = []; rewrite_routes = []; drift_status = "in_sync" }))
        (entries-lookup current d)
        (plan_bindings-Respects hosts paths current desired
          (record { actions = []; rewrite_routes = []; drift_status = "in_sync" }) tt))

-- The plan for any bindings and any distribution adds a route only where the distribution has none,
-- and replaces or removes only routes to managed origins.
pub plan-respects :
    (bindings : List CloudFrontBinding) (dist : DistributionState) (hosts paths : Map String)
    → All
        (λ a.
          respects (current_by_route_key (origin_by_id dist.origins []) dist.behaviors []) a ≡ true)
        (plan bindings dist hosts paths).actions
unfolding plan
plan-respects bindings dist hosts paths =
    plan_of-respects (desired_by_route_key bindings [])
      (current_by_route_key (origin_by_id dist.origins []) dist.behaviors []) hosts paths
      (current-Distinct (origin_by_id dist.origins []) dist.behaviors [] tt)
