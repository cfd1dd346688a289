-- ===== src/CloudFront/Plan/Bindings.antt =====
-- What the loop of `Plan` over the bindings asks of each route.
use v2ray_platform.Base.{
  String, ◌≡◌, refl, ◌∙◌, ap, false, not, ◌&&◌, ◌||◌, Option, none, some, List, [], ◌∷◌, arith,
  ◌==◌, eq_iff, eq_refl, if◌then◌else◌, Bool-cases, inl, inr, Distinct,
}
use v2ray_platform.Maps.{Map, keys, lookup, contains-keys}
use v2ray_platform.Domain.{CloudFrontBinding}
use v2ray_platform.CloudFront.{RewriteRoute}
use v2ray_platform.CloudFront.Plan.{
  RouteState, SyncPlan, host_of, planned, plan_route, plan_binding, plan_bindings,
}
use v2ray_platform.CloudFront.Plan.Actions.{
  Target, after_action, after_actions, after_actions-append_one, planned-other, planned-conflict,
  target_of, managed_or_free,
}

pair : {a b c d : String} → a ≡ b → c ≡ d → ◌≡◌ {A = Target} (a, c) (b, d)
pair h k = cc

module _ (hosts paths : Map String) (current : Map RouteState) where
  -- The target that a binding asks for, if nothing is in its way.
  abbrev pub wanted : CloudFrontBinding → Option RouteState → Option Target
  wanted b o =
      if not (host_of hosts paths current b == "") && managed_or_free o
      then some (b.origin_id, host_of hosts paths current b)
      else target_of o

  plan_route-other :
      (key k : String) (b : CloudFrontBinding) (p : SyncPlan) (r : List RewriteRoute)
      (o : Option RouteState) (t : Option Target)
      → (key == k) ≡ false
      → after_actions (plan_route hosts paths current key b p r o).actions k t
        ≡ after_actions p.actions k t
  unfolding plan_route
  plan_route-other key k b p r none t h = planned-other p r _ "drifted" k t h
  plan_route-other key k b p r (some c) t h = elim (Bool-cases c.managed) [
    | inr wild ↦ rw (wild) (planned-other p r _ "conflict" k t h)
    | inl ours ↦
        elim (Bool-cases
          (not (c.origin_id == b.origin_id) || not (c.host == host_of hosts paths current b))) [
            | inl moved ↦ rw (ours, moved) (planned-other p r _ "drifted" k t h)
            | inr same ↦ rw (ours, same)
          ]
  ]

  plan_route_self :
      (key : String) (b : CloudFrontBinding) (p : SyncPlan) (r : List RewriteRoute)
      (o : Option RouteState)
      → (host_of hosts paths current b == "") ≡ false
      → after_actions p.actions key (target_of o) ≡ target_of o
      → after_actions (plan_route hosts paths current key b p r o).actions key (target_of o)
        ≡ wanted b o
  unfolding plan_route planned after_action
  plan_route_self key b p r none named h =
      after_actions-append_one p.actions _ key none ∙ rw (eq_refl key, named)
  plan_route_self key b p r (some c) named h = elim (Bool-cases c.managed) [
    | inr wild ↦
        rw (wild, named)
          (after_actions-append_one p.actions _ key (some (c.origin_id, c.host))
            ∙ rw (eq_refl key) h)
    | inl ours ↦
        elim (Bool-cases
          (not (c.origin_id == b.origin_id) || not (c.host == host_of hosts paths current b))) [
            | inl moved ↦
                rw (ours, moved, named)
                  (after_actions-append_one p.actions _ key (some (c.origin_id, c.host))
                    ∙ rw (eq_refl key))
            | inr same ↦
                let origin : c.origin_id ≡ b.origin_id =
                  ground (arith, eq_iff c.origin_id b.origin_id) in
                let host : c.host ≡ host_of hosts paths current b =
                  ground (arith, eq_iff c.host (host_of hosts paths current b)) in
                rw (ours, same, named) (h ∙ ap some (pair origin host))
          ]
  ]

  plan_binding-other :
      (key k : String) (b : CloudFrontBinding) (p : SyncPlan) (t : Option Target)
      → (key == k) ≡ false
      → after_actions (plan_binding hosts paths current key b p).actions k t
        ≡ after_actions p.actions k t
  unfolding plan_binding
  plan_binding-other key k b p t h = elim (Bool-cases (host_of hosts paths current b == "")) [
    | inl lost ↦ rw (lost) (planned-other p p.rewrite_routes _ "conflict" k t h)
    | inr known ↦ rw (known) (plan_route-other key k b p _ (lookup key current) t h)
  ]

  plan_binding_self :
      (key : String) (b : CloudFrontBinding) (p : SyncPlan)
      → after_actions p.actions key (target_of (lookup key current))
        ≡ target_of (lookup key current)
      → after_actions
          (plan_binding hosts paths current key b p).actions
          key
          (target_of (lookup key current))
        ≡ wanted b (lookup key current)
  unfolding plan_binding
  plan_binding_self key b p h = elim (Bool-cases (host_of hosts paths current b == "")) [
    | inl lost ↦ rw (lost) (
        planned-conflict p p.rewrite_routes _ "conflict" key (target_of (lookup key current)) refl
        ∙ h)
    | inr known ↦ rw (known) (plan_route_self key b p _ (lookup key current) known h ∙ rw (known))
  ]

  pub plan_bindings-other :
      (m : Map CloudFrontBinding) (k : String) (p : SyncPlan) (t : Option Target)
      → lookup k m ≡ none
      → after_actions (plan_bindings hosts paths current m p).actions k t
        ≡ after_actions p.actions k t
  unfolding plan_bindings lookup
  plan_bindings-other [] k p t h = refl
  plan_bindings-other ((key, b) ∷ rest) k p t h =
      plan_bindings-other rest k (plan_binding hosts paths current key b p) t (ground arith)
      ∙ plan_binding-other key k b p t (ground arith)

  pub plan_bindings_self :
      (m : Map CloudFrontBinding) (k : String) (b : CloudFrontBinding) (p : SyncPlan)
      → Distinct (keys m)
      → lookup k m ≡ some b
      → after_actions p.actions k (target_of (lookup k current)) ≡ target_of (lookup k current)
      → after_actions
          (plan_bindings hosts paths current m p).actions
          k
          (target_of (lookup k current))
        ≡ wanted b (lookup k current)
  unfolding plan_bindings lookup
  plan_bindings_self [] k b p d found h = cc
  plan_bindings_self ((key, v) ∷ rest) k b p d found h = elim (Bool-cases (key == k)) [
    | inr other ↦
        plan_bindings_self rest k b (plan_binding hosts paths current key v p) d.1 (ground arith)
          (plan_binding-other key k v p (target_of (lookup k current)) other ∙ h)
    | inl here ↦
        let same : key ≡ k = (eq_iff key k).0 here in
        let value : v ≡ b = ground arith in
        let gone : lookup k rest ≡ none = ground (arith, d.0, contains-keys k rest) in
        plan_bindings-other rest k (plan_binding hosts paths current key v p)
          (target_of (lookup k current)) gone
        ∙ rw (same, value) (plan_binding_self k b p h)
  ]
