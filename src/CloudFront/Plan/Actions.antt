-- ===== src/CloudFront/Plan/Actions.antt =====
-- What the actions of a plan ask of the routes of a distribution.
use v2ray_platform.Base.{
  String, ◌≡◌, refl, ◌∙◌, Bool, true, false, not, ◌||◌, Option, none, some, List, [], ◌∷◌, ◌++◌,
  arith, ◌==◌, if◌then◌else◌,
}
use v2ray_platform.CloudFront.{RouteAction, RewriteRoute}
use v2ray_platform.CloudFront.Plan.{RouteState, SyncPlan, planned}

-- where a route leads: an origin and its host
abbrev pub Target : Type 0
Target = String × String

-- What an action asks of the routes; `conflict` and `noop` ask nothing.
unfoldable pub after_action : RouteAction → String → Option Target → Option Target
after_action a key o =
    if not (a.route_key == key)
    then o
    else if (a.action == "add_route") || a.action == "replace_route"
    then some (a.origin_id, a.host)
    else if a.action == "remove_route"
    then none
    else o

-- the target of a route after a list of actions
unfoldable pub after_actions : List RouteAction → String → Option Target → Option Target
unfolding after_action
after_actions [] key o = o
after_actions (a ∷ rest) key o = after_actions rest key (after_action a key o)

pub after_actions-append_one :
    (xs : List RouteAction) (a : RouteAction) (key : String) (o : Option Target)
    → after_actions (xs ++ a ∷ []) key o ≡ after_action a key (after_actions xs key o)
unfolding after_actions
after_actions-append_one [] a key o = refl
after_actions-append_one (x ∷ xs) a key o = after_actions-append_one xs a key (after_action x key o)

abbrev pub target_of : Option RouteState → Option Target
target_of none = none
target_of (some c) = some (c.origin_id, c.host)

abbrev pub managed_or_free : Option RouteState → Bool
managed_or_free none = true
managed_or_free (some c) = c.managed

pub planned-other :
    (p : SyncPlan) (r : List RewriteRoute) (a : RouteAction) (d k : String) (t : Option Target)
    → (a.route_key == k) ≡ false
    → after_actions (planned p r a d).actions k t ≡ after_actions p.actions k t
unfolding planned after_action
planned-other p r a d k t h = after_actions-append_one p.actions a k t ∙ rw (h)

conflict-asks :
    (a : RouteAction) (k : String) (t : Option Target)
    → a.action ≡ "conflict"
    → after_action a k t ≡ t
unfolding after_action
conflict-asks a k t h = rw (h) (ground arith)

pub planned-conflict :
    (p : SyncPlan) (r : List RewriteRoute) (a : RouteAction) (d k : String) (t : Option Target)
    → a.action ≡ "conflict"
    → after_actions (planned p r a d).actions k t ≡ after_actions p.actions k t
unfolding planned after_action
planned-conflict p r a d k t h = after_actions-append_one p.actions a k t ∙ conflict-asks a k _ h
