-- ===== src/Store/Rebuild/Entitlement.antt =====
-- Who is in the configuration that `rebuildNodeConfigLocked` renders.
use v2ray_platform.Base.{
  String, ◌≡◌, refl, Bool, true, false, ◌&&◌, ◌||◌, Option, none, some, List, [], ◌∷◌, ◌++◌, map,
  arith, ◌==◌, eq_iff, contains, contains-append, any_of, Distinct, Distinct-append_one, ap, ◌∙◌,
  Bool-cases, inl, inr, subst, sym, if◌then◌else◌, ltb,
}
use mathlib.Core.List.{map-append, append_assoc}
use v2ray_platform.Base.Sort.{contains-sort_slice, Distinct-sort_slice}
use v2ray_platform.Maps.{Map, values, lookup}
use v2ray_platform.Domain.{Time, Member, NodeCredential}
use v2ray_platform.Store.State.{MemoryStore}
use v2ray_platform.Store.Rebuild.{
  Collected, add, passes, is_live, keys_of, direct_step, direct_loop, group_step, group_member,
  derived, members_loop, groups_loop, collect, config_credentials,
}

-- a member that is there and live
unfoldable pub live_member : Time → Option Member → Bool
unfolding is_live
live_member now none = false
live_member now (some m) = is_live now m

module _ (s : MemoryStore) (node_id : String) (now : Time) (member_id : String) where
  -- a stored credential of the member for the node counts, unless the member is there and not live
  unfoldable pub counts : NodeCredential → Bool
  counts c =
      (c.node_id == node_id && passes now (lookup c.member_id s.members))
      && c.member_id == member_id

  unfoldable pub entitled_directly : Bool
  unfolding counts
  entitled_directly = any_of counts (values s.credentials)

  -- the member is live, and some group of the node grants it access
  unfoldable pub entitled_by_group : Bool
  unfolding live_member
  entitled_by_group =
      live_member now (lookup member_id s.members)
      && any_of (λ g. contains (keys_of (lookup g s.group_grants)) member_id)
          (keys_of (lookup node_id s.node_group_nodes))

  seen-direct_step :
      (c : NodeCredential) (acc : Collected)
      → contains (direct_step s node_id now c acc).seen member_id
        ≡ (contains acc.seen member_id || counts c)
  unfolding direct_step counts contains
  seen-direct_step c acc = ground (arith, contains-append acc.seen (c.member_id ∷ []) member_id)

  seen-direct_loop :
      (m : Map NodeCredential) (acc : Collected)
      → contains (direct_loop s node_id now m acc).seen member_id
        ≡ (contains acc.seen member_id || any_of counts (values m))
  unfolding direct_loop any_of
  seen-direct_loop [] acc = ground arith
  seen-direct_loop ((k, c) ∷ rest) acc =
      ground
        (arith, seen-direct_loop rest (direct_step s node_id now c acc), seen-direct_step c acc)

  seen-group_step :
      (g m : String) (acc : Collected)
      → contains (group_step s node_id now g m acc).seen member_id ≡ (
          contains acc.seen member_id
          || (m == member_id && live_member now (lookup member_id s.members)))
  unfolding group_step live_member contains
  seen-group_step g m acc =
      ground (arith, eq_iff m member_id, contains-append acc.seen (m ∷ []) member_id)

  seen-members_loop :
      (g : String) (ms : List String) (acc : Collected)
      → contains (members_loop s node_id now g ms acc).seen member_id ≡ (
          contains acc.seen member_id
          || (live_member now (lookup member_id s.members) && contains ms member_id))
  unfolding members_loop contains
  seen-members_loop g [] acc = ground arith
  seen-members_loop g (m ∷ ms) acc =
      ground
        (arith, seen-members_loop g ms (group_step s node_id now g m acc), seen-group_step g m acc)

  seen-groups_loop :
      (gs : List String) (acc : Collected)
      → contains (groups_loop s node_id now gs acc).seen member_id ≡ (
          contains acc.seen member_id
          || (live_member now (lookup member_id s.members)
              && any_of (λ g. contains (keys_of (lookup g s.group_grants)) member_id) gs))
  unfolding groups_loop any_of
  seen-groups_loop [] acc = ground arith
  seen-groups_loop (g ∷ gs) acc =
      let ms : List String = keys_of (lookup g s.group_grants) in
      ground (
        arith,
        seen-groups_loop gs (members_loop s node_id now g ms acc),
        seen-members_loop g ms acc,
      )

  seen-collect :
      contains (collect s node_id now).seen member_id ≡ (entitled_directly || entitled_by_group)
  unfolding collect entitled_directly entitled_by_group contains
  seen-collect =
      let start : Collected = record { creds = []; seen = [] } in
      seen-groups_loop (keys_of (lookup node_id s.node_group_nodes))
        (direct_loop s node_id now s.credentials start)
      ∙ ap
          (λ (b : Bool).
            b
            || (live_member now (lookup member_id s.members)
                && any_of (λ g. contains (keys_of (lookup g s.group_grants)) member_id)
                    (keys_of (lookup node_id s.node_group_nodes))))
          (seen-direct_loop s.credentials start)

-- `seenMembers` holds the members of `creds`, each once.
abbrev IsTracked : Collected → Type 0
IsTracked acc = (acc.seen ≡ map (λ c. c.member_id) acc.creds) × Distinct acc.seen

-- the members of the stored credentials of a node
unfoldable pub direct_members : String → Map NodeCredential → List String
direct_members node_id [] = []
direct_members node_id ((k, c) ∷ m) =
    let rest = direct_members node_id m in if c.node_id == node_id then c.member_id ∷ rest else rest

Distinct-drop_middle :
    (xs : List String) (y : String) (zs : List String)
    → Distinct (xs ++ y ∷ zs)
    → Distinct (xs ++ zs)
unfolding contains
Distinct-drop_middle [] y zs d = d.1
Distinct-drop_middle (x ∷ xs) y zs d = (
  ground (arith, contains-append xs (y ∷ zs) x, contains-append xs zs x, d.0),
  Distinct-drop_middle xs y zs d.1,
)

Distinct-left : (xs ys : List String) → Distinct (xs ++ ys) → Distinct xs
Distinct-left [] ys d = tt
Distinct-left (x ∷ xs) ys d =
    (ground (arith, contains-append xs ys x, d.0), Distinct-left xs ys d.1)

module _ (s : MemoryStore) (node_id : String) (now : Time) where
  add-tracks :
      (c : NodeCredential) (acc : Collected)
      → acc.seen ≡ map (λ c. c.member_id) acc.creds
      → (add c acc).seen ≡ map (λ c. c.member_id) (add c acc).creds
  unfolding add
  add-tracks c acc h = rw (h, map-append) refl

  direct_step_skipped :
      (c : NodeCredential) (acc : Collected)
      → (c.node_id == node_id && passes now (lookup c.member_id s.members)) ≡ false
      → direct_step s node_id now c acc ≡ acc
  unfolding direct_step
  direct_step_skipped c acc h = rw h

  direct_step-add :
      (c : NodeCredential) (acc : Collected)
      → c.node_id == node_id ≡ true
      → passes now (lookup c.member_id s.members) ≡ true
      → direct_step s node_id now c acc ≡ add c acc
  unfolding direct_step
  direct_step-add c acc h k = rw (h, k)

  -- the loop goes on from what the step has left
  after_step :
      (k : String) (c : NodeCredential) (rest : Map NodeCredential) (acc acc' : Collected)
      → direct_step s node_id now c acc ≡ acc'
      → IsTracked (direct_loop s node_id now rest acc')
      → IsTracked (direct_loop s node_id now ((k, c) ∷ rest) acc)
  unfolding direct_loop
  after_step k c rest acc acc' e h =
      subst (λ a. IsTracked (direct_loop s node_id now rest a)) (sym e) h

  direct_loop-IsTracked :
      (m : Map NodeCredential) (acc : Collected)
      → acc.seen ≡ map (λ c. c.member_id) acc.creds
      → Distinct (acc.seen ++ direct_members node_id m)
      → IsTracked (direct_loop s node_id now m acc)
  unfolding direct_loop direct_members
  direct_loop-IsTracked [] acc h d = (h, Distinct-left acc.seen [] d)
  direct_loop-IsTracked ((k, c) ∷ rest) acc h d = elim (Bool-cases (c.node_id == node_id)) [
    | inr other ↦
        after_step k c rest acc acc (direct_step_skipped c acc (rw other))
          (direct_loop-IsTracked rest acc h (rw other at d))
    | inl here ↦ elim (Bool-cases (passes now (lookup c.member_id s.members))) [
      | inr no_pass ↦ after_step k c rest acc acc (direct_step_skipped c acc (rw (here, no_pass))) (
          direct_loop-IsTracked rest acc h (
            Distinct-drop_middle acc.seen c.member_id (direct_members node_id rest) (rw here at d)))
      | inl pass ↦ after_step k c rest acc (add c acc) (direct_step-add c acc here pass) (
          direct_loop-IsTracked rest (add c acc) (add-tracks c acc h)
            (unfold add in rw append_assoc (rw here at d)))
    ]
  ]

  group_step-IsTracked :
      (g m : String) (acc : Collected)
      → IsTracked acc
      → IsTracked (group_step s node_id now g m acc)
  unfolding group_step
  group_step-IsTracked g m acc h = elim (Bool-cases (contains acc.seen m)) [
    | inl old ↦ rw old h
    | inr new ↦ rw new (group_member-IsTracked g m acc h new (lookup m s.members))
  ]
    where
      group_member-IsTracked :
          (g m : String) (acc : Collected)
          → IsTracked acc
          → contains acc.seen m ≡ false
          → (o : Option Member) → IsTracked (group_member s node_id now g m o acc)
      group_member-IsTracked g m acc h new none = h
      group_member-IsTracked g m acc h new (some member) = elim (Bool-cases (is_live now member)) [
        | inl live ↦ rw live (
          add-tracks (derived s node_id now g m member) acc h.0,
          Distinct-append_one acc.seen m h.1 new,
        )
        | inr dead ↦ rw dead h
      ]

  members_loop-IsTracked :
      (g : String) (ms : List String) (acc : Collected)
      → IsTracked acc
      → IsTracked (members_loop s node_id now g ms acc)
  unfolding members_loop
  members_loop-IsTracked g [] acc h = h
  members_loop-IsTracked g (m ∷ ms) acc h =
      members_loop-IsTracked g ms (group_step s node_id now g m acc)
        (group_step-IsTracked g m acc h)

  groups_loop-IsTracked :
      (gs : List String) (acc : Collected)
      → IsTracked acc
      → IsTracked (groups_loop s node_id now gs acc)
  unfolding groups_loop
  groups_loop-IsTracked [] acc h = h
  groups_loop-IsTracked (g ∷ gs) acc h =
      groups_loop-IsTracked gs
        (members_loop s node_id now g (keys_of (lookup g s.group_grants)) acc)
        (members_loop-IsTracked g (keys_of (lookup g s.group_grants)) acc h)

  collect-IsTracked :
      Distinct (direct_members node_id s.credentials) → IsTracked (collect s node_id now)
  unfolding collect
  collect-IsTracked d =
      groups_loop-IsTracked (keys_of (lookup node_id s.node_group_nodes))
        (direct_loop s node_id now s.credentials (record { creds = []; seen = [] }))
        (direct_loop-IsTracked s.credentials (record { creds = []; seen = [] }) refl d)

  -- If no member has two stored credentials for a node, then the configuration of the node has a
  -- credential of exactly the members that are entitled, directly or by a group, and one of each.
  pub config_credentials-entitled :
      Distinct (direct_members node_id s.credentials)
      → Distinct (map (λ c. c.member_id) (config_credentials s node_id now))
        × ((member_id : String)
            → contains (map (λ c. c.member_id) (config_credentials s node_id now)) member_id ≡ (
                entitled_directly s node_id now member_id
                || entitled_by_group s node_id now member_id))
  unfolding config_credentials
  config_credentials-entitled d = (
    Distinct-sort_slice older (λ c. c.member_id) (collect s node_id now).creds
        (rw (← tracked.0) tracked.1),
    λ member_id.
        contains-sort_slice older (λ c. c.member_id) (collect s node_id now).creds member_id
        ∙ rw (← tracked.0) (seen-collect s node_id now member_id),
  )
    where
      older : NodeCredential → NodeCredential → Bool
      older a b = ltb a.created_at b.created_at

      tracked : IsTracked (collect s node_id now)
      tracked = collect-IsTracked d
