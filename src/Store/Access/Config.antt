-- ===== src/Store/Access/Config.antt =====
-- Who can connect to a node whose configuration is rendered from a store that keeps the invariant.
use v2ray_platform.Base.{
  String, ◌≡◌, refl, true, ◌&&◌, Option, none, some, List, [], ◌∷◌, arith, ◌==◌, eq_iff, ltb, All,
  All-append, Bool-cases, inl, inr, contains,
}
use v2ray_platform.Base.Sort.{sort_slice-All}
use v2ray_platform.Maps.{Map, values, lookup}
use v2ray_platform.Domain.{Time, Member, NodeCredential}
use v2ray_platform.Store.State.{MemoryStore}
use v2ray_platform.Store.Rebuild.{
  Collected, add, is_live, passes, keys_of, derived, direct_step, direct_loop, group_member,
  group_step, members_loop, groups_loop, collect, config_credentials,
}
use v2ray_platform.Store.Access.{IsSound, HasConsistentAccess}

-- a credential for the node, of a member that is stored, active and not expired, with its UUID
pub record IsLiveUser (s : MemoryStore) (node_id : String) (now : Time) (c : NodeCredential)
    : Type 0 where
  pub for_node : c.node_id ≡ node_id
  pub member : Member
  pub present : lookup c.member_id s.members ≡ some member
  pub live : is_live now member ≡ true
  pub same_uuid : c.uuid ≡ member.uuid

module _ (s : MemoryStore) (node_id : String) (now : Time) where
  abbrev Live : Collected → Type 0
  Live acc = All (IsLiveUser s node_id now) acc.creds

  add-Live :
      (c : NodeCredential) (acc : Collected)
      → IsLiveUser s node_id now c
      → Live acc
      → Live (add c acc)
  unfolding add
  add-Live c acc x h = All-append (IsLiveUser s node_id now) acc.creds (c ∷ []) h (x, tt)

  direct_step-Live :
      (c : NodeCredential) (acc : Collected)
      → IsSound s.grants s.members c
      → Live acc
      → Live (direct_step s node_id now c acc)
  unfolding direct_step passes
  direct_step-Live c acc x h =
      elim (Bool-cases (c.node_id == node_id && passes now (lookup c.member_id s.members))) [
        | inr skip ↦ rw skip h
        | inl hit ↦ rw hit (
            add-Live c acc
              (record {
                for_node = ground (arith, eq_iff c.node_id node_id);
                member = x.member;
                present = x.present;
                live = ground (arith, x.present);
                same_uuid = x.same_uuid;
              })
              h)
      ]

  direct_loop-Live :
      (m : Map NodeCredential) (acc : Collected)
      → All (IsSound s.grants s.members) (values m)
      → Live acc
      → Live (direct_loop s node_id now m acc)
  unfolding direct_loop
  direct_loop-Live [] acc x h = h
  direct_loop-Live ((k, c) ∷ m) acc x h =
      direct_loop-Live m (direct_step s node_id now c acc) x.1 (direct_step-Live c acc x.0 h)

  group_member-Live :
      (g id : String) (o : Option Member) (acc : Collected)
      → lookup id s.members ≡ o
      → Live acc
      → Live (group_member s node_id now g id o acc)
  unfolding group_member derived
  group_member-Live g id none acc e h = h
  group_member-Live g id (some m) acc e h = elim (Bool-cases (is_live now m)) [
    | inr dead ↦ rw dead h
    | inl live ↦ rw live (
        add-Live (derived s node_id now g id m) acc
          (record { for_node = refl; member = m; present = e; live = live; same_uuid = refl }) h)
  ]

  group_step-Live :
      (g id : String) (acc : Collected) → Live acc → Live (group_step s node_id now g id acc)
  unfolding group_step
  group_step-Live g id acc h = elim (Bool-cases (contains acc.seen id)) [
    | inl old ↦ rw old h
    | inr new ↦ rw new (group_member-Live g id (lookup id s.members) acc refl h)
  ]

  members_loop-Live :
      (g : String) (ids : List String) (acc : Collected)
      → Live acc
      → Live (members_loop s node_id now g ids acc)
  unfolding members_loop
  members_loop-Live g [] acc h = h
  members_loop-Live g (id ∷ ids) acc h =
      members_loop-Live g ids (group_step s node_id now g id acc) (group_step-Live g id acc h)

  groups_loop-Live :
      (gs : List String) (acc : Collected) → Live acc → Live (groups_loop s node_id now gs acc)
  unfolding groups_loop
  groups_loop-Live [] acc h = h
  groups_loop-Live (g ∷ gs) acc h =
      let ids : List String = keys_of (lookup g s.group_grants) in
      groups_loop-Live gs (members_loop s node_id now g ids acc) (members_loop-Live g ids acc h)

  -- In a store with consistent access, every credential that a node's configuration is rendered
  -- from is for that node and has the UUID of a stored member that is active and not expired.
  pub config_credentials-IsLiveUser :
      HasConsistentAccess s → All (IsLiveUser s node_id now) (config_credentials s node_id now)
  unfolding config_credentials collect
  config_credentials-IsLiveUser h =
      sort_slice-All (λ a b. ltb a.created_at b.created_at) (IsLiveUser s node_id now)
        (collect s node_id now).creds
        (groups_loop-Live (keys_of (lookup node_id s.node_group_nodes))
          (direct_loop s node_id now s.credentials (record { creds = []; seen = [] }))
          (direct_loop-Live s.credentials (record { creds = []; seen = [] }) h.sound tt))
