-- ===== src/Store/Groups.antt =====
-- internal/store/memory.go: node groups, the groups of a node, and the grants of a group.
use v2ray_platform.Base.{
  ℕ, suc, ◌&&◌, String, Option, none, some, List, [], ◌∷◌, ◌++◌, ltb, if◌then◌else◌, is_some,
}
use v2ray_platform.Base.Result.{Result, ok, err, not_found}
use v2ray_platform.Base.Sort.{sort_slice}
use v2ray_platform.Base.Text.{trim_space}
use v2ray_platform.Maps.{Map, values, lookup, insert, delete}
use v2ray_platform.Domain.{Time, Member, NodeGroup, NodeGroupMembership, GroupGrantView}
use v2ray_platform.Store.State.{MemoryStore, Method, Env, new_id}
use v2ray_platform.Store.Rebuild.{rebuild_node_config_locked, rebuild_all, after_rebuild}

unfoldable pub create_node_group : Env → String → String → Method NodeGroup
unfolding new_id
create_node_group e name description s =
    let group : NodeGroup = record {
      id = new_id e "group" 0;
      name = trim_space name;
      description = trim_space description;
      created_at = e.clock 0;
      updated_at = e.clock 0;
    } in
    (ok group, record s { node_groups = insert group.id group s.node_groups })

unfoldable pub update_group_found :
    Env → String → String → String → MemoryStore → Option NodeGroup → Result NodeGroup × MemoryStore
update_group_found e group_id name description s none = (err not_found, s)
update_group_found e group_id name description s (some g) =
    let group = record g {
      name = trim_space name;
      description = trim_space description;
      updated_at = e.clock 0;
    } in
    (ok group, record s { node_groups = insert group_id group s.node_groups })

unfoldable pub update_node_group : Env → String → String → String → Method NodeGroup
unfolding update_group_found
update_node_group e group_id name description s =
    update_group_found e group_id name description s (lookup group_id s.node_groups)

-- the nodes that a group is set for, in the order of a `range` over `nodeGroupNodes`
unfoldable pub nodes_of_group : String → Map (Map Time) → List String
nodes_of_group group_id [] = []
nodes_of_group group_id ((node_id, groups) ∷ m) =
    let rest = nodes_of_group group_id m in
    if is_some (lookup group_id groups) then node_id ∷ rest else rest

-- `delete(groups, groupID)`, and the node's entry with it when no group is left
unfoldable pub drop_group : String → String → Map Time → Map (Map Time) → Map (Map Time)
drop_group node_id group_id groups m = elim (delete group_id groups) [
  | [] ↦ delete node_id m
  | g ∷ rest ↦ insert node_id (g ∷ rest) m
]

-- one round of the loop of `DeleteNodeGroup` for a node that has the group
unfoldable pub leave_group : Env → String → MemoryStore → Option (Map Time) → String → MemoryStore
unfolding drop_group
leave_group e group_id s none node_id = s
leave_group e group_id s (some groups) node_id = record s {
  node_group_nodes = drop_group node_id group_id groups s.node_group_nodes;
}

unfoldable pub leave_groups : Env → ℕ → String → List String → Method (Unit {0})
unfolding leave_group
leave_groups e i group_id [] s = (ok tt, s)
leave_groups e i group_id (node_id ∷ rest) s =
    after_rebuild (leave_groups e (suc i) group_id rest) (
      rebuild_node_config_locked node_id (e.clock i)
        (leave_group e group_id s (lookup node_id s.node_group_nodes) node_id))

unfoldable pub delete_node_group : Env → String → Method (Unit {0})
unfolding leave_groups nodes_of_group
delete_node_group e group_id s =
    if is_some (lookup group_id s.node_groups)
    then leave_groups e 0 group_id (nodes_of_group group_id s.node_group_nodes) (record s {
      node_groups = delete group_id s.node_groups;
      group_grants = delete group_id s.group_grants;
    })
    else (err not_found, s)

unfoldable pub list_node_groups : MemoryStore → List NodeGroup
list_node_groups s = sort_slice (λ a b. ltb a.created_at b.created_at) (values s.node_groups)

-- the loop that checks the groups and builds the map `next`; `none` is the early return
unfoldable pub next_groups : Time → Map NodeGroup → List String → Map Time → Option (Map Time)
next_groups now known [] next = some next
next_groups now known (group_id ∷ rest) next =
    if is_some (lookup group_id known)
    then next_groups now known rest (insert group_id now next)
    else none

unfoldable pub dropping {ℓ} :
    {A : Type ℓ} → Result A × MemoryStore → Result (Unit {0}) × MemoryStore
dropping (ok a, s) = (ok tt, s)
dropping (err e, s) = (err e, s)

unfoldable pub set_groups :
    Env → String → MemoryStore → Option (Map Time) → Result (Unit {0}) × MemoryStore
unfolding dropping
set_groups e node_id s none = (err not_found, s)
set_groups e node_id s (some next) = dropping (
    rebuild_node_config_locked node_id (e.clock 1)
      (record s { node_group_nodes = insert node_id next s.node_group_nodes }))

unfoldable pub set_node_groups_for_node : Env → String → List String → Method (Unit {0})
unfolding set_groups next_groups
set_node_groups_for_node e node_id group_ids s =
    if is_some (lookup node_id s.nodes)
    then set_groups e node_id s (next_groups (e.clock 0) s.node_groups group_ids [])
    else (err not_found, s)

abbrev group_name_of : Option NodeGroup → String
group_name_of none = ""
group_name_of (some g) = g.name

unfoldable pub memberships_of : MemoryStore → String → Map Time → List NodeGroupMembership
memberships_of s node_id [] = []
memberships_of s node_id ((group_id, created_at) ∷ rest) =
    record {
      node_id = node_id;
      group_id = group_id;
      group_name = group_name_of (lookup group_id s.node_groups);
      created_at = created_at;
    }
    ∷ memberships_of s node_id rest

unfoldable pub all_memberships : MemoryStore → Map (Map Time) → List NodeGroupMembership
unfolding memberships_of
all_memberships s [] = []
all_memberships s ((node_id, groups) ∷ rest) =
    memberships_of s node_id groups ++ all_memberships s rest

unfoldable pub list_node_group_memberships : MemoryStore → List NodeGroupMembership
unfolding all_memberships
list_node_group_memberships s =
    sort_slice (λ a b. ltb a.created_at b.created_at) (all_memberships s s.node_group_nodes)

-- a nil map of a group is made before it is written
abbrev pub members_of : Option (Map Time) → Map Time
members_of none = []
members_of (some m) = m

unfoldable pub create_group_grant : Env → String → String → Method (Unit {0})
unfolding nodes_of_group
create_group_grant e group_id member_id s =
    if is_some (lookup group_id s.node_groups) && is_some (lookup member_id s.members)
    then rebuild_all e.clock 1 (nodes_of_group group_id s.node_group_nodes) (record s {
      group_grants =
          insert group_id
            (insert member_id (e.clock 0) (members_of (lookup group_id s.group_grants)))
            s.group_grants;
    })
    else (err not_found, s)

unfoldable pub delete_group_grant : Env → String → String → Method (Unit {0})
unfolding nodes_of_group
delete_group_grant e group_id member_id s =
    let members = members_of (lookup group_id s.group_grants) in
    if is_some (lookup member_id members)
    then rebuild_all e.clock 0 (nodes_of_group group_id s.node_group_nodes)
        (record s { group_grants = insert group_id (delete member_id members) s.group_grants })
    else (err not_found, s)

-- a view without its member's fields when the member is gone
unfoldable pub group_grant_view : MemoryStore → String → Time → Option Member → GroupGrantView
group_grant_view s group_id created_at none = record {
  group_id = group_id;
  group_name = group_name_of (lookup group_id s.node_groups);
  member_id = "";
  member_name = "";
  member_email = "";
  created_at = created_at;
}
group_grant_view s group_id created_at (some m) = record {
  group_id = group_id;
  group_name = group_name_of (lookup group_id s.node_groups);
  member_id = m.id;
  member_name = m.name;
  member_email = m.email;
  created_at = created_at;
}

unfoldable pub grant_views_of : MemoryStore → String → Map Time → List GroupGrantView
unfolding group_grant_view
grant_views_of s group_id [] = []
grant_views_of s group_id ((member_id, created_at) ∷ rest) =
    group_grant_view s group_id created_at (lookup member_id s.members)
    ∷ grant_views_of s group_id rest

unfoldable pub all_grant_views : MemoryStore → Map (Map Time) → List GroupGrantView
unfolding grant_views_of
all_grant_views s [] = []
all_grant_views s ((group_id, members) ∷ rest) =
    grant_views_of s group_id members ++ all_grant_views s rest

unfoldable pub list_group_grant_views : MemoryStore → List GroupGrantView
unfolding all_grant_views
list_group_grant_views s =
    sort_slice (λ a b. ltb a.created_at b.created_at) (all_grant_views s s.group_grants)
