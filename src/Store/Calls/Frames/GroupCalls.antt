-- ===== src/Store/Calls/Frames/GroupCalls.antt =====
-- The methods on node groups and their grants leave members, grants, credentials and
-- the sessions of admins as they are.
use v2ray_platform.Base.{
  ℕ, suc, String, List, [], ◌∷◌, arith, Option, some, none, ◌&&◌, is_some, Bool-cases, inl, inr,
}
use v2ray_platform.Base.Result.{Result, ok, err}
use v2ray_platform.Maps.{Map, lookup, insert}
use v2ray_platform.Domain.{Time, ConfigRevision}
use v2ray_platform.Store.State.{MemoryStore, Env}
use v2ray_platform.Store.Rebuild.{rebuild_node_config_locked, after_rebuild}
use v2ray_platform.Store.Groups
use v2ray_platform.Store.Calls.Frames.{SameMaps, SameMaps-trans, rebuilt, all_rebuilt}

-- the methods on groups
module _ (e : Env) where
  leave_group-SameMaps :
      (g : String) (s : MemoryStore) (o : Option (Map Time)) (id : String)
      → SameMaps s (Groups.leave_group e g s o id)
  unfolding Groups.leave_group
  leave_group-SameMaps g s none id = ground arith
  leave_group-SameMaps g s (some m) id = ground arith

  after-SameMaps :
      (s : MemoryStore) (rest : MemoryStore → Result (Unit {0}) × MemoryStore)
      → ((t : MemoryStore) → SameMaps t (rest t).1)
      → (r : Result ConfigRevision × MemoryStore) → SameMaps s r.1
      → SameMaps s (after_rebuild rest r).1
  unfolding after_rebuild
  after-SameMaps s rest keeps (err x, t) h = h
  after-SameMaps s rest keeps (ok r, t) h = SameMaps-trans h (keeps t)

  leave_groups-SameMaps :
      (i : ℕ) (g : String) (ids : List String) (s : MemoryStore)
      → SameMaps s (Groups.leave_groups e i g ids s).1
  unfolding Groups.leave_groups
  leave_groups-SameMaps i g [] s = ground arith
  leave_groups-SameMaps i g (id ∷ ids) s =
      let t : MemoryStore = Groups.leave_group e g s (lookup id s.node_group_nodes) id in
      after-SameMaps s (Groups.leave_groups e (suc i) g ids)
        (λ u. leave_groups-SameMaps (suc i) g ids u) (rebuild_node_config_locked id (e.clock i) t)
        (rebuilt s t id (e.clock i) (leave_group-SameMaps g s (lookup id s.node_group_nodes) id))

  pub delete_node_group-SameMaps :
      (g : String) (s : MemoryStore) → SameMaps s (Groups.delete_node_group e g s).1
  unfolding Groups.delete_node_group
  delete_node_group-SameMaps g s = elim (Bool-cases (is_some (lookup g s.node_groups))) [
    | inr missing ↦ rw missing (ground arith)
    | inl there ↦ rw there (
        SameMaps-trans (ground arith)
          (leave_groups-SameMaps 0 g (Groups.nodes_of_group g s.node_group_nodes) _))
  ]

  dropping-SameMaps {ℓ} :
      {A : Type ℓ} (s : MemoryStore) (r : Result A × MemoryStore)
      → SameMaps s r.1
      → SameMaps s (Groups.dropping r).1
  unfolding Groups.dropping
  dropping-SameMaps s (ok a, t) h = h
  dropping-SameMaps s (err x, t) h = h

  set_groups-SameMaps :
      (id : String) (s : MemoryStore) (o : Option (Map Time))
      → SameMaps s (Groups.set_groups e id s o).1
  unfolding Groups.set_groups
  set_groups-SameMaps id s none = ground arith
  set_groups-SameMaps id s (some next) =
      let t : MemoryStore = record s { node_group_nodes = insert id next s.node_group_nodes } in
      dropping-SameMaps s (rebuild_node_config_locked id (e.clock 1) t)
        (rebuilt s t id (e.clock 1) (ground arith))

  pub set_node_groups_for_node-SameMaps :
      (id : String) (ids : List String) (s : MemoryStore)
      → SameMaps s (Groups.set_node_groups_for_node e id ids s).1
  unfolding Groups.set_node_groups_for_node
  set_node_groups_for_node-SameMaps id ids s = elim (Bool-cases (is_some (lookup id s.nodes))) [
    | inr missing ↦ rw missing (ground arith)
    | inl there ↦
        rw there (set_groups-SameMaps id s (Groups.next_groups (e.clock 0) s.node_groups ids []))
  ]

  pub create_group_grant-SameMaps :
      (g id : String) (s : MemoryStore) → SameMaps s (Groups.create_group_grant e g id s).1
  unfolding Groups.create_group_grant
  create_group_grant-SameMaps g id s =
      elim (Bool-cases (is_some (lookup g s.node_groups) && is_some (lookup id s.members))) [
        | inr missing ↦ rw missing (ground arith)
        | inl there ↦
            rw there (
              all_rebuilt s _ e.clock 1 (Groups.nodes_of_group g s.node_group_nodes) (ground arith))
      ]

  pub delete_group_grant-SameMaps :
      (g id : String) (s : MemoryStore) → SameMaps s (Groups.delete_group_grant e g id s).1
  unfolding Groups.delete_group_grant
  delete_group_grant-SameMaps g id s =
      elim (Bool-cases (is_some (lookup id (Groups.members_of (lookup g s.group_grants))))) [
        | inr missing ↦ rw missing (ground arith)
        | inl there ↦
            rw there (
              all_rebuilt s _ e.clock 0 (Groups.nodes_of_group g s.node_group_nodes) (ground arith))
      ]
