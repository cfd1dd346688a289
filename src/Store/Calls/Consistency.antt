-- ===== src/Store/Calls/Consistency.antt =====
-- Every history of calls keeps the access maps consistent, and what follows for configurations.
use v2ray_platform.Base.{
  String, Option, none, some, ◌≡◌, ◌||◌, List, [], ◌∷◌, map, All, Distinct, contains,
}
use v2ray_platform.Maps.{lookup}
use v2ray_platform.Domain.{Time, AdminSession}
use v2ray_platform.Store.State.{MemoryStore, Env, new_memory_store}
use v2ray_platform.Store.Rebuild.{config_credentials}
use v2ray_platform.Store.Rebuild.Entitlement.{
  entitled_directly, entitled_by_group, direct_members, config_credentials-entitled,
}
use v2ray_platform.Store.Members
use v2ray_platform.Store.Sessions
use v2ray_platform.Store.Tiers
use v2ray_platform.Store.Groups
use v2ray_platform.Store.Nodes
use v2ray_platform.Store.Pending
use v2ray_platform.Store.Paging
use v2ray_platform.Store.CloudFront
use v2ray_platform.Store.Access.{HasConsistentAccess}
use v2ray_platform.Store.Access.Members.{
  create_member-HasConsistentAccess, update_member-HasConsistentAccess,
  delete_member-HasConsistentAccess,
}
use v2ray_platform.Store.Access.Grants.{
  create_grant-HasConsistentAccess, revoke_grant-HasConsistentAccess,
}
use v2ray_platform.Store.Access.Config.{IsLiveUser, config_credentials-IsLiveUser}
use v2ray_platform.Store.Calls.{Call, execute, IsFresh, run, AreFresh}
use v2ray_platform.Store.Calls.Frames.{
  SameMaps, ensure_admin-SameMaps, create_bootstrap_token-SameMaps, register_node-SameMaps,
  heartbeat-SameMaps, record_sync_result-SameMaps, update_tier-SameMaps, delete_tier-SameMaps,
  update_node_group-SameMaps, record_usage-SameMaps, rebuild_node_config-SameMaps,
  add_pending_user_removals-SameMaps, add_pending_user_additions-SameMaps,
  update_cloud_front_distribution-SameMaps, update_cloud_front_bindings-SameMaps,
  update_cloud_front_origins-SameMaps, update_cloud_front_sync_status-SameMaps,
  update_cloud_front_enabled-SameMaps, delete_cloud_front_config-SameMaps,
}
use v2ray_platform.Store.Calls.Frames.GroupCalls.{
  delete_node_group-SameMaps, set_node_groups_for_node-SameMaps, create_group_grant-SameMaps,
  delete_group_grant-SameMaps,
}

kept : {s t : MemoryStore} → HasConsistentAccess s → SameMaps s t → HasConsistentAccess t
kept h k = rw (k.members, k.grants, k.credentials) h

changed_session-HasConsistentAccess :
    (f : AdminSession → AdminSession) (id : String) (s : MemoryStore) (o : Option AdminSession)
    → HasConsistentAccess s
    → HasConsistentAccess (Sessions.change_session f id s o).1
unfolding Sessions.change_session
changed_session-HasConsistentAccess f id s none h = h
changed_session-HasConsistentAccess f id s (some x) h = h

-- Each call that writes the store, failing or not, keeps access consistent if the identifiers that it
-- draws are fresh: every credential stands on a grant of its member on its node and carries the UUID of
-- its stored member, and no member has two credentials for a node.
pub execute-HasConsistentAccess :
    (e : Env) (c : Call) (s : MemoryStore)
    → IsFresh e c s
    → HasConsistentAccess s
    → HasConsistentAccess (execute e c s)
unfolding execute Sessions.create_admin_session Sessions.revoke_admin_sessions
    Sessions.touch_admin_session Sessions.revoke_admin_session Sessions.revoke_all_admin_sessions
    Tiers.create_tier Groups.create_node_group Tiers.save_platform_settings Nodes.delete_node
    Pending.get_and_clear_pending_removals Pending.get_and_clear_pending_additions
    Paging.record_audit_log CloudFront.save_cloud_front_config
execute-HasConsistentAccess e (Call.create_member input) s f h =
    create_member-HasConsistentAccess e input s (unfold Members.created_member in f) h
execute-HasConsistentAccess e (Call.update_member id input) s f h =
    update_member-HasConsistentAccess e id input s h
execute-HasConsistentAccess e (Call.delete_member id) s f h =
    delete_member-HasConsistentAccess e id s h
execute-HasConsistentAccess e (Call.create_grant input) s f h =
    create_grant-HasConsistentAccess e input s f.0 f.1 h
execute-HasConsistentAccess e (Call.revoke_grant id) s f h =
    revoke_grant-HasConsistentAccess e id s h
execute-HasConsistentAccess e (Call.ensure_admin a b) s f h = kept h (ensure_admin-SameMaps e s a b)
execute-HasConsistentAccess e (Call.touch_admin_session a t) s f h =
    changed_session-HasConsistentAccess (λ x. record x { last_seen_at = some t; updated_at = t }) a
      s (lookup a s.admin_sessions) h
execute-HasConsistentAccess e (Call.revoke_admin_session a) s f h =
    changed_session-HasConsistentAccess (Sessions.revoked (e.clock 0)) a s
      (lookup a s.admin_sessions) h
execute-HasConsistentAccess e (Call.create_bootstrap_token i) s f h =
    kept h (create_bootstrap_token-SameMaps e s i)
execute-HasConsistentAccess e (Call.register_node i) s f h = kept h (register_node-SameMaps e s i)
execute-HasConsistentAccess e (Call.heartbeat i) s f h = kept h (heartbeat-SameMaps e s i)
execute-HasConsistentAccess e (Call.record_sync_result i) s f h =
    kept h (record_sync_result-SameMaps e s i)
execute-HasConsistentAccess e (Call.update_tier a i) s f h = kept h (update_tier-SameMaps e s a i)
execute-HasConsistentAccess e (Call.delete_tier a) s f h = kept h (delete_tier-SameMaps e s a)
execute-HasConsistentAccess e (Call.update_node_group a b c) s f h =
    kept h (update_node_group-SameMaps e s a b c)
execute-HasConsistentAccess e (Call.delete_node_group g) s f h =
    kept h (delete_node_group-SameMaps e g s)
execute-HasConsistentAccess e (Call.set_node_groups_for_node id ids) s f h =
    kept h (set_node_groups_for_node-SameMaps e id ids s)
execute-HasConsistentAccess e (Call.create_group_grant g id) s f h =
    kept h (create_group_grant-SameMaps e g id s)
execute-HasConsistentAccess e (Call.delete_group_grant g id) s f h =
    kept h (delete_group_grant-SameMaps e g id s)
execute-HasConsistentAccess e (Call.record_usage token xs) s f h =
    kept h (record_usage-SameMaps e token xs s)
execute-HasConsistentAccess e (Call.rebuild_node_config a) s f h =
    kept h (rebuild_node_config-SameMaps e s a)
execute-HasConsistentAccess e (Call.add_pending_user_removals rs) s f h =
    kept h (add_pending_user_removals-SameMaps e rs s)
execute-HasConsistentAccess e (Call.add_pending_user_additions rs) s f h =
    kept h (add_pending_user_additions-SameMaps e rs s)
execute-HasConsistentAccess e (Call.update_cloud_front_distribution a b c) s f h =
    kept h (update_cloud_front_distribution-SameMaps e s a b c)
execute-HasConsistentAccess e (Call.update_cloud_front_bindings a) s f h =
    kept h (update_cloud_front_bindings-SameMaps e s a)
execute-HasConsistentAccess e (Call.update_cloud_front_origins a) s f h =
    kept h (update_cloud_front_origins-SameMaps e s a)
execute-HasConsistentAccess e (Call.update_cloud_front_sync_status i) s f h =
    kept h (update_cloud_front_sync_status-SameMaps e s i)
execute-HasConsistentAccess e (Call.update_cloud_front_enabled b) s f h =
    kept h (update_cloud_front_enabled-SameMaps e s b)
execute-HasConsistentAccess e Call.delete_cloud_front_config s f h =
    kept h (delete_cloud_front_config-SameMaps e s)
execute-HasConsistentAccess e _ s f h = h

-- From a store that keeps it, every history with fresh identifiers leads to one that keeps it.
run-HasConsistentAccess :
    (calls : List (Env × Call)) (s : MemoryStore)
    → AreFresh calls s
    → HasConsistentAccess s
    → HasConsistentAccess (run calls s)
unfolding run
run-HasConsistentAccess [] s f h = h
run-HasConsistentAccess ((e, c) ∷ rest) s f h =
    run-HasConsistentAccess rest (execute e c s) f.1 (execute-HasConsistentAccess e c s f.0 h)

new-HasConsistentAccess : HasConsistentAccess new_memory_store
unfolding direct_members
new-HasConsistentAccess = record { sound = tt; single = λ n. tt }

-- After any history of calls on a new store in which drawn identifiers are fresh, the configuration
-- of a node at an instant has one credential of each member who is entitled to the node, directly
-- or by a group, and of no one else; each is for the node, and has the UUID of a stored member who
-- is active and not expired.
pub run-config_credentials :
    (calls : List (Env × Call)) (node_id : String) (now : Time)
    → AreFresh calls new_memory_store
    → let s = run calls new_memory_store in
      Distinct (map (λ c. c.member_id) (config_credentials s node_id now))
      × ((member_id : String)
          → contains (map (λ c. c.member_id) (config_credentials s node_id now)) member_id ≡ (
              entitled_directly s node_id now member_id
              || entitled_by_group s node_id now member_id))
      × All (IsLiveUser s node_id now) (config_credentials s node_id now)
run-config_credentials calls node_id now fresh =
    let s : MemoryStore = run calls new_memory_store in
    let h : HasConsistentAccess s =
      run-HasConsistentAccess calls new_memory_store fresh new-HasConsistentAccess in
    let exact = config_credentials-entitled s node_id now (h.single node_id) in
    (exact.0, exact.1, config_credentials-IsLiveUser s node_id now h)
