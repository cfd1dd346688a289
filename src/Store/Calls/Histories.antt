-- ===== src/Store/Calls/Histories.antt =====
-- What a history of calls keeps of an admin's session.
use v2ray_platform.Base.{
  String, Bool, ◌≢◌, refl, true, false, none, some, List, [], ◌∷◌, arith, ◌==◌, eq_iff, is_some,
  if◌then◌else◌, not, ◌||◌,
}
use v2ray_platform.Maps.{lookup, lookup-insert}
use v2ray_platform.Domain.{Time, AdminSession}
use v2ray_platform.Store.State.{MemoryStore, Env, new_id}
use v2ray_platform.Store.Sessions
use v2ray_platform.Store.Members
use v2ray_platform.Store.Tiers
use v2ray_platform.Store.Groups
use v2ray_platform.Store.Grants
use v2ray_platform.Store.Nodes
use v2ray_platform.Store.Pending
use v2ray_platform.Store.Paging
use v2ray_platform.Store.CloudFront
use v2ray_platform.Store.Calls.{Call, execute, run}
use v2ray_platform.Store.Calls.Frames.{
  ensure_admin-SameMaps, create_bootstrap_token-SameMaps, register_node-SameMaps,
  heartbeat-SameMaps, record_sync_result-SameMaps, update_tier-SameMaps, delete_tier-SameMaps,
  update_node_group-SameMaps, record_usage-SameMaps, rebuild_node_config-SameMaps,
  add_pending_user_removals-SameMaps, add_pending_user_additions-SameMaps,
  update_cloud_front_distribution-SameMaps, update_cloud_front_bindings-SameMaps,
  update_cloud_front_origins-SameMaps, update_cloud_front_sync_status-SameMaps,
  update_cloud_front_enabled-SameMaps, delete_cloud_front_config-SameMaps,
}
use v2ray_platform.Store.Calls.Frames.GroupCalls.{
  delete_node_group-SameMaps, set_node_groups_for_node-SameMaps, create_group_grant-SameMaps,
  delete_group_grant-SameMaps,
}
use v2ray_platform.Store.Calls.Followed.{
  IsLater, IsFollowed, unchanged, changed, all_changed, update_member-admin_sessions,
  delete_member-admin_sessions, create_grant-admin_sessions, revoke_grant-admin_sessions,
}

-- no session that a history creates is given the identifier
abbrev pub AvoidsSession : String → List (Env × Call) → Type 0
AvoidsSession id [] = Unit {0}
AvoidsSession id ((e, Call.create_admin_session admin_id t) ∷ rest) =
    (new_id e "sess" 0 ≢ id) × AvoidsSession id rest
AvoidsSession id ((e, _) ∷ rest) = AvoidsSession id rest

revoked-IsLater : (now : Time) (y : AdminSession) → IsLater y (Sessions.revoked now y)
unfolding Sessions.revoked
revoked-IsLater now y = record { same_admin = refl; still_revoked = λ r. refl }

kept_or_revoked :
    (now : Time) (y : AdminSession) (keep : Bool)
    → IsLater y (if keep then y else Sessions.revoked now y)
kept_or_revoked now y true = record { same_admin = refl; still_revoked = λ r. r }
kept_or_revoked now y false = revoked-IsLater now y

abbrev issued : Env → String → Time → AdminSession
issued e admin_id t = record {
  id = new_id e "sess" 0;
  admin_id = admin_id;
  expires_at = t;
  revoked_at = none;
  last_seen_at = none;
  created_at = e.clock 0;
  updated_at = e.clock 0;
}

module _ (id : String) (x : AdminSession) where
  -- A call of the history keeps the session, unless it creates one under the identifier.
  execute-IsFollowed :
      (e : Env) (c : Call) (s : MemoryStore)
      → AvoidsSession id ((e, c) ∷ [])
      → IsFollowed id x s
      → IsFollowed id x (execute e c s)
  unfolding execute Members.create_member Members.update_member Members.delete_member
      Grants.revoke_grant Sessions.create_admin_session Sessions.touch_admin_session
      Sessions.revoke_admin_session Sessions.revoke_admin_sessions
      Sessions.revoke_all_admin_sessions Tiers.create_tier Groups.create_node_group
      Tiers.save_platform_settings Nodes.delete_node Pending.get_and_clear_pending_removals
      Pending.get_and_clear_pending_additions Paging.record_audit_log
      CloudFront.save_cloud_front_config
  execute-IsFollowed e (Call.create_admin_session admin_id t) s f h = record {
    session = h.session;
    is_stored = ground (
      arith,
      lookup-insert (new_id e "sess" 0) id (issued e admin_id t) s.admin_sessions,
      eq_iff (new_id e "sess" 0) id,
      f.0,
      h.is_stored,
    );
    is_later = h.is_later;
  }
  execute-IsFollowed e (Call.touch_admin_session a t) s f h =
      changed id x (λ y. record y { last_seen_at = some t; updated_at = t })
        (λ y. record { same_admin = refl; still_revoked = λ r. r }) a s (lookup a s.admin_sessions)
        refl h
  execute-IsFollowed e (Call.revoke_admin_session a) s f h =
      changed id x (Sessions.revoked (e.clock 0)) (revoked-IsLater (e.clock 0)) a s
        (lookup a s.admin_sessions) refl h
  execute-IsFollowed e (Call.revoke_admin_sessions a) s f h =
      all_changed id x
        (λ y.
          if not (y.admin_id == a) || is_some y.revoked_at
          then y
          else Sessions.revoked (e.clock 0) y)
        (λ y. kept_or_revoked (e.clock 0) y (not (y.admin_id == a) || is_some y.revoked_at)) s _
        refl h
  execute-IsFollowed e Call.revoke_all_admin_sessions s f h =
      all_changed id x (λ y. if is_some y.revoked_at then y else Sessions.revoked (e.clock 0) y)
        (λ y. kept_or_revoked (e.clock 0) y (is_some y.revoked_at)) s _ refl h
  execute-IsFollowed e (Call.update_member a input) s f h =
      unchanged id x s _ (update_member-admin_sessions e s a input (lookup a s.members)) h
  execute-IsFollowed e (Call.delete_member a) s f h =
      unchanged id x s _ (delete_member-admin_sessions e s a (lookup a s.members)) h
  execute-IsFollowed e (Call.create_grant input) s f h =
      unchanged id x s _ (create_grant-admin_sessions e s input) h
  execute-IsFollowed e (Call.revoke_grant a) s f h =
      unchanged id x s _ (revoke_grant-admin_sessions e s a (lookup a s.grants)) h
  execute-IsFollowed e (Call.ensure_admin a b) s f h =
      unchanged id x s _ (ensure_admin-SameMaps e s a b).admin_sessions h
  execute-IsFollowed e (Call.create_bootstrap_token i) s f h =
      unchanged id x s _ (create_bootstrap_token-SameMaps e s i).admin_sessions h
  execute-IsFollowed e (Call.register_node i) s f h =
      unchanged id x s _ (register_node-SameMaps e s i).admin_sessions h
  execute-IsFollowed e (Call.heartbeat i) s f h =
      unchanged id x s _ (heartbeat-SameMaps e s i).admin_sessions h
  execute-IsFollowed e (Call.record_sync_result i) s f h =
      unchanged id x s _ (record_sync_result-SameMaps e s i).admin_sessions h
  execute-IsFollowed e (Call.update_tier a i) s f h =
      unchanged id x s _ (update_tier-SameMaps e s a i).admin_sessions h
  execute-IsFollowed e (Call.delete_tier a) s f h =
      unchanged id x s _ (delete_tier-SameMaps e s a).admin_sessions h
  execute-IsFollowed e (Call.update_node_group a b c) s f h =
      unchanged id x s _ (update_node_group-SameMaps e s a b c).admin_sessions h
  execute-IsFollowed e (Call.delete_node_group g) s f h =
      unchanged id x s _ (delete_node_group-SameMaps e g s).admin_sessions h
  execute-IsFollowed e (Call.set_node_groups_for_node n ids) s f h =
      unchanged id x s _ (set_node_groups_for_node-SameMaps e n ids s).admin_sessions h
  execute-IsFollowed e (Call.create_group_grant g m) s f h =
      unchanged id x s _ (create_group_grant-SameMaps e g m s).admin_sessions h
  execute-IsFollowed e (Call.delete_group_grant g m) s f h =
      unchanged id x s _ (delete_group_grant-SameMaps e g m s).admin_sessions h
  execute-IsFollowed e (Call.record_usage token xs) s f h =
      unchanged id x s _ (record_usage-SameMaps e token xs s).admin_sessions h
  execute-IsFollowed e (Call.rebuild_node_config a) s f h =
      unchanged id x s _ (rebuild_node_config-SameMaps e s a).admin_sessions h
  execute-IsFollowed e (Call.add_pending_user_removals rs) s f h =
      unchanged id x s _ (add_pending_user_removals-SameMaps e rs s).admin_sessions h
  execute-IsFollowed e (Call.add_pending_user_additions rs) s f h =
      unchanged id x s _ (add_pending_user_additions-SameMaps e rs s).admin_sessions h
  execute-IsFollowed e (Call.update_cloud_front_distribution a b c) s f h =
      unchanged id x s _ (update_cloud_front_distribution-SameMaps e s a b c).admin_sessions h
  execute-IsFollowed e (Call.update_cloud_front_bindings a) s f h =
      unchanged id x s _ (update_cloud_front_bindings-SameMaps e s a).admin_sessions h
  execute-IsFollowed e (Call.update_cloud_front_origins a) s f h =
      unchanged id x s _ (update_cloud_front_origins-SameMaps e s a).admin_sessions h
  execute-IsFollowed e (Call.update_cloud_front_sync_status i) s f h =
      unchanged id x s _ (update_cloud_front_sync_status-SameMaps e s i).admin_sessions h
  execute-IsFollowed e (Call.update_cloud_front_enabled b) s f h =
      unchanged id x s _ (update_cloud_front_enabled-SameMaps e s b).admin_sessions h
  execute-IsFollowed e Call.delete_cloud_front_config s f h =
      unchanged id x s _ (delete_cloud_front_config-SameMaps e s).admin_sessions h
  execute-IsFollowed e _ s f h = unchanged id x s _ refl h

  avoids_each :
      (e : Env) (c : Call) (rest : List (Env × Call))
      → AvoidsSession id ((e, c) ∷ rest)
      → AvoidsSession id ((e, c) ∷ []) × AvoidsSession id rest
  avoids_each e (Call.create_admin_session admin_id t) rest f = ((f.0, tt), f.1)
  avoids_each e _ rest f = (tt, f)

  -- So a session is stored, with its admin and not less revoked, after any such history.
  pub run-IsFollowed :
      (calls : List (Env × Call)) (s : MemoryStore)
      → AvoidsSession id calls
      → IsFollowed id x s
      → IsFollowed id x (run calls s)
  unfolding run
  run-IsFollowed [] s f h = h
  run-IsFollowed ((e, c) ∷ rest) s f h =
      let each = avoids_each e c rest f in
      run-IsFollowed rest (execute e c s) each.1 (execute-IsFollowed e c s each.0 h)
