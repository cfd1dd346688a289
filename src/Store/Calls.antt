-- ===== src/Store/Calls.antt =====
-- The calls that the control plane makes on the store to write it, as data: a history of the store
-- is a list of calls, each with what it took from the environment.
pub mod Frames
pub mod Consistency
pub mod Followed
pub mod Histories
use v2ray_platform.Base.{String, Bool, ◌≡◌, none, List, [], ◌∷◌}
use v2ray_platform.Base.Int64.{Int64}
use v2ray_platform.Maps.{lookup}
use v2ray_platform.Domain.{Time, UsageSnapshot, PendingUserRemoval, PendingUserAddition}
use v2ray_platform.Store.State.{
  MemoryStore, Env, new_id, CreateMemberInput, UpdateMemberInput, CreateGrantInput,
  RegisterNodeInput, HeartbeatInput, SyncResultInput, CreateBootstrapTokenInput, CreateTierInput,
  UpdateTierInput, SavePlatformSettingsInput, SaveCloudFrontConfigInput, UpdateCloudFrontSyncInput,
}
use v2ray_platform.Store.Members
use v2ray_platform.Store.Groups
use v2ray_platform.Store.Grants
use v2ray_platform.Store.Bootstrap
use v2ray_platform.Store.Nodes
use v2ray_platform.Store.Sessions
use v2ray_platform.Store.Usage
use v2ray_platform.Store.Pending
use v2ray_platform.Store.Paging
use v2ray_platform.Store.Tiers
use v2ray_platform.Store.CloudFront

-- the methods of the interface `Store` that write, with their arguments
pub data Call : Type 0 where
  ensure_admin : String → String → Call
  create_admin_session : String → Time → Call
  touch_admin_session : String → Time → Call
  revoke_admin_session : String → Call
  revoke_admin_sessions : String → Call
  revoke_all_admin_sessions : Call
  create_bootstrap_token : CreateBootstrapTokenInput → Call
  register_node : RegisterNodeInput → Call
  heartbeat : HeartbeatInput → Call
  record_sync_result : SyncResultInput → Call
  create_member : CreateMemberInput → Call
  update_member : String → UpdateMemberInput → Call
  delete_member : String → Call
  create_tier : CreateTierInput → Call
  update_tier : String → UpdateTierInput → Call
  delete_tier : String → Call
  create_node_group : String → String → Call
  update_node_group : String → String → String → Call
  delete_node_group : String → Call
  set_node_groups_for_node : String → List String → Call
  create_group_grant : String → String → Call
  delete_group_grant : String → String → Call
  create_grant : CreateGrantInput → Call
  revoke_grant : String → Call
  record_usage : String → List UsageSnapshot → Call
  save_platform_settings : SavePlatformSettingsInput → Call
  delete_node : String → Call
  rebuild_node_config : String → Call
  add_pending_user_removals : List PendingUserRemoval → Call
  get_and_clear_pending_removals : String → Call
  add_pending_user_additions : List PendingUserAddition → Call
  get_and_clear_pending_additions : String → Call
  record_audit_log : String → String → String → String → String → Call
  save_cloud_front_config : SaveCloudFrontConfigInput → Call
  delete_cloud_front_config : Call
  update_cloud_front_distribution : String → String → String → Call
  update_cloud_front_bindings : String → Call
  update_cloud_front_origins : String → Call
  update_cloud_front_sync_status : UpdateCloudFrontSyncInput → Call
  update_cloud_front_enabled : Bool → Call

-- the store after a call, whether the method returns an error or not
unfoldable pub execute : Env → Call → MemoryStore → MemoryStore
execute e (ensure_admin email hash) s = (Sessions.ensure_admin e email hash s).1
execute e (create_admin_session id t) s = (Sessions.create_admin_session e id t s).1
execute e (touch_admin_session id t) s = (Sessions.touch_admin_session id t s).1
execute e (revoke_admin_session id) s = (Sessions.revoke_admin_session e id s).1
execute e (revoke_admin_sessions id) s = (Sessions.revoke_admin_sessions e id s).1
execute e revoke_all_admin_sessions s = (Sessions.revoke_all_admin_sessions e s).1
execute e (create_bootstrap_token input) s = (Bootstrap.create_bootstrap_token e input s).1
execute e (register_node input) s = (Bootstrap.register_node e input s).1
execute e (heartbeat input) s = (Nodes.heartbeat e input s).1
execute e (record_sync_result input) s = (Nodes.record_sync_result e input s).1
execute e (create_member input) s = (Members.create_member e input s).1
execute e (update_member id input) s = (Members.update_member e id input s).1
execute e (delete_member id) s = (Members.delete_member e id s).1
execute e (create_tier input) s = (Tiers.create_tier e input s).1
execute e (update_tier id input) s = (Tiers.update_tier e id input s).1
execute e (delete_tier id) s = (Tiers.delete_tier id s).1
execute e (create_node_group name text) s = (Groups.create_node_group e name text s).1
execute e (update_node_group id name text) s = (Groups.update_node_group e id name text s).1
execute e (delete_node_group id) s = (Groups.delete_node_group e id s).1
execute e (set_node_groups_for_node id ids) s = (Groups.set_node_groups_for_node e id ids s).1
execute e (create_group_grant id member_id) s = (Groups.create_group_grant e id member_id s).1
execute e (delete_group_grant id member_id) s = (Groups.delete_group_grant e id member_id s).1
execute e (create_grant input) s = (Grants.create_grant e input s).1
execute e (revoke_grant id) s = (Grants.revoke_grant e id s).1
execute e (record_usage token snapshots) s = (Usage.record_usage e token snapshots s).1
execute e (save_platform_settings input) s = (Tiers.save_platform_settings e input s).1
execute e (delete_node id) s = (Nodes.delete_node id s).1
execute e (rebuild_node_config id) s = (Nodes.rebuild_node_config e id s).1
execute e (add_pending_user_removals rs) s = (Pending.add_pending_user_removals e rs s).1
execute e (get_and_clear_pending_removals id) s = (Pending.get_and_clear_pending_removals id s).1
execute e (add_pending_user_additions rs) s = (Pending.add_pending_user_additions e rs s).1
execute e (get_and_clear_pending_additions id) s = (Pending.get_and_clear_pending_additions id s).1
execute e (record_audit_log actor action kind id payload) s =
    (Paging.record_audit_log e actor action kind id payload s).1
execute e (save_cloud_front_config input) s = (CloudFront.save_cloud_front_config e input s).1
execute e delete_cloud_front_config s = (CloudFront.delete_cloud_front_config s).1
execute e (update_cloud_front_distribution id name mode) s =
    (CloudFront.update_cloud_front_distribution e id name mode s).1
execute e (update_cloud_front_bindings json) s = (CloudFront.update_cloud_front_bindings e json s).1
execute e (update_cloud_front_origins json) s = (CloudFront.update_cloud_front_origins e json s).1
execute e (update_cloud_front_sync_status input) s =
    (CloudFront.update_cloud_front_sync_status e input s).1
execute e (update_cloud_front_enabled b) s = (CloudFront.update_cloud_front_enabled e b s).1

-- the identifiers that a call draws for a new member, grant or credential are not in use
abbrev pub IsFresh : Env → Call → MemoryStore → Type 0
IsFresh e (create_member input) s = lookup (new_id e "member" 0) s.members ≡ none
IsFresh e (create_grant input) s =
    (lookup (new_id e "grant" 0) s.grants ≡ none)
    × (lookup (new_id e "cred" 1) s.credentials ≡ none)
IsFresh e _ s = Unit {0}

unfoldable pub run : List (Env × Call) → MemoryStore → MemoryStore
unfolding execute
run [] s = s
run ((e, c) ∷ rest) s = run rest (execute e c s)

-- every call of a history draws fresh identifiers
abbrev pub AreFresh : List (Env × Call) → MemoryStore → Type 0
AreFresh [] s = Unit {0}
AreFresh ((e, c) ∷ rest) s = IsFresh e c s × AreFresh rest (execute e c s)
