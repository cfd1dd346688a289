-- ===== src/Store/Calls/Frames.antt =====
-- The methods that leave members, grants, credentials and the sessions of admins as they are.
pub mod GroupCalls
use v2ray_platform.Base.{
  ℕ, suc, String, ◌≡◌, List, [], ◌∷◌, arith, Option, some, none, Bool, ◌&&◌, is_some, Bool-cases,
  inl, inr,
}
use v2ray_platform.Base.Result.{Result, ok, err}
use v2ray_platform.Maps.{Map, lookup, insert}
use v2ray_platform.Domain.{
  Time, Node, BootstrapToken, ConfigRevision, UsageSnapshot, PendingUserRemoval,
  PendingUserAddition,
}
use v2ray_platform.Store.State.{
  MemoryStore, Env, RegisterNodeInput, HeartbeatInput, SyncResultInput, CreateBootstrapTokenInput,
  UpdateTierInput, UpdateCloudFrontSyncInput,
}
use v2ray_platform.Store.Rebuild.{rebuild_node_config_locked, rebuild_all, after_rebuild}
use v2ray_platform.Store.Rebuild.Revision.{SameAccess, rebuild-SameAccess, rebuild_all-SameAccess}
use v2ray_platform.Store.Sessions
use v2ray_platform.Store.Tiers
use v2ray_platform.Store.Pending
use v2ray_platform.Store.CloudFront
use v2ray_platform.Store.Nodes
use v2ray_platform.Store.Bootstrap
use v2ray_platform.Store.Groups
use v2ray_platform.Store.Usage

-- members, grants, credentials and the sessions of admins are as they were
pub record SameMaps (s t : MemoryStore) : Type 0 where
  pub members : t.members ≡ s.members
  pub grants : t.grants ≡ s.grants
  pub credentials : t.credentials ≡ s.credentials
  pub admin_sessions : t.admin_sessions ≡ s.admin_sessions

pub SameMaps-trans : {s t u : MemoryStore} → SameMaps s t → SameMaps t u → SameMaps s u
SameMaps-trans h k = ground arith

pub SameAccess-SameMaps : {s t : MemoryStore} → SameAccess s t → SameMaps s t
SameAccess-SameMaps h = record {
  members = h.members;
  grants = h.grants;
  credentials = h.credentials;
  admin_sessions = h.admin_sessions;
}

-- a rebuild, or a loop of them, behind a change that keeps the maps
pub rebuilt :
    (s t : MemoryStore) (id : String) (now : Time)
    → SameMaps s t
    → SameMaps s (rebuild_node_config_locked id now t).1
rebuilt s t id now h = SameMaps-trans h (SameAccess-SameMaps (rebuild-SameAccess id now t))

pub all_rebuilt :
    (s t : MemoryStore) (clock : ℕ → Time) (i : ℕ) (nodes : List String)
    → SameMaps s t
    → SameMaps s (rebuild_all clock i nodes t).1
all_rebuilt s t clock i nodes h =
    SameMaps-trans h (SameAccess-SameMaps (rebuild_all-SameAccess clock i nodes t))

module _ (e : Env) (s : MemoryStore) where
  pub ensure_admin-SameMaps : (a b : String) → SameMaps s (Sessions.ensure_admin e a b s).1
  unfolding Sessions.ensure_admin
  ensure_admin-SameMaps a b = ground arith

  pub create_bootstrap_token-SameMaps :
      (i : CreateBootstrapTokenInput) → SameMaps s (Bootstrap.create_bootstrap_token e i s).1
  unfolding Bootstrap.create_bootstrap_token
  create_bootstrap_token-SameMaps i = ground arith

  pub heartbeat-SameMaps : (i : HeartbeatInput) → SameMaps s (Nodes.heartbeat e i s).1
  unfolding Nodes.heartbeat
  heartbeat-SameMaps i = ground arith

  pub record_sync_result-SameMaps :
      (i : SyncResultInput) → SameMaps s (Nodes.record_sync_result e i s).1
  unfolding Nodes.record_sync_result
  record_sync_result-SameMaps i = ground arith

  pub update_tier-SameMaps :
      (a : String) (i : UpdateTierInput) → SameMaps s (Tiers.update_tier e a i s).1
  unfolding Tiers.update_tier
  update_tier-SameMaps a i = ground arith

  pub delete_tier-SameMaps : (a : String) → SameMaps s (Tiers.delete_tier a s).1
  unfolding Tiers.delete_tier
  delete_tier-SameMaps a = ground arith

  pub update_node_group-SameMaps :
      (a b c : String) → SameMaps s (Groups.update_node_group e a b c s).1
  unfolding Groups.update_node_group
  update_node_group-SameMaps a b c = ground arith

  pub update_cloud_front_distribution-SameMaps :
      (a b c : String) → SameMaps s (CloudFront.update_cloud_front_distribution e a b c s).1
  unfolding CloudFront.update_cloud_front_distribution
  update_cloud_front_distribution-SameMaps a b c = ground arith

  pub update_cloud_front_bindings-SameMaps :
      (a : String) → SameMaps s (CloudFront.update_cloud_front_bindings e a s).1
  unfolding CloudFront.update_cloud_front_bindings
  update_cloud_front_bindings-SameMaps a = ground arith

  pub update_cloud_front_origins-SameMaps :
      (a : String) → SameMaps s (CloudFront.update_cloud_front_origins e a s).1
  unfolding CloudFront.update_cloud_front_origins
  update_cloud_front_origins-SameMaps a = ground arith

  pub update_cloud_front_sync_status-SameMaps :
      (i : UpdateCloudFrontSyncInput)
      → SameMaps s (CloudFront.update_cloud_front_sync_status e i s).1
  unfolding CloudFront.update_cloud_front_sync_status
  update_cloud_front_sync_status-SameMaps i = ground arith

  pub update_cloud_front_enabled-SameMaps :
      (b : Bool) → SameMaps s (CloudFront.update_cloud_front_enabled e b s).1
  unfolding CloudFront.update_cloud_front_enabled
  update_cloud_front_enabled-SameMaps b = ground arith

  pub delete_cloud_front_config-SameMaps : SameMaps s (CloudFront.delete_cloud_front_config s).1
  unfolding CloudFront.delete_cloud_front_config
  delete_cloud_front_config-SameMaps = ground arith

  registered-SameMaps :
      (i : RegisterNodeInput) (id token : String) (r : Result ConfigRevision × MemoryStore)
      → SameMaps s r.1
      → SameMaps s (Bootstrap.registered e i id token r).1
  unfolding Bootstrap.registered
  registered-SameMaps i id token (err x, t) h = h
  registered-SameMaps i id token (ok r, t) h = h

  register_with-SameMaps :
      (i : RegisterNodeInput) (t : MemoryStore) (a b : Result String)
      → SameMaps s t
      → SameMaps s (Bootstrap.register_with e i t a b).1
  unfolding Bootstrap.register_with
  register_with-SameMaps i t (err x) b h = h
  register_with-SameMaps i t (ok token) (err x) h = h
  register_with-SameMaps i t (ok token) (ok key) h =
      let node = Bootstrap.new_node e i token key in
      registered-SameMaps i node.id token
        (rebuild_node_config_locked node.id (e.clock 2)
          (record t { nodes = insert node.id node t.nodes }))
        (rebuilt s (record t { nodes = insert node.id node t.nodes }) node.id (e.clock 2)
          (record {
            members = h.members;
            grants = h.grants;
            credentials = h.credentials;
            admin_sessions = h.admin_sessions;
          }))

  register_unused-SameMaps :
      (i : RegisterNodeInput) (k : String) (token : BootstrapToken) (o : Option Time)
      → SameMaps s (Bootstrap.register_unused e i k token o s).1
  unfolding Bootstrap.register_unused
  register_unused-SameMaps i k token (some t) = ground arith
  register_unused-SameMaps i k token none =
      register_with-SameMaps i (Bootstrap.use_token e i k token s) (e.random_token 1)
        (e.random_token 2) (ground arith)

  register_found-SameMaps :
      (i : RegisterNodeInput) (r : Result (String × BootstrapToken))
      → SameMaps s (Bootstrap.register_found e i s r).1
  unfolding Bootstrap.register_found
  register_found-SameMaps i (err x) = ground arith
  register_found-SameMaps i (ok (k, token)) = register_unused-SameMaps i k token token.used_at

  pub register_node-SameMaps :
      (i : RegisterNodeInput) → SameMaps s (Bootstrap.register_node e i s).1
  unfolding Bootstrap.register_node
  register_node-SameMaps i =
      register_found-SameMaps i (Bootstrap.find_bootstrap_token_locked e i.bootstrap_token s)

  pub rebuild_node_config-SameMaps : (a : String) → SameMaps s (Nodes.rebuild_node_config e a s).1
  unfolding Nodes.rebuild_node_config
  rebuild_node_config-SameMaps a = rebuilt s s a (e.clock 0) (ground arith)

-- a loop of queued users or of snapshots
module _ (e : Env) where
  add_removals-SameMaps :
      (i : ℕ) (rs : List PendingUserRemoval) (s : MemoryStore)
      → SameMaps s (Pending.add_removals e i rs s)
  unfolding Pending.add_removals
  add_removals-SameMaps i [] s = ground arith
  add_removals-SameMaps i (r ∷ rs) s =
      SameMaps-trans (ground arith) (add_removals-SameMaps (suc (suc i)) rs _)

  add_additions-SameMaps :
      (i : ℕ) (rs : List PendingUserAddition) (s : MemoryStore)
      → SameMaps s (Pending.add_additions e i rs s)
  unfolding Pending.add_additions
  add_additions-SameMaps i [] s = ground arith
  add_additions-SameMaps i (r ∷ rs) s =
      SameMaps-trans (ground arith) (add_additions-SameMaps (suc (suc i)) rs _)

  record_loop-SameMaps :
      (i : ℕ) (node_id : String) (xs : List UsageSnapshot) (s : MemoryStore)
      → SameMaps s (Usage.record_loop e i node_id xs s)
  unfolding Usage.record_loop
  record_loop-SameMaps i node_id [] s = ground arith
  record_loop-SameMaps i node_id (x ∷ xs) s =
      SameMaps-trans (ground arith) (record_loop-SameMaps (suc i) node_id xs _)

  record_found-SameMaps :
      (xs : List UsageSnapshot) (s : MemoryStore) (r : Result (String × Node))
      → SameMaps s (Usage.record_found e xs s r).1
  unfolding Usage.record_found
  record_found-SameMaps xs s (err x) = ground arith
  record_found-SameMaps xs s (ok (k, n)) = record_loop-SameMaps 0 n.id xs s

  pub record_usage-SameMaps :
      (token : String) (xs : List UsageSnapshot) (s : MemoryStore)
      → SameMaps s (Usage.record_usage e token xs s).1
  unfolding Usage.record_usage
  record_usage-SameMaps token xs s =
      record_found-SameMaps xs s (Nodes.find_node_by_token_locked e token s)

  pub add_pending_user_removals-SameMaps :
      (rs : List PendingUserRemoval) (s : MemoryStore)
      → SameMaps s (Pending.add_pending_user_removals e rs s).1
  unfolding Pending.add_pending_user_removals
  add_pending_user_removals-SameMaps rs s = add_removals-SameMaps 0 rs s

  pub add_pending_user_additions-SameMaps :
      (rs : List PendingUserAddition) (s : MemoryStore)
      → SameMaps s (Pending.add_pending_user_additions e rs s).1
  unfolding Pending.add_pending_user_additions
  add_pending_user_additions-SameMaps rs s = add_additions-SameMaps 0 rs s
