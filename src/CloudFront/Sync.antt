-- ===== src/CloudFront/Sync.antt =====
-- internal/cloudfront/sync.go: a plan is carried out by the client, and the outcome is stored.
pub mod Outcome
use v2ray_platform.Base.{
  ℕ, suc, String, Bool, true, false, Option, none, some, List, [], ◌∷◌, ◌==◌, if◌then◌else◌,
}
use v2ray_platform.Base.Result.{Error, error_text, Result, ok, err}
use v2ray_platform.Domain.{CloudFrontConfig}
use v2ray_platform.Store.State.{MemoryStore, Env, UpdateCloudFrontSyncInput}
use v2ray_platform.Store.CloudFront.{get_cloud_front_config, update_cloud_front_sync_status}
use v2ray_platform.CloudFront.{RouteAction, RewriteRoute, Client, Codec}
use v2ray_platform.CloudFront.Plan.{SyncPlan}

pub record SyncResult : Type 0 where
  pub actions_applied : ℕ
  pub drift_status : String
  pub sync_status : String
  pub error : String

abbrev pub conflict_text : String
conflict_text = "cloudfront sync blocked by unmanaged resource conflict"

-- the actions that are not "noop"
unfoldable pub count_applied : List RouteAction → ℕ
count_applied [] = 0
count_applied (a ∷ rest) = let n = count_applied rest in if a.action == "noop" then n else suc n

unfoldable pub sync_input :
    Codec
    → CloudFrontConfig
    → String
    → String
    → String
    → List RouteAction
    → UpdateCloudFrontSyncInput
sync_input k cfg sync_status drift_status sync_err actions = record {
  distribution_id = cfg.distribution_id;
  distribution_domain_name = cfg.distribution_domain_name;
  mode = cfg.mode;
  bindings_json = "";
  plan_json = k.marshal_actions actions;
  sync_status = sync_status;
  drift_status = drift_status;
  last_sync_error = sync_err;
  preserve_sync_status = false;
}

-- `updateStatus`, with its error dropped
unfoldable pub update_status :
    Codec
    → Env
    → CloudFrontConfig
    → String
    → String
    → String
    → List RouteAction
    → MemoryStore
    → MemoryStore
unfolding sync_input
update_status k e cfg sync_status drift_status sync_err actions s =
    (update_cloud_front_sync_status e (sync_input k cfg sync_status drift_status sync_err actions)
      s).1

module _ {W : Type 0} (client : Client W) (k : Codec) (e : Env) (plan : SyncPlan) where
  -- the outcome that is stored and returned
  unfoldable pub finished :
      CloudFrontConfig
      → MemoryStore
      → W
      → ℕ
      → String
      → String
      → String
      → Result SyncResult × MemoryStore × W
  unfolding update_status
  finished cfg s w applied sync_status drift_status sync_err = (
    ok (record {
      actions_applied = applied;
      drift_status = drift_status;
      sync_status = sync_status;
      error = sync_err;
    }),
    update_status k e cfg sync_status drift_status sync_err plan.actions s,
    w,
  )

  unfoldable pub routes_applied :
      CloudFrontConfig
      → MemoryStore
      → ℕ
      → Result (Unit {0}) × W
      → Result SyncResult × MemoryStore × W
  unfolding finished
  routes_applied cfg s applied (err x, w) =
      finished cfg s w 0 "failed" plan.drift_status (error_text x)
  routes_applied cfg s applied (ok u, w) = finished cfg s w applied "synced" "in_sync" ""

  -- A plan in sync has rewrites to be written at most.
  unfoldable pub rewrites_applied :
      CloudFrontConfig → MemoryStore → W → List RewriteRoute → Result SyncResult × MemoryStore × W
  unfolding routes_applied
  rewrites_applied cfg s w [] = routes_applied cfg s 0 (ok tt, w)
  rewrites_applied cfg s w (r ∷ rest) =
      routes_applied cfg s 0 (client.apply_distribution_routes cfg.distribution_id [] (r ∷ rest) w)

  unfoldable pub execute_for :
      MemoryStore → W → Result CloudFrontConfig → Result SyncResult × MemoryStore × W
  unfolding rewrites_applied finished count_applied
  execute_for s w (err x) = (err x, s, w)
  execute_for s w (ok cfg) =
      if plan.drift_status == "in_sync"
      then rewrites_applied cfg s w plan.rewrite_routes
      else if plan.drift_status == "conflict"
      then finished cfg s w 0 "failed" "conflict" conflict_text
      else routes_applied cfg s (count_applied plan.actions)
          (client.apply_distribution_routes cfg.distribution_id plan.actions plan.rewrite_routes w)

  -- `ExecutePlan`
  unfoldable pub execute_plan : MemoryStore → W → Result SyncResult × MemoryStore × W
  unfolding execute_for
  execute_plan s w = execute_for s w (get_cloud_front_config s)
