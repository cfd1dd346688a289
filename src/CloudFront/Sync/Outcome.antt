-- ===== src/CloudFront/Sync/Outcome.antt =====
-- internal/cloudfront/sync.go with internal/store/memory.go and internal/api/controlplane.go: what
-- ExecutePlan leaves stored, and whether subscriptions are still rendered from it.
use v2ray_platform.Base.{
  ℕ, String, ◌≡◌, ◌≢◌, refl, ◌⊎◌, inl, inr, some, List, [], ◌∷◌, ◌==◌, Bool-cases, subst, ap, sym,
}
use v2ray_platform.Base.Result.{error_text, Result, ok, err}
use v2ray_platform.Domain.{CloudFrontConfig}
use v2ray_platform.Store.State.{MemoryStore, Env}
use v2ray_platform.Store.CloudFront.{
  get_cloud_front_config, config_or_not_found, update_cloud_front_sync_status, change_config,
  with_sync_status,
}
use v2ray_platform.CloudFront.{RewriteRoute, Client, Codec}
use v2ray_platform.CloudFront.Plan.{SyncPlan}
use v2ray_platform.CloudFront.Sync.{
  SyncResult, sync_input, update_status, finished, routes_applied, rewrites_applied, execute_for,
  execute_plan, conflict_text, count_applied,
}
use v2ray_platform.Api.{cloud_front_render_config}
use v2ray_platform.Api.Gate.{cloud_front_render_config-failed}

-- An outcome that is returned and stored alike: failed, and then no CloudFront subscription is
-- rendered from the store, or synced.
pub record IsSettled {W : Type 0} (r : Result SyncResult × MemoryStore × W) : Type 0 where
  pub result : SyncResult
  pub returned : r.0 ≡ ok result
  pub config : CloudFrontConfig
  pub stored : r.1.cloud_front_config ≡ some config
  pub same_sync : config.sync_status ≡ result.sync_status
  pub same_drift : config.drift_status ≡ result.drift_status
  pub same_error : config.last_sync_error ≡ result.error
  pub outcome :
      ((result.sync_status ≡ "failed")
        × ((out : String × String) → cloud_front_render_config r.1 ≢ ok out))
      ⊎ ((result.sync_status ≡ "synced") × (result.drift_status ≡ "in_sync"))

module _ {W : Type 0} (client : Client W) (k : Codec) (e : Env) (plan : SyncPlan)
    (cfg : CloudFrontConfig) (s : MemoryStore) (stored : s.cloud_front_config ≡ some cfg) where
  failed-IsSettled :
      (w : W) (drift text : String)
      → IsSettled (finished client k e plan cfg s w 0 "failed" drift text)
  unfolding finished update_status update_cloud_front_sync_status change_config with_sync_status
      sync_input
  failed-IsSettled w drift text =
      let input = sync_input k cfg "failed" drift text plan.actions in
      record {
        result = record {
          actions_applied = 0;
          drift_status = drift;
          sync_status = "failed";
          error = text;
        };
        returned = refl;
        config = with_sync_status (e.clock 0) input cfg;
        stored = rw (stored) refl;
        same_sync = refl;
        same_drift = refl;
        same_error = refl;
        outcome = inl (refl, λ out. cloud_front_render_config-failed e input s cfg out stored refl);
      }

  synced-IsSettled :
      (w : W) (applied : ℕ)
      → IsSettled (finished client k e plan cfg s w applied "synced" "in_sync" "")
  unfolding finished update_status update_cloud_front_sync_status change_config with_sync_status
      sync_input
  synced-IsSettled w applied =
      let input = sync_input k cfg "synced" "in_sync" "" plan.actions in
      record {
        result = record {
          actions_applied = applied;
          drift_status = "in_sync";
          sync_status = "synced";
          error = "";
        };
        returned = refl;
        config = with_sync_status (e.clock 0) input cfg;
        stored = rw (stored) refl;
        same_sync = refl;
        same_drift = refl;
        same_error = refl;
        outcome = inr (refl, refl);
      }

  applied-IsSettled :
      (applied : ℕ) (r : Result (Unit {0}) × W)
      → IsSettled (routes_applied client k e plan cfg s applied r)
  unfolding routes_applied
  applied-IsSettled applied (err x, w) = failed-IsSettled w plan.drift_status (error_text x)
  applied-IsSettled applied (ok tt, w) = synced-IsSettled w applied

  rewrites-IsSettled :
      (w : W) (rewrites : List RewriteRoute)
      → IsSettled (rewrites_applied client k e plan cfg s w rewrites)
  unfolding rewrites_applied
  rewrites-IsSettled w [] = applied-IsSettled 0 (ok tt, w)
  rewrites-IsSettled w (r ∷ rest) = applied-IsSettled 0 _

  execute-IsSettled : (w : W) → IsSettled (execute_for client k e plan s w (ok cfg))
  unfolding execute_for
  execute-IsSettled w = elim (Bool-cases (plan.drift_status == "in_sync")) [
    | inl in_sync ↦ rw (in_sync) (rewrites-IsSettled w plan.rewrite_routes)
    | inr other ↦ elim (Bool-cases (plan.drift_status == "conflict")) [
      | inl conflict ↦ rw (other, conflict) (failed-IsSettled w "conflict" conflict_text)
      | inr drifted ↦ rw (other, drifted) (applied-IsSettled (count_applied plan.actions) _)
    ]
  ]

-- ExecutePlan over a store with a configuration always returns a result that is also stored: failed,
-- and then no CloudFront subscription is rendered from the store that it leaves, or synced without
-- drift. A plan with the status of a conflict fails without any call of the client.
pub execute_plan-IsSettled :
    {W : Type 0} (client : Client W) (k : Codec) (e : Env) (plan : SyncPlan) (s : MemoryStore)
    (w : W) (cfg : CloudFrontConfig)
    → s.cloud_front_config ≡ some cfg
    → IsSettled (execute_plan client k e plan s w)
      × (plan.drift_status ≡ "conflict"
          → ((execute_plan client k e plan s w).2 ≡ w)
            × ((execute_plan client k e plan s w).1
                ≡ update_status k e cfg "failed" "conflict" conflict_text plan.actions s))
unfolding execute_plan get_cloud_front_config config_or_not_found
execute_plan-IsSettled client k e plan s w cfg stored =
    subst
      (λ r.
        IsSettled r
        × (plan.drift_status ≡ "conflict"
            → (r.2 ≡ w)
              × (r.1 ≡ update_status k e cfg "failed" "conflict" conflict_text plan.actions s)))
      (ap (λ c. execute_for client k e plan s w (config_or_not_found c)) (sym stored))
      (execute-IsSettled client k e plan cfg s stored w, blocked)
  where
    blocked :
        plan.drift_status ≡ "conflict"
        → ((execute_for client k e plan s w (ok cfg)).2 ≡ w)
          × ((execute_for client k e plan s w (ok cfg)).1
              ≡ update_status k e cfg "failed" "conflict" conflict_text plan.actions s)
    blocked conflict = unfold execute_for finished in rw (conflict) (refl, refl)
