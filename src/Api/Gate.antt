-- ===== src/Api/Gate.antt =====
-- When a CloudFront subscription is served.
use v2ray_platform.Base.{
  String, ◌≡◌, ◌≢◌, Bool, true, false, not, ◌&&◌, ◌||◌, none, some, ◌==◌, arith, if◌then◌else◌,
  is_some, ap, eq_iff,
}
use v2ray_platform.Base.Result.{ok}
use v2ray_platform.Base.Text.{trim_space}
use v2ray_platform.Domain.{Time, CloudFrontConfig}
use v2ray_platform.Store.State.{
  MemoryStore, Env, SaveCloudFrontConfigInput, UpdateCloudFrontSyncInput,
}
use v2ray_platform.Store.CloudFront.{
  get_cloud_front_config, config_or_not_found, saved_config, save_cloud_front_config,
  with_sync_status, update_cloud_front_sync_status, change_config,
}
use v2ray_platform.Store.CloudFront.Markers.{same_target, saved_config-markers}
use v2ray_platform.Api.{config_hosts, render_config_of, cloud_front_render_config}

-- A configuration that subscriptions may be rendered with.
abbrev pub is_servable : CloudFrontConfig → Bool
is_servable cfg =
    cfg.enabled
    && (not (trim_space cfg.distribution_id == "")
        && (not (trim_space cfg.distribution_domain_name == "")
            && (is_some cfg.last_successful_sync_at
                && (not (cfg.sync_status == "failed")
                    && (not (cfg.drift_status == "drifted")
                        && not (cfg.drift_status == "conflict"))))))

-- the host that clients connect to
abbrev pub entry_host_of : CloudFrontConfig → String
entry_host_of cfg =
    if trim_space cfg.custom_entry_host == ""
    then trim_space cfg.distribution_domain_name
    else trim_space cfg.custom_entry_host

render_config_of-ok :
    (cfg : CloudFrontConfig)
    → is_servable cfg ≡ true
    → render_config_of (ok cfg) ≡ ok (entry_host_of cfg, trim_space cfg.custom_entry_host)
unfolding render_config_of config_hosts
render_config_of-ok cfg h = ground arith

render_config_of-err :
    (cfg : CloudFrontConfig) (out : String × String)
    → is_servable cfg ≡ false
    → render_config_of (ok cfg) ≢ ok out
unfolding render_config_of
render_config_of-err cfg out h k = ground arith

-- A CloudFront subscription is rendered exactly when the stored configuration is enabled, is bound to
-- a distribution, has been synced with success, its last sync has not failed and no drift or conflict
-- is known; it is then rendered with the custom entry host, or else with the domain of the distribution.
pub cloud_front_render_config-gate :
    (s : MemoryStore) (cfg : CloudFrontConfig)
    → s.cloud_front_config ≡ some cfg
    → (is_servable cfg ≡ true
        → cloud_front_render_config s ≡ ok (entry_host_of cfg, trim_space cfg.custom_entry_host))
      × (is_servable cfg ≡ false → (out : String × String) → cloud_front_render_config s ≢ ok out)
unfolding cloud_front_render_config get_cloud_front_config config_or_not_found
cloud_front_render_config-gate s cfg h =
    (λ e. rw (h) (render_config_of-ok cfg e), λ e out. rw (h) (render_config_of-err cfg out e))

unsynced : (cfg : CloudFrontConfig) → cfg.last_successful_sync_at ≡ none → is_servable cfg ≡ false
unsynced cfg h = ground arith

-- From the store that is left by a save that changes the distribution, its domain name or the mode,
-- no CloudFront subscription is rendered.
pub cloud_front_render_config-retarget :
    (e : Env) (input : SaveCloudFrontConfigInput) (s : MemoryStore) (cfg : CloudFrontConfig)
    (out : String × String)
    → s.cloud_front_config ≡ some cfg
    → same_target cfg (saved_config (e.clock 0) input (some cfg)) ≡ false
    → cloud_front_render_config (save_cloud_front_config e input s).1 ≢ ok out
unfolding save_cloud_front_config
cloud_front_render_config-retarget e input s cfg out h changed =
    let next = saved_config (e.clock 0) input (some cfg) in
    let cleared = (saved_config-markers (e.clock 0) input cfg).1 changed in
    (cloud_front_render_config-gate (save_cloud_front_config e input s).1 next
        (ap (λ o. some (saved_config (e.clock 0) input o)) h)).1
      (unsynced next cleared.4) out

unsettled :
    (cfg : CloudFrontConfig)
    → (cfg.sync_status == "failed"
        || cfg.drift_status == "drifted"
        || cfg.drift_status == "conflict")
      ≡ true
    → is_servable cfg ≡ false
unsettled cfg h = ground arith

failed_sync :
    (now : Time) (input : UpdateCloudFrontSyncInput) (cfg : CloudFrontConfig)
    → (input.sync_status == "failed"
        || input.drift_status == "drifted"
        || input.drift_status == "conflict")
      ≡ true
    → is_servable (with_sync_status now input cfg) ≡ false
unfolding with_sync_status
failed_sync now input cfg h =
    let unblank : input.sync_status == "failed" ≡ true → input.sync_status == "" ≡ false =
      λ e. rw ((eq_iff input.sync_status "failed").0 e) in
    unsettled (with_sync_status now input cfg) (ground (arith, unblank))

-- From the store that is left by a sync status that is failed, or that reports a drift or a conflict,
-- no CloudFront subscription is rendered.
pub cloud_front_render_config-failed :
    (e : Env) (input : UpdateCloudFrontSyncInput) (s : MemoryStore) (cfg : CloudFrontConfig)
    (out : String × String)
    → s.cloud_front_config ≡ some cfg
    → (input.sync_status == "failed"
        || input.drift_status == "drifted"
        || input.drift_status == "conflict")
      ≡ true
    → cloud_front_render_config (update_cloud_front_sync_status e input s).1 ≢ ok out
unfolding update_cloud_front_sync_status change_config
cloud_front_render_config-failed e input s cfg out h bad =
    (cloud_front_render_config-gate (update_cloud_front_sync_status e input s).1
        (with_sync_status (e.clock 0) input cfg) (rw (h))).1
      (failed_sync (e.clock 0) input cfg bad) out
