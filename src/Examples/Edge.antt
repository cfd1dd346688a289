-- ===== src/Examples/Edge.antt =====
-- The theorems on the CloudFront configuration, applied to the small store.
use v2ray_platform.Base.{String, ◌≡◌, ◌≢◌, refl, true, false, none, some}
use v2ray_platform.Base.Result.{ok}
use v2ray_platform.Base.Text.{trim_space}
use v2ray_platform.Store.State.{SaveCloudFrontConfigInput, UpdateCloudFrontSyncInput}
use v2ray_platform.Store.CloudFront.{
  saved_config, save_cloud_front_config, saved_fields, set_non_empty, clear_if,
}
use v2ray_platform.Store.CloudFront.Markers.{
  same_target, SameMarkers, IsCleared, saved_config-markers,
}
use v2ray_platform.Api.{cloud_front_render_config}
use v2ray_platform.Api.Gate.{
  is_servable, cloud_front_render_config-gate, cloud_front_render_config-retarget,
}
use v2ray_platform.Examples.{env, config, store}

-- another distribution, and no secrets
abbrev move : SaveCloudFrontConfigInput
move = record {
  encrypted_access_key_id = "";
  encrypted_secret_access_key = "";
  encrypted_session_token = "";
  aws_region = "";
  custom_entry_host = "";
  mode = "";
  distribution_id = "E2";
  distribution_domain_name = "d2.example.org";
  retain_existing_secrets = true;
  enabled = none;
}

abbrev failed_attempt : UpdateCloudFrontSyncInput
failed_attempt = record {
  distribution_id = "";
  distribution_domain_name = "";
  mode = "";
  bindings_json = "";
  plan_json = "";
  sync_status = "failed";
  drift_status = "drifted";
  last_sync_error = "no";
  preserve_sync_status = false;
}

saved_config-markers_example :
    (same_target config (saved_config 20 move (some config)) ≡ true
      → SameMarkers config (saved_config 20 move (some config)))
    × (same_target config (saved_config 20 move (some config)) ≡ false
        → IsCleared (saved_config 20 move (some config)))
saved_config-markers_example = saved_config-markers 20 move config

cloud_front_render_config-gate_example :
    (is_servable config ≡ true → cloud_front_render_config store ≡ ok ("d1.example.org", ""))
    × (is_servable config ≡ false
        → (out : String × String) → cloud_front_render_config store ≢ ok out)
unfolding trim_space
cloud_front_render_config-gate_example = cloud_front_render_config-gate store config refl

cloud_front_render_config-retarget_example :
    cloud_front_render_config (save_cloud_front_config (env "a") move store).1
    ≢ ok ("d2.example.org", "")
unfolding saved_config saved_fields set_non_empty clear_if
cloud_front_render_config-retarget_example =
    cloud_front_render_config-retarget (env "a") move store config ("d2.example.org", "") refl refl
