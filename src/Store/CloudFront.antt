-- ===== src/Store/CloudFront.antt =====
-- internal/store/memory.go: the one CloudFront configuration.
pub mod Markers
use v2ray_platform.Base.{
  String, Bool, true, false, not, ◌&&◌, ◌||◌, Option, none, some, ◌==◌, if◌then◌else◌,
}
use v2ray_platform.Base.Result.{Result, ok, err, not_found}
use v2ray_platform.Domain.{Time, CloudFrontConfig}
use v2ray_platform.Store.State.{
  MemoryStore, Method, Env, SaveCloudFrontConfigInput, UpdateCloudFrontSyncInput, first_non_empty,
  patch,
}

unfoldable pub config_or_not_found : Option CloudFrontConfig → Result CloudFrontConfig
config_or_not_found none = err not_found
config_or_not_found (some cfg) = ok cfg

unfoldable pub get_cloud_front_config : MemoryStore → Result CloudFrontConfig
unfolding config_or_not_found
get_cloud_front_config s = config_or_not_found s.cloud_front_config

-- `clearCloudFrontSyncMarkers`
unfoldable pub clear_cloud_front_sync_markers : CloudFrontConfig → CloudFrontConfig
clear_cloud_front_sync_markers cfg = record cfg {
  sync_status = "idle";
  drift_status = "";
  last_sync_error = "";
  last_synced_at = none;
  last_successful_sync_at = none;
}

unfoldable pub new_config : Time → SaveCloudFrontConfigInput → CloudFrontConfig
unfolding patch first_non_empty
new_config now input = record {
  id = "cf-global";
  encrypted_access_key_id = input.encrypted_access_key_id;
  encrypted_secret_access_key = input.encrypted_secret_access_key;
  encrypted_session_token = input.encrypted_session_token;
  aws_region = input.aws_region;
  enabled = patch input.enabled false;
  custom_entry_host = input.custom_entry_host;
  mode = first_non_empty input.mode "managed";
  distribution_id = input.distribution_id;
  distribution_domain_name = input.distribution_domain_name;
  origins_json = "";
  bindings_json = "";
  plan_json = "";
  last_synced_at = none;
  last_successful_sync_at = none;
  sync_status = "";
  drift_status = "";
  last_sync_error = "";
  created_at = now;
  updated_at = now;
}

-- `if value != "" { old = value }`
unfoldable pub set_non_empty : String → String → String
set_non_empty value old = if value == "" then old else value

-- a given value that differs from the stored one
unfoldable pub changes : String → String → Bool
changes value old = not (value == "") && not (old == value)

unfoldable pub target_changed : SaveCloudFrontConfigInput → CloudFrontConfig → Bool
unfolding changes
target_changed input cfg =
    changes input.distribution_id cfg.distribution_id
    || changes input.distribution_domain_name cfg.distribution_domain_name
    || changes input.mode cfg.mode

-- a secret is kept only if it is not given and existing ones are to be retained
unfoldable pub save_secret : Bool → String → String → String
save_secret retain value old = if not retain || not (value == "") then value else old

unfoldable pub saved_fields : SaveCloudFrontConfigInput → CloudFrontConfig → CloudFrontConfig
unfolding save_secret set_non_empty patch
saved_fields input cfg =
    let retain = input.retain_existing_secrets in
    record cfg {
      encrypted_access_key_id =
          save_secret retain input.encrypted_access_key_id cfg.encrypted_access_key_id;
      encrypted_secret_access_key =
          save_secret retain input.encrypted_secret_access_key cfg.encrypted_secret_access_key;
      encrypted_session_token =
          save_secret retain input.encrypted_session_token cfg.encrypted_session_token;
      aws_region = set_non_empty input.aws_region cfg.aws_region;
      custom_entry_host = input.custom_entry_host;
      mode = set_non_empty input.mode cfg.mode;
      distribution_id = set_non_empty input.distribution_id cfg.distribution_id;
      distribution_domain_name =
          set_non_empty input.distribution_domain_name cfg.distribution_domain_name;
      enabled = patch input.enabled cfg.enabled;
    }

unfoldable pub clear_if : Bool → CloudFrontConfig → CloudFrontConfig
unfolding clear_cloud_front_sync_markers
clear_if b cfg = if b then clear_cloud_front_sync_markers cfg else cfg

unfoldable pub saved_config :
    Time → SaveCloudFrontConfigInput → Option CloudFrontConfig → CloudFrontConfig
unfolding new_config target_changed saved_fields clear_if
saved_config now input none = new_config now input
saved_config now input (some cfg) =
    record (clear_if (target_changed input cfg) (saved_fields input cfg)) { updated_at = now }

unfoldable pub save_cloud_front_config : Env → SaveCloudFrontConfigInput → Method (Unit {0})
unfolding saved_config
save_cloud_front_config e input s = (
  ok tt,
  record s { cloud_front_config = some (saved_config (e.clock 0) input s.cloud_front_config) },
)

-- a change of the stored configuration, if there is one
unfoldable pub change_config :
    (CloudFrontConfig → CloudFrontConfig)
    → MemoryStore
    → Option CloudFrontConfig
    → Result (Unit {0}) × MemoryStore
change_config f s none = (err not_found, s)
change_config f s (some cfg) = (ok tt, record s { cloud_front_config = some (f cfg) })

unfoldable pub delete_config :
    MemoryStore → Option CloudFrontConfig → Result (Unit {0}) × MemoryStore
delete_config s none = (err not_found, s)
delete_config s (some cfg) = (ok tt, record s { cloud_front_config = none })

unfoldable pub delete_cloud_front_config : Method (Unit {0})
unfolding delete_config
delete_cloud_front_config s = delete_config s s.cloud_front_config

unfoldable pub with_distribution :
    Time → String → String → String → CloudFrontConfig → CloudFrontConfig
unfolding clear_if
with_distribution now distribution_id distribution_domain_name mode cfg =
    let changed =
      not (cfg.distribution_id == distribution_id)
      || not (cfg.distribution_domain_name == distribution_domain_name)
      || not (cfg.mode == mode) in
    record (clear_if changed (record cfg {
      distribution_id = distribution_id;
      distribution_domain_name = distribution_domain_name;
      mode = mode;
    })) { updated_at = now }

unfoldable pub update_cloud_front_distribution : Env → String → String → String → Method (Unit {0})
unfolding change_config with_distribution
update_cloud_front_distribution e distribution_id distribution_domain_name mode s =
    change_config (with_distribution (e.clock 0) distribution_id distribution_domain_name mode) s
      s.cloud_front_config

unfoldable pub update_cloud_front_origins : Env → String → Method (Unit {0})
unfolding change_config
update_cloud_front_origins e origins_json s =
    change_config (λ cfg. record cfg { origins_json = origins_json; updated_at = e.clock 0 }) s
      s.cloud_front_config

unfoldable pub with_bindings : Time → String → CloudFrontConfig → CloudFrontConfig
unfolding clear_if
with_bindings now bindings_json cfg =
    record (clear_if (not (cfg.bindings_json == bindings_json))
      (record cfg { bindings_json = bindings_json })) { updated_at = now }

unfoldable pub update_cloud_front_bindings : Env → String → Method (Unit {0})
unfolding change_config with_bindings
update_cloud_front_bindings e bindings_json s =
    change_config (with_bindings (e.clock 0) bindings_json) s s.cloud_front_config

unfoldable pub with_sync_status :
    Time → UpdateCloudFrontSyncInput → CloudFrontConfig → CloudFrontConfig
unfolding set_non_empty
with_sync_status now input cfg =
    let updates_sync_attempt = not input.preserve_sync_status || not (input.sync_status == "") in
    record cfg {
      distribution_id = set_non_empty input.distribution_id cfg.distribution_id;
      distribution_domain_name =
          set_non_empty input.distribution_domain_name cfg.distribution_domain_name;
      mode = set_non_empty input.mode cfg.mode;
      bindings_json = set_non_empty input.bindings_json cfg.bindings_json;
      plan_json = set_non_empty input.plan_json cfg.plan_json;
      sync_status = if updates_sync_attempt then input.sync_status else cfg.sync_status;
      drift_status = input.drift_status;
      last_sync_error =
          if not input.preserve_sync_status || not (input.last_sync_error == "")
          then input.last_sync_error
          else cfg.last_sync_error;
      last_synced_at = if updates_sync_attempt then some now else cfg.last_synced_at;
      last_successful_sync_at =
          if input.sync_status == "synced" then some now else cfg.last_successful_sync_at;
      updated_at = now;
    }

unfoldable pub update_cloud_front_sync_status : Env → UpdateCloudFrontSyncInput → Method (Unit {0})
unfolding change_config with_sync_status
update_cloud_front_sync_status e input s =
    change_config (with_sync_status (e.clock 0) input) s s.cloud_front_config

unfoldable pub update_cloud_front_enabled : Env → Bool → Method (Unit {0})
unfolding change_config
update_cloud_front_enabled e enabled s =
    change_config (λ cfg. record cfg { enabled = enabled; updated_at = e.clock 0 }) s
      s.cloud_front_config
