-- ===== src/Store/CloudFront/Markers.antt =====
-- What a change of the CloudFront configuration does to the markers of the last sync and to the
-- secrets.
use v2ray_platform.Base.{
  String, ◌≡◌, refl, Bool, true, false, not, ◌&&◌, ◌||◌, none, some, ◌==◌, arith, eq_refl,
  if◌then◌else◌,
}
use v2ray_platform.Domain.{Time, CloudFrontConfig}
use v2ray_platform.Store.State.{SaveCloudFrontConfigInput}
use v2ray_platform.Store.CloudFront.{
  saved_config, saved_fields, target_changed, changes, set_non_empty, save_secret, clear_if,
  clear_cloud_front_sync_markers, with_distribution,
}

-- Both configurations route to the same distribution, in the same mode.
abbrev pub same_target : CloudFrontConfig → CloudFrontConfig → Bool
same_target a b =
    a.distribution_id == b.distribution_id
    && (a.distribution_domain_name == b.distribution_domain_name && a.mode == b.mode)

-- Both configurations say the same of the last sync.
abbrev pub SameMarkers : CloudFrontConfig → CloudFrontConfig → Type 0
SameMarkers a b =
    (b.sync_status ≡ a.sync_status)
    × (b.drift_status ≡ a.drift_status)
    × (b.last_sync_error ≡ a.last_sync_error)
    × (b.last_synced_at ≡ a.last_synced_at)
    × (b.last_successful_sync_at ≡ a.last_successful_sync_at)

-- The configuration says nothing of a sync.
abbrev pub IsCleared : CloudFrontConfig → Type 0
IsCleared b =
    (b.sync_status ≡ "idle")
    × (b.drift_status ≡ "")
    × (b.last_sync_error ≡ "")
    × (b.last_synced_at ≡ none)
    × (b.last_successful_sync_at ≡ none)

changes-set_non_empty :
    (value old : String) → changes value old ≡ not (old == set_non_empty value old)
unfolding changes set_non_empty
changes-set_non_empty value old = ground (arith, eq_refl old)

same_target-clear_if :
    (a b : CloudFrontConfig) (c : Bool) (now : Time)
    → same_target a (record (clear_if c b) { updated_at = now }) ≡ same_target a b
unfolding clear_if clear_cloud_front_sync_markers
same_target-clear_if a b true now = refl
same_target-clear_if a b false now = refl

-- Markers that are cleared under a test are cleared exactly when the target has changed, when the
-- test says that it has.
clear_if-target :
    (a b : CloudFrontConfig) (c : Bool) (now : Time)
    → SameMarkers a b
    → same_target a b ≡ not c
    → (same_target a (record (clear_if c b) { updated_at = now }) ≡ true
        → SameMarkers a (record (clear_if c b) { updated_at = now }))
      × (same_target a (record (clear_if c b) { updated_at = now }) ≡ false
          → IsCleared (record (clear_if c b) { updated_at = now }))
unfolding clear_if clear_cloud_front_sync_markers
clear_if-target a b true now h t = (λ e. cc, λ e. (refl, refl, refl, refl, refl))
clear_if-target a b false now h t = (λ e. h, λ e. cc)

saved_fields-target :
    (input : SaveCloudFrontConfigInput) (cfg : CloudFrontConfig)
    → same_target cfg (saved_fields input cfg) ≡ not (target_changed input cfg)
unfolding saved_fields target_changed
saved_fields-target input cfg =
    rw (changes-set_non_empty, changes-set_non_empty, changes-set_non_empty) (ground arith)

saved_fields-markers :
    (input : SaveCloudFrontConfigInput) (cfg : CloudFrontConfig)
    → SameMarkers cfg (saved_fields input cfg)
unfolding saved_fields
saved_fields-markers input cfg = (refl, refl, refl, refl, refl)

-- Saving a configuration over a stored one keeps what is known of the last sync when the stored
-- target stays the same, and clears it when the distribution, its domain name or the mode changes.
pub saved_config-markers :
    (now : Time) (input : SaveCloudFrontConfigInput) (cfg : CloudFrontConfig)
    → (same_target cfg (saved_config now input (some cfg)) ≡ true
        → SameMarkers cfg (saved_config now input (some cfg)))
      × (same_target cfg (saved_config now input (some cfg)) ≡ false
          → IsCleared (saved_config now input (some cfg)))
unfolding saved_config
saved_config-markers now input cfg =
    clear_if-target cfg (saved_fields input cfg) (target_changed input cfg) now
      (saved_fields-markers input cfg) (saved_fields-target input cfg)

-- Binding a distribution keeps what is known of the last sync when the target stays the same, and
-- clears it when the distribution, its domain name or the mode changes.
pub with_distribution-markers :
    (now : Time) (id domain mode : String) (cfg : CloudFrontConfig)
    → (same_target cfg (with_distribution now id domain mode cfg) ≡ true
        → SameMarkers cfg (with_distribution now id domain mode cfg))
      × (same_target cfg (with_distribution now id domain mode cfg) ≡ false
          → IsCleared (with_distribution now id domain mode cfg))
unfolding with_distribution
with_distribution-markers now id domain mode cfg =
    clear_if-target cfg
      (record cfg { distribution_id = id; distribution_domain_name = domain; mode = mode })
      (not (cfg.distribution_id == id)
        || not (cfg.distribution_domain_name == domain)
        || not (cfg.mode == mode))
      now (refl, refl, refl, refl, refl) (ground arith)

-- A secret that is given is stored; one that is not given is kept when the stored ones are to be
-- retained, and is deleted otherwise.
pub saved_config-secrets :
    (now : Time) (input : SaveCloudFrontConfigInput) (cfg : CloudFrontConfig)
    → ((saved_config now input (some cfg)).encrypted_secret_access_key ≡ (
        if input.retain_existing_secrets && input.encrypted_secret_access_key == ""
        then cfg.encrypted_secret_access_key
        else input.encrypted_secret_access_key))
      × ((saved_config now input (some cfg)).encrypted_access_key_id ≡ (
          if input.retain_existing_secrets && input.encrypted_access_key_id == ""
          then cfg.encrypted_access_key_id
          else input.encrypted_access_key_id))
unfolding saved_config saved_fields save_secret clear_if
saved_config-secrets now input cfg = (ground arith, ground arith)
