-- ===== src/Store/Tiers.antt =====
-- internal/store/memory.go: tiers and the platform settings.
use v2ray_platform.Base.{
  String, Bool, ◌||◌, Option, none, some, List, ◌==◌, ltb, if◌then◌else◌, is_some,
}
use v2ray_platform.Base.Result.{Result, ok, err, not_found}
use v2ray_platform.Base.Sort.{sort_slice}
use v2ray_platform.Base.Text.{trim_space}
use v2ray_platform.Maps.{values, lookup, insert, delete}
use v2ray_platform.Domain.{Time, Tier, PlatformSettings}
use v2ray_platform.Store.State.{
  MemoryStore, Method, Env, CreateTierInput, UpdateTierInput, SavePlatformSettingsInput, patch,
}
use v2ray_platform.Store.Members.{trimmed}

unfoldable pub is_quota_type : String → Bool
is_quota_type t = (t == "monthly") || t == "fixed"

unfoldable pub create_tier : Env → CreateTierInput → Method Tier
unfolding is_quota_type
create_tier e input s =
    let quota_type = trim_space input.quota_type in
    let tier : Tier = record {
      id = e.new_uuid 0;
      name = trim_space input.name;
      description = trim_space input.description;
      quota_bytes = input.quota_bytes;
      quota_type = if is_quota_type quota_type then quota_type else "monthly";
      created_at = e.clock 0;
      updated_at = e.clock 0;
    } in
    (ok tier, record s { tiers = insert tier.id tier s.tiers })

-- a quota type that is neither of the two leaves the tier's as it is
unfoldable pub patch_quota_type : Option String → String → String
unfolding is_quota_type
patch_quota_type none old = old
patch_quota_type (some t) old = if is_quota_type (trim_space t) then trim_space t else old

unfoldable pub update_tier_found :
    Env → String → UpdateTierInput → MemoryStore → Option Tier → Result Tier × MemoryStore
unfolding patch patch_quota_type
update_tier_found e tier_id input s none = (err not_found, s)
update_tier_found e tier_id input s (some t) =
    let tier = record t {
      name = patch (trimmed input.name) t.name;
      description = patch (trimmed input.description) t.description;
      quota_bytes = patch input.quota_bytes t.quota_bytes;
      quota_type = patch_quota_type input.quota_type t.quota_type;
      updated_at = e.clock 0;
    } in
    (ok tier, record s { tiers = insert tier_id tier s.tiers })

unfoldable pub update_tier : Env → String → UpdateTierInput → Method Tier
unfolding update_tier_found
update_tier e tier_id input s = update_tier_found e tier_id input s (lookup tier_id s.tiers)

unfoldable pub delete_tier : String → Method (Unit {0})
delete_tier tier_id s =
    if is_some (lookup tier_id s.tiers)
    then (ok tt, record s { tiers = delete tier_id s.tiers })
    else (err not_found, s)

unfoldable pub list_tiers : MemoryStore → List Tier
list_tiers s = sort_slice (λ a b. ltb a.created_at b.created_at) (values s.tiers)

unfoldable pub settings_or_not_found : Option PlatformSettings → Result PlatformSettings
settings_or_not_found none = err not_found
settings_or_not_found (some p) = ok p

unfoldable pub get_platform_settings : MemoryStore → Result PlatformSettings
unfolding settings_or_not_found
get_platform_settings s = settings_or_not_found s.platform_settings

unfoldable pub saved_settings : Time → Bool → Option PlatformSettings → PlatformSettings
saved_settings now enabled none = record {
  id = "platform-global";
  usage_collection_enabled = enabled;
  created_at = now;
  updated_at = now;
}
saved_settings now enabled (some p) = record p {
  usage_collection_enabled = enabled;
  updated_at = now;
}

unfoldable pub save_platform_settings : Env → SavePlatformSettingsInput → Method (Unit {0})
unfolding saved_settings
save_platform_settings e input s = (
  ok tt,
  record s {
    platform_settings =
        some (saved_settings (e.clock 0) input.usage_collection_enabled s.platform_settings);
  },
)
