-- ===== src/Aws/Normalize.antt =====
-- internal/cloudfront/aws_client.go: `normalize`, which fills the fields that the service expects.
use v2ray_platform.Base.{
  String, Bool, false, Option, none, some, List, [], map, ◌==◌, eqb, if◌then◌else◌, length,
}
use v2ray_platform.Base.Int64.{Int64}
use v2ray_platform.Base.Text.{trim_space, equal_fold}
use v2ray_platform.Base.Sort.{sort_slice, str_lt}
use v2ray_platform.Aws.{
  CustomOriginConfig, Origin, Origins, FunctionAssociations, BehaviorSettings, CacheBehavior,
  CacheBehaviors, Aliases, ParameterDefinitions, DistributionConfig, all_definitions,
}
use v2ray_platform.Aws.Edit.{or_text, or_bool}

abbrev or_number : Int64 → Int64 → Int64
or_number value fallback = if eqb value 0 then fallback else value

unfoldable pub normal_ports : CustomOriginConfig → CustomOriginConfig
normal_ports c = record c {
  http_port = or_number c.http_port 80;
  https_port = or_number c.https_port 443;
  origin_read_timeout = or_number c.origin_read_timeout 30;
  origin_keepalive_timeout = or_number c.origin_keepalive_timeout 5;
}

unfoldable pub normal_origin : Origin → Origin
unfolding normal_ports
normal_origin origin = record origin {
  custom_headers = or_text origin.custom_headers "<Quantity>0</Quantity>";
  origin_shield = or_text origin.origin_shield "<Enabled>false</Enabled>";
  connection_attempts = or_number origin.connection_attempts 3;
  connection_timeout = or_number origin.connection_timeout 10;
  custom_origin_config = normal_ports origin.custom_origin_config;
}

abbrev nobody_trusted : String
nobody_trusted = "<Enabled>false</Enabled><Quantity>0</Quantity>"

unfoldable pub counted : FunctionAssociations → FunctionAssociations
counted associations = record associations { quantity = length associations.items }

-- the settings of a behavior, and of the default behavior
unfoldable pub normal_settings : Bool → BehaviorSettings → BehaviorSettings
unfolding counted
normal_settings tenant_only settings = record settings {
  smooth_streaming = if tenant_only then none else or_bool settings.smooth_streaming (some false);
  trusted_signers = if tenant_only then "" else or_text settings.trusted_signers nobody_trusted;
  compress = or_bool settings.compress (some false);
  trusted_key_groups = or_text settings.trusted_key_groups nobody_trusted;
  lambda_function_associations =
      or_text settings.lambda_function_associations "<Quantity>0</Quantity>";
  grpc_config = or_text settings.grpc_config "<Enabled>false</Enabled>";
  function_associations = counted settings.function_associations;
}

unfoldable pub normal_behavior : Bool → CacheBehavior → CacheBehavior
unfolding normal_settings
normal_behavior tenant_only behavior = record behavior {
  settings = normal_settings tenant_only behavior.settings;
}

unfoldable pub normal_tenant : Option ParameterDefinitions → Option ParameterDefinitions
normal_tenant none = none
normal_tenant (some p) = if eqb (length (all_definitions p)) 0 then none else some p

abbrev counted_aliases : Option Aliases → Option Aliases
counted_aliases none = some (record { quantity = 0; items = [] })
counted_aliases (some aliases) = some (record aliases { quantity = length aliases.items })

unfoldable pub normal_aliases : Bool → Option Aliases → Option Aliases
normal_aliases tenant_only aliases = if tenant_only then none else counted_aliases aliases

unfoldable pub is_tenant_only : DistributionConfig → Bool
is_tenant_only cfg = equal_fold (trim_space cfg.connection_mode) "tenant-only"

unfoldable pub normal_origins : List Origin → Origins
unfolding normal_origin
normal_origins origins =
    let sorted = sort_slice (λ a b. str_lt a.id b.id) (map normal_origin origins) in
    record { quantity = length sorted; items = sorted }

unfoldable pub normal_behaviors : Bool → List CacheBehavior → CacheBehaviors
unfolding normal_behavior
normal_behaviors tenant_only behaviors =
    let sorted =
      sort_slice (λ a b. str_lt a.path_pattern b.path_pattern)
        (map (normal_behavior tenant_only) behaviors) in
    record { quantity = length sorted; items = sorted }

-- `normalize`
unfoldable pub normalize : DistributionConfig → DistributionConfig
unfolding normal_tenant normal_aliases normal_origins normal_behaviors normal_settings
normalize cfg =
    let tenant_only = is_tenant_only cfg in
    record cfg {
      tenant_config = normal_tenant cfg.tenant_config;
      aliases = normal_aliases tenant_only cfg.aliases;
      price_class =
          if tenant_only
          then ""
          else if trim_space cfg.price_class == ""
          then "PriceClass_All"
          else cfg.price_class;
      continuous_deployment_policy_id =
          if tenant_only then "" else cfg.continuous_deployment_policy_id;
      anycast_ip_list_id = if tenant_only then "" else cfg.anycast_ip_list_id;
      is_ipv6_enabled = if tenant_only then false else cfg.is_ipv6_enabled;
      origins = normal_origins cfg.origins.items;
      default_cache_behavior = record cfg.default_cache_behavior {
        settings = normal_settings tenant_only cfg.default_cache_behavior.settings;
      };
      cache_behaviors = normal_behaviors tenant_only cfg.cache_behaviors.items;
    }
