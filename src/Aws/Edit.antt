-- ===== src/Aws/Edit.antt =====
-- internal/cloudfront/aws_client.go: the changes of the origins and behaviors of a distribution.
use Prim.Native.String.{◌++◌ as str_append}
use v2ray_platform.Base.{
  String, Bool, ◌&&◌, Option, none, some, List, [], ◌∷◌, ◌==◌, eqb, if◌then◌else◌, length, any_of,
}
use v2ray_platform.Base.Text.{trim_space, trim_prefix}
use v2ray_platform.Aws.{
  CustomOriginConfig, Origin, FunctionAssociations, BehaviorSettings, CacheBehavior,
  DistributionConfig,
}

unfoldable pub route_pattern : String → String
route_pattern route_key = str_append "/" (trim_prefix (trim_space route_key) "/")

abbrev pub managed_caching_disabled_policy_id : String
managed_caching_disabled_policy_id = "4135ea2d-6df8-44a3-9df3-4b5a84be39ad"

abbrev pub default_custom_origin_config : CustomOriginConfig
default_custom_origin_config = record {
  http_port = 80;
  https_port = 443;
  origin_protocol_policy = "https-only";
  origin_ssl_protocols = "<Quantity>1</Quantity><Items><SslProtocol>TLSv1.2</SslProtocol></Items>";
  origin_read_timeout = 30;
  origin_keepalive_timeout = 5;
}

unfoldable pub new_origin : String → String → Origin
new_origin origin_id host = record {
  id = origin_id;
  domain_name = host;
  origin_path = "";
  custom_headers = "";
  s3_origin_config = "";
  custom_origin_config = default_custom_origin_config;
  connection_attempts = 0;
  connection_timeout = 0;
  origin_shield = "";
  origin_access_control_id = "";
}

unfoldable pub with_host : String → Origin → Origin
with_host host origin = record origin {
  domain_name = host;
  custom_origin_config =
      if origin.custom_origin_config.origin_protocol_policy == ""
      then default_custom_origin_config
      else origin.custom_origin_config;
}

-- `upsertOrigin`
unfoldable pub upsert_origin : String → String → List Origin → List Origin
unfolding new_origin with_host
upsert_origin origin_id host [] = new_origin origin_id host ∷ []
upsert_origin origin_id host (origin ∷ rest) =
    let others = upsert_origin origin_id host rest in
    if origin.id == origin_id then with_host host origin ∷ rest else origin ∷ others

abbrev pub or_text : String → String → String
or_text value fallback = if value == "" then fallback else value

abbrev pub or_bool : Option Bool → Option Bool → Option Bool
or_bool none fallback = fallback
or_bool (some b) fallback = some b

abbrev or_policy : String → String → String
or_policy policy values =
    if (policy == "") && values == "" then managed_caching_disabled_policy_id else policy

abbrev or_functions : FunctionAssociations → FunctionAssociations → FunctionAssociations
or_functions own template = if eqb own.quantity 0 && eqb (length own.items) 0 then template else own

-- `copyBehaviorDefaults`
unfoldable pub copy_behavior_defaults : BehaviorSettings → BehaviorSettings → BehaviorSettings
copy_behavior_defaults dst template =
    let values = or_text dst.forwarded_values template.forwarded_values in
    record {
      viewer_protocol_policy = or_text dst.viewer_protocol_policy template.viewer_protocol_policy;
      allowed_methods = or_text dst.allowed_methods template.allowed_methods;
      trusted_signers = or_text dst.trusted_signers template.trusted_signers;
      trusted_key_groups = or_text dst.trusted_key_groups template.trusted_key_groups;
      smooth_streaming = or_bool dst.smooth_streaming template.smooth_streaming;
      compress = or_bool dst.compress template.compress;
      lambda_function_associations =
          or_text dst.lambda_function_associations template.lambda_function_associations;
      function_associations = or_functions dst.function_associations template.function_associations;
      field_level_encryption_id =
          or_text dst.field_level_encryption_id template.field_level_encryption_id;
      realtime_log_config_arn =
          or_text dst.realtime_log_config_arn template.realtime_log_config_arn;
      cache_policy_id = or_policy (or_text dst.cache_policy_id template.cache_policy_id) values;
      forwarded_values = values;
      origin_request_policy_id =
          or_text dst.origin_request_policy_id template.origin_request_policy_id;
      response_headers_policy_id =
          or_text dst.response_headers_policy_id template.response_headers_policy_id;
      grpc_config = or_text dst.grpc_config template.grpc_config;
    }

-- `upsertBehavior`, for the pattern of the route key
unfoldable pub upsert_behavior :
    String → String → BehaviorSettings → List CacheBehavior → List CacheBehavior
unfolding copy_behavior_defaults
upsert_behavior pattern origin_id template [] =
    record {
      path_pattern = pattern;
      target_origin_id = origin_id;
      settings = copy_behavior_defaults template template;
    }
    ∷ []
upsert_behavior pattern origin_id template (behavior ∷ rest) =
    let others = upsert_behavior pattern origin_id template rest in
    let changed : CacheBehavior = record behavior {
      target_origin_id = origin_id;
      settings = copy_behavior_defaults behavior.settings template;
    } in
    if behavior.path_pattern == pattern then changed ∷ rest else behavior ∷ others

-- `removeBehavior`, for the pattern of the route key
unfoldable pub remove_behavior : String → List CacheBehavior → List CacheBehavior
remove_behavior pattern [] = []
remove_behavior pattern (behavior ∷ rest) =
    let others = remove_behavior pattern rest in
    if behavior.path_pattern == pattern then others else behavior ∷ others

-- `behaviorForRouteKey`, for the pattern of the route key
unfoldable pub behavior_for : String → List CacheBehavior → Option CacheBehavior
behavior_for pattern [] = none
behavior_for pattern (behavior ∷ rest) =
    if behavior.path_pattern == pattern then some behavior else behavior_for pattern rest

-- `removeOrigin`
unfoldable pub remove_origin : String → List Origin → List Origin
remove_origin origin_id [] = []
remove_origin origin_id (origin ∷ rest) =
    let others = remove_origin origin_id rest in
    if origin.id == origin_id then others else origin ∷ others

-- `behaviorReferencesOrigin`
unfoldable pub behavior_references_origin : String → List CacheBehavior → Bool
behavior_references_origin origin_id behaviors =
    any_of (λ behavior. behavior.target_origin_id == origin_id) behaviors

-- `defaultBehaviorTemplate`; its pattern and origin are not read
unfoldable pub default_behavior_template : DistributionConfig → BehaviorSettings
default_behavior_template cfg = elim cfg.cache_behaviors.items [
  | [] ↦ cfg.default_cache_behavior.settings
  | behavior ∷ rest ↦ behavior.settings
]
