-- ===== src/Aws.antt =====
-- internal/cloudfront/aws_client.go: the configuration of a distribution as the client edits it. The
-- texts of the fields that are passed through are their XML; the names of elements are left out.
pub mod Normalize
pub mod Edit
pub mod Managed
pub mod Domains
pub mod Apply
pub mod Paths
pub mod Actions
pub mod Routes
use v2ray_platform.Base.{ℕ, String, Bool, Option, List, [], ◌∷◌, ◌++◌}
use v2ray_platform.Base.Int64.{Int64}

pub record CustomOriginConfig : Type 0 where
  pub http_port : Int64
  pub https_port : Int64
  pub origin_protocol_policy : String
  pub origin_ssl_protocols : String
  pub origin_read_timeout : Int64
  pub origin_keepalive_timeout : Int64

pub record Origin : Type 0 where
  pub id : String
  pub domain_name : String
  pub origin_path : String
  pub custom_headers : String
  pub s3_origin_config : String
  pub custom_origin_config : CustomOriginConfig
  pub connection_attempts : Int64
  pub connection_timeout : Int64
  pub origin_shield : String
  pub origin_access_control_id : String

pub record FunctionAssociation : Type 0 where
  pub event_type : String
  pub function_arn : String

pub record FunctionAssociations : Type 0 where
  pub quantity : ℕ
  pub items : List FunctionAssociation

-- the fields of a behavior that the default behavior has too
pub record BehaviorSettings : Type 0 where
  pub trusted_signers : String
  pub trusted_key_groups : String
  pub viewer_protocol_policy : String
  pub allowed_methods : String
  pub smooth_streaming : Option Bool
  pub compress : Option Bool
  pub lambda_function_associations : String
  pub function_associations : FunctionAssociations
  pub field_level_encryption_id : String
  pub realtime_log_config_arn : String
  pub cache_policy_id : String
  pub forwarded_values : String
  pub origin_request_policy_id : String
  pub response_headers_policy_id : String
  pub grpc_config : String

-- `cacheBehaviorXML`
pub record CacheBehavior : Type 0 where
  pub path_pattern : String
  pub target_origin_id : String
  pub settings : BehaviorSettings

-- `defaultCacheBehaviorXML`
pub record DefaultCacheBehavior : Type 0 where
  pub target_origin_id : String
  pub settings : BehaviorSettings

pub record Aliases : Type 0 where
  pub quantity : ℕ
  pub items : List String

pub record Origins : Type 0 where
  pub quantity : ℕ
  pub items : List Origin

pub record CacheBehaviors : Type 0 where
  pub quantity : ℕ
  pub items : List CacheBehavior

pub record StringSchemaConfig : Type 0 where
  pub required : Bool
  pub comment : String
  pub default_value : String

pub record ParameterDefinition : Type 0 where
  pub name : String
  pub definition : StringSchemaConfig

pub record ParameterDefinitions : Type 0 where
  pub direct : List ParameterDefinition
  pub member : List ParameterDefinition

pub record DistributionConfig : Type 0 where
  pub xmlns : String
  pub caller_reference : String
  pub aliases : Option Aliases
  pub default_root_object : String
  pub origins : Origins
  pub origin_groups : String
  pub default_cache_behavior : DefaultCacheBehavior
  pub cache_behaviors : CacheBehaviors
  pub cache_tag_config : String
  pub connection_function_association : String
  pub connection_mode : String
  pub custom_error_responses : String
  pub comment : String
  pub logging : String
  pub price_class : String
  pub enabled : Bool
  pub viewer_certificate : String
  pub restrictions : String
  pub web_acl_id : String
  pub http_version : String
  pub is_ipv6_enabled : Bool
  pub continuous_deployment_policy_id : String
  pub staging : Bool
  pub anycast_ip_list_id : String
  pub tenant_config : Option ParameterDefinitions
  pub viewer_mtls_config : String

-- `all`
unfoldable pub all_definitions : ParameterDefinitions → List ParameterDefinition
all_definitions p = p.direct ++ p.member

pub record DistributionResponse : Type 0 where
  pub id : String
  pub status : String
  pub domain_name : String
  pub distribution_config : DistributionConfig
