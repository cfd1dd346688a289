-- ===== src/Aws/Managed.antt =====
-- internal/cloudfront/aws_client.go: the configuration of a distribution that the platform creates.
use Prim.Native.String.{◌++◌}
use v2ray_platform.Base.{
  String, true, false, ◌||◌, none, some, List, [], ◌∷◌, map, ◌==◌, if◌then◌else◌,
}
use v2ray_platform.Base.Text.{trim_space}
use v2ray_platform.Base.Decimal.{format_int}
use v2ray_platform.Domain.{Time}
use v2ray_platform.Store.Pending.{unix_nano}
use v2ray_platform.CloudFront.{RewriteRoute}
use v2ray_platform.CloudFront.Bind.{managed_origin_id}
use v2ray_platform.Aws.{
  FunctionAssociations, BehaviorSettings, CacheBehavior, Origin, DistributionConfig,
}
use v2ray_platform.Aws.Edit.{route_pattern, new_origin, managed_caching_disabled_policy_id}
use v2ray_platform.Aws.Normalize.{normalize}

pub record CreateDistributionNode : Type 0 where
  pub node_id : String
  pub route_key : String
  pub host : String
  pub rewrite_path : String

pub record CreateDistributionInput : Type 0 where
  pub comment : String
  pub nodes : List CreateDistributionNode

-- `filteredNodes`
unfoldable pub complete_nodes : List CreateDistributionNode → List CreateDistributionNode
complete_nodes [] = []
complete_nodes (node ∷ rest) =
    let others = complete_nodes rest in
    if (trim_space node.node_id == "")
      || (trim_space node.route_key == "")
      || trim_space node.host == ""
    then others
    else node ∷ others

-- `rewriteRoutesFromCreateInput`
unfoldable pub rewrite_routes_from : List CreateDistributionNode → List RewriteRoute
rewrite_routes_from [] = []
rewrite_routes_from (node ∷ rest) =
    let others = rewrite_routes_from rest in
    let route : RewriteRoute = record { route_key = node.route_key; path = node.rewrite_path } in
    if (trim_space node.route_key == "") || trim_space node.rewrite_path == ""
    then others
    else route ∷ others

abbrev no_functions : FunctionAssociations
no_functions = record { quantity = 0; items = [] }

abbrev pub empty_settings : BehaviorSettings
empty_settings = record {
  trusted_signers = "";
  trusted_key_groups = "";
  viewer_protocol_policy = "";
  allowed_methods = "";
  smooth_streaming = none;
  compress = none;
  lambda_function_associations = "";
  function_associations = no_functions;
  field_level_encryption_id = "";
  realtime_log_config_arn = "";
  cache_policy_id = "";
  forwarded_values = "";
  origin_request_policy_id = "";
  response_headers_policy_id = "";
  grpc_config = "";
}

abbrev allowed_methods_text : String
allowed_methods_text =
    "<Quantity>2</Quantity><Items><Method>GET</Method><Method>HEAD</Method></Items>"
    ++ "<CachedMethods><Quantity>2</Quantity><Items><Method>GET</Method><Method>HEAD</Method></Items></CachedMethods>"

abbrev pub managed_settings : BehaviorSettings
managed_settings = record empty_settings {
  viewer_protocol_policy = "redirect-to-https";
  allowed_methods = allowed_methods_text;
  compress = some true;
  cache_policy_id = managed_caching_disabled_policy_id;
}

abbrev pub empty_config : DistributionConfig
empty_config = record {
  xmlns = "";
  caller_reference = "";
  aliases = none;
  default_root_object = "";
  origins = record { quantity = 0; items = [] };
  origin_groups = "";
  default_cache_behavior = record { target_origin_id = ""; settings = empty_settings };
  cache_behaviors = record { quantity = 0; items = [] };
  cache_tag_config = "";
  connection_function_association = "";
  connection_mode = "";
  custom_error_responses = "";
  comment = "";
  logging = "";
  price_class = "";
  enabled = false;
  viewer_certificate = "";
  restrictions = "";
  web_acl_id = "";
  http_version = "";
  is_ipv6_enabled = false;
  continuous_deployment_policy_id = "";
  staging = false;
  anycast_ip_list_id = "";
  tenant_config = none;
  viewer_mtls_config = "";
}

unfoldable pub node_origin : CreateDistributionNode → Origin
unfolding new_origin managed_origin_id
node_origin node = new_origin (managed_origin_id node.node_id) node.host

unfoldable pub node_behavior : CreateDistributionNode → CacheBehavior
unfolding route_pattern managed_origin_id
node_behavior node = record {
  path_pattern = route_pattern node.route_key;
  target_origin_id = managed_origin_id node.node_id;
  settings = managed_settings;
}

abbrev or_default : String → String
or_default comment = if comment == "" then "Managed by v2ray-platform" else comment

unfoldable pub managed_config :
    Time → String → CreateDistributionNode → List CreateDistributionNode → DistributionConfig
unfolding node_origin node_behavior managed_origin_id
managed_config now comment first nodes = record empty_config {
  xmlns = "http://cloudfront.amazonaws.com/doc/2020-05-31/";
  caller_reference = "v2ray-platform-" ++ format_int (unix_nano now);
  aliases = some (record { quantity = 0; items = [] });
  origins = record { quantity = 0; items = map node_origin nodes };
  default_cache_behavior = record {
    target_origin_id = managed_origin_id first.node_id;
    settings = managed_settings;
  };
  cache_behaviors = record { quantity = 0; items = map node_behavior nodes };
  comment = or_default (trim_space comment);
  price_class = "PriceClass_All";
  enabled = true;
  viewer_certificate = "<CloudFrontDefaultCertificate>true</CloudFrontDefaultCertificate>";
  restrictions =
      "<GeoRestriction><RestrictionType>none</RestrictionType><Quantity>0</Quantity></GeoRestriction>";
  http_version = "http2";
  is_ipv6_enabled = true;
}

unfoldable pub config_for : Time → String → List CreateDistributionNode → DistributionConfig
unfolding managed_config
config_for now comment [] = empty_config
config_for now comment (node ∷ rest) = normalize (managed_config now comment node (node ∷ rest))

-- `newManagedDistributionConfig`
unfoldable pub new_managed_distribution_config : Time → CreateDistributionInput → DistributionConfig
unfolding config_for complete_nodes
new_managed_distribution_config now input =
    config_for now input.comment (complete_nodes input.nodes)
