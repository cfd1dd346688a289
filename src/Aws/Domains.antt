-- ===== src/Aws/Domains.antt =====
-- internal/cloudfront/aws_client.go: the domains and the state of a distribution from what is fetched.
use v2ray_platform.Base.{
  String, true, false, ◌||◌, Option, none, some, List, [], ◌∷◌, ◌++◌, map, ◌==◌, if◌then◌else◌,
  contains,
}
use v2ray_platform.Base.Text.{trim_space}
use v2ray_platform.CloudFront.{
  OriginState, BehaviorState, ParameterDefinitionState, DistributionState,
}
use v2ray_platform.Aws.{
  Origin, CacheBehavior, Aliases, ParameterDefinition, ParameterDefinitions, DistributionResponse,
  all_definitions,
}

unfoldable pub normalize_distribution_domain : String → String
normalize_distribution_domain value =
    let trimmed = trim_space value in if (trimmed == "") || trimmed == "-" then "" else trimmed

unfoldable pub first_alias : List String → String
unfolding normalize_distribution_domain
first_alias [] = ""
first_alias (alias ∷ rest) =
    if normalize_distribution_domain alias == ""
    then first_alias rest
    else normalize_distribution_domain alias

unfoldable pub preferred_distribution_domain : String → List String → String
unfolding first_alias normalize_distribution_domain
preferred_distribution_domain domain_name aliases =
    if normalize_distribution_domain domain_name == ""
    then first_alias aliases
    else normalize_distribution_domain domain_name

-- the loop of `mergeDistributionDomains`, whose set of seen domains is its result so far
unfoldable pub merge_domains : List String → List String → List String
unfolding normalize_distribution_domain
merge_domains [] out = out
merge_domains (value ∷ rest) out =
    let domain = normalize_distribution_domain value in
    merge_domains rest (if (domain == "") || contains out domain then out else out ++ domain ∷ [])

unfoldable pub merge_distribution_domains : List String → List String → List String
unfolding merge_domains
merge_distribution_domains existing extras = merge_domains (existing ++ extras) []

unfoldable pub alias_items : Option Aliases → List String
alias_items none = []
alias_items (some aliases) = aliases.items

unfoldable pub origin_state : Origin → OriginState
origin_state origin = record { origin_id = origin.id; domain_name = origin.domain_name }

unfoldable pub behavior_state : CacheBehavior → BehaviorState
behavior_state behavior = record {
  path_pattern = behavior.path_pattern;
  origin_id = behavior.target_origin_id;
  is_default = false;
}

unfoldable pub with_default : String → List BehaviorState → List BehaviorState
with_default target_origin_id behaviors =
    if trim_space target_origin_id == ""
    then behaviors
    else record { path_pattern = "/"; origin_id = target_origin_id; is_default = true } ∷ behaviors

unfoldable pub parameter_state : ParameterDefinition → ParameterDefinitionState
parameter_state p = record {
  name = trim_space p.name;
  required = p.definition.required;
  default_value = trim_space p.definition.default_value;
  comment = trim_space p.definition.comment;
}

unfoldable pub parameter_states : Option ParameterDefinitions → List ParameterDefinitionState
unfolding parameter_state
parameter_states none = []
parameter_states (some p) = map parameter_state (all_definitions p)

-- `distributionStateFromResponse`
unfoldable pub distribution_state_from_response : DistributionResponse → DistributionState
unfolding alias_items origin_state behavior_state with_default parameter_states
distribution_state_from_response payload =
    let cfg = payload.distribution_config in
    let aliases = alias_items cfg.aliases in
    record {
      distribution_id = payload.id;
      domain_name = preferred_distribution_domain payload.domain_name aliases;
      status = payload.status;
      comment = cfg.comment;
      aliases = aliases;
      origins = map origin_state cfg.origins.items;
      behaviors =
          with_default cfg.default_cache_behavior.target_origin_id
            (map behavior_state cfg.cache_behaviors.items);
      parameters = parameter_states cfg.tenant_config;
    }
