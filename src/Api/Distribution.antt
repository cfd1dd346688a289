-- ===== src/Api/Distribution.antt =====
-- internal/api/controlplane.go: the distribution that is planned against, from the stored
-- configuration, with the reading of the JSON as a parameter.
use Prim.Native.String.{◌++◌}
use text.Mathlib.Text.{starts_with}
use v2ray_platform.Base.{
  String, Bool, false, not, ◌||◌, Option, none, some, List, [], ◌∷◌, ◌==◌, if◌then◌else◌, contains,
  any_of,
}
use v2ray_platform.Base.Text.{trim_space}
use v2ray_platform.Base.Result.{Result, ok, err}
use v2ray_platform.Domain.{CloudFrontConfig, CloudFrontOrigin}
use v2ray_platform.CloudFront.{Codec, DistributionState, OriginState, BehaviorState}

abbrev pub no_distribution : DistributionState
no_distribution = record {
  distribution_id = "";
  domain_name = "";
  status = "";
  comment = "";
  aliases = [];
  origins = [];
  behaviors = [];
  parameters = [];
}

-- each origin once, by the identifiers seen
unfoldable pub origins_once : List String → List CloudFrontOrigin → List OriginState
origins_once seen [] = []
origins_once seen (origin ∷ rest) =
    let id = origin.origin_id in
    let again = origins_once seen rest in
    let first : List OriginState =
      record { origin_id = id; domain_name = origin.host } ∷ origins_once (id ∷ seen) rest in
    if contains seen id then again else first

unfoldable pub routes_from : List CloudFrontOrigin → List BehaviorState
routes_from [] = []
routes_from (origin ∷ rest) =
    let routes = routes_from rest in
    if trim_space origin.route_key == ""
    then routes
    else record {
      path_pattern = "/" ++ origin.route_key;
      origin_id = origin.origin_id;
      is_default = false;
    }
      ∷ routes

unfoldable pub with_origins :
    DistributionState → Result (List CloudFrontOrigin) → Result DistributionState
unfolding origins_once routes_from
with_origins dist (err e) = err e
with_origins dist (ok origins) =
    ok (record dist { origins = origins_once [] origins; behaviors = routes_from origins })

unfoldable pub cloud_front_distribution_state_from_config :
    Codec → Option CloudFrontConfig → Result DistributionState
unfolding with_origins
cloud_front_distribution_state_from_config k none = ok no_distribution
cloud_front_distribution_state_from_config k (some cfg) =
    let dist : DistributionState = record no_distribution {
      distribution_id = cfg.distribution_id;
      domain_name = cfg.distribution_domain_name;
    } in
    if cfg.origins_json == ""
    then ok dist
    else with_origins dist (k.unmarshal_origins cfg.origins_json)

unfoldable pub cloud_front_entry_host_configured : Option CloudFrontConfig → Bool
cloud_front_entry_host_configured none = false
cloud_front_entry_host_configured (some cfg) = not (trim_space cfg.custom_entry_host == "")

abbrev is_platform_origin : String → Bool
is_platform_origin origin_id = starts_with (trim_space origin_id) "v2ray-platform-node-"

unfoldable pub distribution_has_managed_resources : Option DistributionState → Bool
distribution_has_managed_resources none = false
distribution_has_managed_resources (some dist) =
    any_of (λ (o : OriginState). is_platform_origin o.origin_id) dist.origins
    || any_of (λ (b : BehaviorState). is_platform_origin b.origin_id) dist.behaviors
