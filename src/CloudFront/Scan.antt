-- ===== src/CloudFront/Scan.antt =====
-- internal/cloudfront/scan.go: the routes of a distribution, stored as its origins.
use v2ray_platform.Base.{String, Option, none, some, List, [], ◌∷◌, ◌==◌, if◌then◌else◌}
use v2ray_platform.Base.Text.{trim_space, trim_prefix}
use v2ray_platform.Base.Result.{Result, ok, err, not_found}
use v2ray_platform.Maps.{Map, lookup}
use v2ray_platform.Domain.{CloudFrontConfig, CloudFrontOrigin}
use v2ray_platform.Store.State.{MemoryStore, Method, Env}
use v2ray_platform.Store.CloudFront.{
  get_cloud_front_config, update_cloud_front_distribution, update_cloud_front_origins,
}
use v2ray_platform.CloudFront.{
  OriginState, BehaviorState, ParameterDefinitionState, DistributionState, Client, Codec,
}
use v2ray_platform.CloudFront.Plan.{origin_by_id}

pub record ScanResult : Type 0 where
  pub distribution_id : String
  pub domain_name : String
  pub origins : List CloudFrontOrigin
  pub distribution_origins : List OriginState
  pub cache_behaviors : List BehaviorState
  pub parameters : List ParameterDefinitionState

unfoldable pub first_non_empty : String → String → String
first_non_empty value fallback = if trim_space value == "" then fallback else value

unfoldable pub origin_of : BehaviorState → String → OriginState → CloudFrontOrigin
origin_of behavior route_key origin = record {
  origin_id = behavior.origin_id;
  host = origin.domain_name;
  route_key = route_key;
  port = 0;
  group_name = "";
}

unfoldable pub add_origin :
    BehaviorState → String → Option OriginState → List CloudFrontOrigin → List CloudFrontOrigin
unfolding origin_of
add_origin behavior route_key none origins = origins
add_origin behavior route_key (some origin) origins = origin_of behavior route_key origin ∷ origins

unfoldable pub scanned_origins : Map OriginState → List BehaviorState → List CloudFrontOrigin
unfolding add_origin
scanned_origins by_id [] = []
scanned_origins by_id (behavior ∷ rest) =
    let origins = scanned_origins by_id rest in
    let route_key = trim_prefix (trim_space behavior.path_pattern) "/" in
    if route_key == ""
    then origins
    else add_origin behavior route_key (lookup behavior.origin_id by_id) origins

unfoldable pub scan_result : DistributionState → ScanResult
unfolding scanned_origins
scan_result dist = record {
  distribution_id = dist.distribution_id;
  domain_name = dist.domain_name;
  origins = scanned_origins (origin_by_id dist.origins []) dist.behaviors;
  distribution_origins = dist.origins;
  cache_behaviors = dist.behaviors;
  parameters = dist.parameters;
}

unfoldable pub origins_stored :
    ScanResult → Result (Unit {0}) × MemoryStore → Result ScanResult × MemoryStore
origins_stored r (err x, s) = (err x, s)
origins_stored r (ok u, s) = (ok r, s)

unfoldable pub distribution_stored :
    Codec → Env → ScanResult → Result (Unit {0}) × MemoryStore → Result ScanResult × MemoryStore
unfolding origins_stored
distribution_stored k e r (err x, s) = (err x, s)
distribution_stored k e r (ok u, s) =
    origins_stored r (update_cloud_front_origins e (k.marshal_origins r.origins) s)

-- `persistDistributionState`, with the inputs of its two calls of the store
unfoldable pub persist_distribution_state :
    Codec → Env → Env → String → DistributionState → Method ScanResult
unfolding distribution_stored scan_result
persist_distribution_state k e e' mode dist s =
    distribution_stored k e' (scan_result dist)
      (update_cloud_front_distribution e dist.distribution_id dist.domain_name mode s)

module _ {W : Type 0} (client : Client W) (k : Codec) (e e' : Env) where
  -- the result, the store and the outside world
  unfoldable pub scan_fetched :
      String → MemoryStore → Result DistributionState × W → Result ScanResult × MemoryStore × W
  scan_fetched mode s (err x, w) = (err x, s, w)
  scan_fetched mode s (ok dist, w) =
      let r = persist_distribution_state k e e' mode dist s in (r.0, r.1, w)

  unfoldable pub scan_config :
      MemoryStore → W → Result CloudFrontConfig → Result ScanResult × MemoryStore × W
  unfolding scan_fetched
  scan_config s w (err x) = (err x, s, w)
  scan_config s w (ok cfg) =
      if trim_space cfg.distribution_id == ""
      then (err not_found, s, w)
      else scan_fetched cfg.mode s (client.get_distribution cfg.distribution_id w)

  -- `ScanDistribution`
  unfoldable pub scan_distribution : MemoryStore → W → Result ScanResult × MemoryStore × W
  unfolding scan_config
  scan_distribution s w = scan_config s w (get_cloud_front_config s)

  -- `ScanDistributionByID`
  unfoldable pub scan_distribution_by_id :
      String → String → MemoryStore → W → Result ScanResult × MemoryStore × W
  unfolding scan_fetched first_non_empty
  scan_distribution_by_id distribution_id mode s w =
      scan_fetched (first_non_empty mode "adopted") s (client.get_distribution distribution_id w)
