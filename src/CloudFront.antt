-- ===== src/CloudFront.antt =====
-- internal/cloudfront/client.go: the state of a distribution, and the actions on its routes.
pub mod Plan
pub mod Bind
pub mod Scan
pub mod Sync
use v2ray_platform.Base.{String, Bool, List}
use v2ray_platform.Base.Result.{Result}
use v2ray_platform.Domain.{CloudFrontOrigin, CloudFrontBinding}

pub record OriginState : Type 0 where
  pub origin_id : String
  pub domain_name : String

pub record BehaviorState : Type 0 where
  pub path_pattern : String
  pub origin_id : String
  pub is_default : Bool

pub record ParameterDefinitionState : Type 0 where
  pub name : String
  pub required : Bool
  pub default_value : String
  pub comment : String

pub record DistributionState : Type 0 where
  pub distribution_id : String
  pub domain_name : String
  pub status : String
  pub comment : String
  pub aliases : List String
  pub origins : List OriginState
  pub behaviors : List BehaviorState
  pub parameters : List ParameterDefinitionState

pub record RouteAction : Type 0 where
  pub action : String
  pub route_key : String
  pub origin_id : String
  pub host : String
  pub group_name : String
  pub reason : String

pub record RewriteRoute : Type 0 where
  pub route_key : String
  pub path : String

pub record DistributionSummary : Type 0 where
  pub distribution_id : String
  pub domain_name : String
  pub status : String
  pub comment : String
  pub aliases : List String
  pub managed_resources_detected : Bool

-- `Client`, over any state of the outside world
pub record Client (W : Type 0) : Type 0 where
  pub list_distributions : W → Result (List DistributionSummary) × W
  pub get_distribution : String → W → Result DistributionState × W
  pub apply_distribution_routes :
      String → List RouteAction → List RewriteRoute → W → Result (Unit {0}) × W

-- `encoding/json` for the values that the services store
pub record Codec : Type 0 where
  pub marshal_origins : List CloudFrontOrigin → String
  pub unmarshal_origins : String → Result (List CloudFrontOrigin)
  pub marshal_bindings : List CloudFrontBinding → Result String
  pub marshal_actions : List RouteAction → String
