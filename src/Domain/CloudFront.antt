-- ===== src/Domain/CloudFront.antt =====
-- internal/domain/types.go: the CloudFront configuration, origins, bindings and sync actions.
use v2ray_platform.Base.{String, Bool, Option}
use v2ray_platform.Base.Int64.{Int64}
use v2ray_platform.Domain.Identity.{Time}

pub record CloudFrontConfig : Type 0 where
  pub id : String
  pub encrypted_access_key_id : String
  pub encrypted_secret_access_key : String
  pub encrypted_session_token : String
  pub aws_region : String
  pub enabled : Bool
  pub custom_entry_host : String
  pub mode : String
  pub distribution_id : String
  pub distribution_domain_name : String
  pub origins_json : String
  pub bindings_json : String
  pub plan_json : String
  pub last_synced_at : Option Time
  pub last_successful_sync_at : Option Time
  pub sync_status : String
  pub drift_status : String
  pub last_sync_error : String
  pub created_at : Time
  pub updated_at : Time

pub record CloudFrontOrigin : Type 0 where
  pub origin_id : String
  pub host : String
  pub route_key : String
  pub port : Int64
  pub group_name : String

pub record CloudFrontBinding : Type 0 where
  pub node_id : String
  pub origin_id : String
  pub route_key : String
  pub group_name : String
