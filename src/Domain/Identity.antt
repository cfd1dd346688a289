-- ===== src/Domain/Identity.antt =====
-- internal/domain/types.go: admins, sessions, nodes, tiers, members and bootstrap tokens.
use v2ray_platform.Base.{ℕ, String, Option, List}
use v2ray_platform.Base.Int64.{Int64}

-- `time.Time`: nanoseconds since the zero time
abbrev pub Time : Type 0
Time = ℕ

abbrev pub NodeStatus : Type 0
NodeStatus = String

abbrev pub node_status_provisioning : NodeStatus
node_status_provisioning = "provisioning"

abbrev pub node_status_online : NodeStatus
node_status_online = "online"

abbrev pub node_status_degraded : NodeStatus
node_status_degraded = "degraded"

pub record Admin : Type 0 where
  pub id : String
  pub email : String
  pub password_hash : String
  pub created_at : Time
  pub updated_at : Time

pub record Node : Type 0 where
  pub id : String
  pub name : String
  pub region : String
  pub public_host : String
  pub provider : String
  pub tags : List String
  pub runtime_flavor : String
  pub proxy_node_id : String
  pub route_key : String
  pub status : NodeStatus
  pub last_heartbeat_at : Time
  pub current_config_version : Int64
  pub node_token_hash : String
  pub created_at : Time
  pub updated_at : Time

abbrev pub MemberStatus : Type 0
MemberStatus = String

abbrev pub member_status_active : MemberStatus
member_status_active = "active"

abbrev pub member_status_suspended : MemberStatus
member_status_suspended = "suspended"

abbrev pub member_status_expired : MemberStatus
member_status_expired = "expired"

abbrev pub member_status_archived : MemberStatus
member_status_archived = "archived"

pub record Tier : Type 0 where
  pub id : String
  pub name : String
  pub description : String
  pub quota_bytes : Int64
  pub quota_type : String
  pub created_at : Time
  pub updated_at : Time

pub record Member : Type 0 where
  pub id : String
  pub uuid : String
  pub name : String
  pub email : String
  pub note : String
  pub status : MemberStatus
  pub expires_at : Option Time
  pub quota_bytes_limit : Int64
  pub tier_id : String
  pub subscription_token : String
  pub disabled_reason : String
  pub created_at : Time
  pub updated_at : Time

pub record BootstrapToken : Type 0 where
  pub id : String
  pub description : String
  pub token_hash : String
  pub expires_at : Option Time
  pub used_at : Option Time
  pub created_at : Time

pub record AdminSession : Type 0 where
  pub id : String
  pub admin_id : String
  pub expires_at : Time
  pub revoked_at : Option Time
  pub last_seen_at : Option Time
  pub created_at : Time
  pub updated_at : Time
