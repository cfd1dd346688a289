-- ===== src/Domain/Activity.antt =====
-- internal/domain/types.go: revisions, sync events, audit logs, pending users, usage and alerts.
use v2ray_platform.Base.{String, Bool}
use v2ray_platform.Base.Int64.{Int64}
use v2ray_platform.Domain.Identity.{Time}

pub record ConfigRevision : Type 0 where
  pub node_id : String
  pub config_version : Int64
  pub config : String
  pub config_hash : String
  pub updated_at : Time

pub record NodeSyncEvent : Type 0 where
  pub id : String
  pub node_id : String
  pub config_version : Int64
  pub success : Bool
  pub message : String
  pub occurred_at : Time

pub record AuditLog : Type 0 where
  pub id : Int64
  pub actor_admin_id : String
  pub action : String
  pub target_type : String
  pub target_id : String
  pub payload : String
  pub created_at : Time

pub record PendingUserRemoval : Type 0 where
  pub id : String
  pub node_id : String
  pub member_uuid : String
  pub member_email : String
  pub created_at : Time

pub record PendingUserAddition : Type 0 where
  pub id : String
  pub node_id : String
  pub member_uuid : String
  pub member_email : String
  pub created_at : Time

pub record UsageSnapshot : Type 0 where
  pub credential_uuid : String
  pub uplink_bytes : Int64
  pub downlink_bytes : Int64
  pub collected_at : Time

pub record NodeUsageSummary : Type 0 where
  pub node_id : String
  pub node_name : String
  pub uplink_bytes : Int64
  pub downlink_bytes : Int64
  pub total_bytes : Int64
  pub snapshot_count : Int64

pub record MemberUsageSummary : Type 0 where
  pub member_id : String
  pub member_name : String
  pub member_email : String
  pub uplink_bytes : Int64
  pub downlink_bytes : Int64
  pub total_bytes : Int64
  pub snapshot_count : Int64

pub record PlatformSettings : Type 0 where
  pub id : String
  pub usage_collection_enabled : Bool
  pub created_at : Time
  pub updated_at : Time

abbrev pub AlertSeverity : Type 0
AlertSeverity = String

pub record Alert : Type 0 where
  pub fingerprint : String
  pub type : String
  pub severity : AlertSeverity
  pub status : String
  pub title : String
  pub message : String
  pub target_type : String
  pub target_id : String
  pub first_seen_at : Time
  pub last_seen_at : Time
