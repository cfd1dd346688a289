-- ===== src/Store/State.antt =====
-- internal/store/memory.go and store.go: the state of `MemoryStore` and the inputs of its methods.
use Prim.Native.String.{◌++◌}
use v2ray_platform.Base.{ℕ, String, Bool, Option, none, some, List, [], ◌==◌, if◌then◌else◌}
use v2ray_platform.Base.Text.{trim_space, to_lower}
use v2ray_platform.Base.Int64.{Int64}
use v2ray_platform.Base.Result.{Result}
use v2ray_platform.Maps.{Map}
use v2ray_platform.Domain.{
  Time, Admin, AdminSession, Node, NodeGroup, Member, MemberStatus, Tier, BootstrapToken,
  AccessGrant, NodeCredential, ConfigRevision, NodeSyncEvent, AuditLog, PendingUserRemoval,
  PendingUserAddition, PlatformSettings, CloudFrontConfig,
}

pub record MemoryUsageSnapshot : Type 0 where
  pub node_id : String
  pub member_id : String
  pub credential_uuid : String
  pub uplink_bytes : Int64
  pub downlink_bytes : Int64
  pub collected_at : Time

pub record MemoryStore : Type 0 where
  pub admins : Map Admin
  pub admin_sessions : Map AdminSession
  pub nodes : Map Node
  pub node_groups : Map NodeGroup
  pub node_group_nodes : Map (Map Time)
  pub group_grants : Map (Map Time)
  pub members : Map Member
  pub tiers : Map Tier
  pub bootstrap_tokens : Map BootstrapToken
  pub grants : Map AccessGrant
  pub credentials : Map NodeCredential
  pub revisions : Map ConfigRevision
  pub sync_events : List NodeSyncEvent
  pub audit_logs : List AuditLog
  pub usage_snapshots : List MemoryUsageSnapshot
  pub pending_removals : List PendingUserRemoval
  pub pending_additions : List PendingUserAddition
  pub platform_settings : Option PlatformSettings
  pub cloud_front_config : Option CloudFrontConfig

-- `NewMemoryStore`
abbrev pub new_memory_store : MemoryStore
new_memory_store = record {
  admins = [];
  admin_sessions = [];
  nodes = [];
  node_groups = [];
  node_group_nodes = [];
  group_grants = [];
  members = [];
  tiers = [];
  bootstrap_tokens = [];
  grants = [];
  credentials = [];
  revisions = [];
  sync_events = [];
  audit_logs = [];
  usage_snapshots = [];
  pending_removals = [];
  pending_additions = [];
  platform_settings = none;
  cloud_front_config = none;
}

-- A method that may fail: what it wrote before it failed stays written.
abbrev pub Method : Type 0 → Type 0
Method A = MemoryStore → Result A × MemoryStore

-- What a method takes from the environment: the readings of `time.Now().UTC()` in their order, and
-- the texts that `newUUID` and `randomToken` draw, each by its place in the method (a `randomToken`
-- may fail), and SHA-256 as hexadecimal digits.
pub record Env : Type 0 where
  pub clock : ℕ → Time
  pub new_uuid : ℕ → String
  pub random_token : ℕ → Result String
  pub sha256_hex : String → String

pub record RegisterNodeInput : Type 0 where
  pub bootstrap_token : String
  pub name : String
  pub region : String
  pub public_host : String
  pub provider : String
  pub tags : List String
  pub runtime_flavor : String

pub record HeartbeatInput : Type 0 where
  pub node_token : String
  pub applied_config_version : Int64
  pub public_host : String
  pub status : String

pub record SyncResultInput : Type 0 where
  pub node_token : String
  pub config_version : Int64
  pub success : Bool
  pub message : String

pub record CreateBootstrapTokenInput : Type 0 where
  pub description : String
  pub ttl_hours : Int64

pub record CreateMemberInput : Type 0 where
  pub name : String
  pub email : String
  pub note : String

pub record CreateGrantInput : Type 0 where
  pub node_id : String
  pub member_id : String

pub record RegisterNodeOutput : Type 0 where
  pub node_id : String
  pub node_token : String
  pub config_version : Int64
  pub config : String

-- A pointer field that is nil leaves the member's field as it is.
pub record UpdateMemberInput : Type 0 where
  pub name : Option String
  pub email : Option String
  pub note : Option String
  pub uuid : Option String
  pub tier_id : Option String
  pub status : Option MemberStatus
  pub expires_at : Option Time
  pub clear_expiry : Bool
  pub quota_bytes_limit : Option Int64
  pub disabled_reason : Option String

pub record CreateTierInput : Type 0 where
  pub name : String
  pub description : String
  pub quota_bytes : Int64
  pub quota_type : String

pub record UpdateTierInput : Type 0 where
  pub name : Option String
  pub description : Option String
  pub quota_bytes : Option Int64
  pub quota_type : Option String

pub record SaveCloudFrontConfigInput : Type 0 where
  pub encrypted_access_key_id : String
  pub encrypted_secret_access_key : String
  pub encrypted_session_token : String
  pub aws_region : String
  pub custom_entry_host : String
  pub mode : String
  pub distribution_id : String
  pub distribution_domain_name : String
  pub retain_existing_secrets : Bool
  pub enabled : Option Bool

pub record UpdateCloudFrontSyncInput : Type 0 where
  pub distribution_id : String
  pub distribution_domain_name : String
  pub mode : String
  pub bindings_json : String
  pub plan_json : String
  pub sync_status : String
  pub drift_status : String
  pub last_sync_error : String
  pub preserve_sync_status : Bool

pub record SavePlatformSettingsInput : Type 0 where
  pub usage_collection_enabled : Bool

-- `newID(prefix)` with the i-th drawn UUID
unfoldable pub new_id : Env → String → ℕ → String
new_id e prefix i = prefix ++ ("_" ++ to_lower (e.new_uuid i))

-- A field of an input that may be nil.
unfoldable pub patch {ℓ} : {A : Type ℓ} → Option A → A → A
patch none old = old
patch (some new) old = new

-- `firstNonEmpty` of helpers.go
unfoldable pub first_non_empty : String → String → String
first_non_empty value fallback = if trim_space value == "" then fallback else value
