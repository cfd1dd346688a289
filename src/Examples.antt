-- ===== src/Examples.antt =====
-- A small store that the theorems are applied to: one node, a member with a direct grant, a member
-- of a group that is granted the node, and what the other methods need.
pub mod Access
pub mod Methods
pub mod Edge
pub mod Routes
pub mod Sessions
pub mod Alerts
pub mod Tokens
pub mod Agents
pub mod Services
use Prim.Native.String.{◌++◌}
use v2ray_platform.Base.{String, true, none, some, [], ◌∷◌, ◌+◌}
use v2ray_platform.Base.Decimal.{format_int}
use v2ray_platform.Base.Result.{ok}
use v2ray_platform.Domain.{
  Node, Member, AccessGrant, NodeCredential, BootstrapToken, PendingUserRemoval, CloudFrontConfig,
}
use v2ray_platform.Store.State.{
  MemoryStore, MemoryUsageSnapshot, Env, new_memory_store, RegisterNodeInput, UpdateMemberInput,
}

-- draws different texts for different seeds
abbrev pub env : String → Env
env seed = record {
  clock = λ i. i + 1000;
  new_uuid = λ i. seed ++ format_int i;
  random_token = λ i. ok (seed ++ ("t" ++ format_int i));
  sha256_hex = λ text. "sha:" ++ text;
}

abbrev pub tokyo : Node
tokyo = record {
  id = "n1";
  name = "tokyo";
  region = "jp";
  public_host = "tokyo.example.org";
  provider = "";
  tags = [];
  runtime_flavor = "v2ray";
  proxy_node_id = "";
  route_key = "r1";
  status = "online";
  last_heartbeat_at = 900;
  current_config_version = 3;
  node_token_hash = "sha:agent";
  created_at = 10;
  updated_at = 10;
}

abbrev pub member_with : String → String → Member
member_with id uuid = record {
  id = id;
  uuid = uuid;
  name = id;
  email = id ++ "@example.org";
  note = "";
  status = "active";
  expires_at = none;
  quota_bytes_limit = 0;
  tier_id = "";
  subscription_token = id ++ "-sub";
  disabled_reason = "";
  created_at = 11;
  updated_at = 11;
}

abbrev pub alice : Member
alice = member_with "m1" "u-alice"

abbrev pub bob : Member
bob = member_with "m2" "u-bob"

abbrev pub grant : AccessGrant
grant = record { id = "g1"; node_id = "n1"; member_id = "m1"; created_at = 12 }

abbrev pub credential : NodeCredential
credential = record {
  id = "c1";
  node_id = "n1";
  member_id = "m1";
  access_grant_id = "g1";
  uuid = "u-alice";
  email = "m1@example.org";
  created_at = 12;
}

abbrev pub token : BootstrapToken
token = record {
  id = "bt1";
  description = "";
  token_hash = "sha:secret";
  expires_at = some 5000;
  used_at = none;
  created_at = 13;
}

abbrev pub removal : String → String → PendingUserRemoval
removal node_id uuid = record {
  id = "pr-" ++ uuid;
  node_id = node_id;
  member_uuid = uuid;
  member_email = uuid;
  created_at = 14;
}

abbrev pub config : CloudFrontConfig
config = record {
  id = "cf-global";
  encrypted_access_key_id = "key";
  encrypted_secret_access_key = "secret";
  encrypted_session_token = "";
  aws_region = "us-east-1";
  enabled = true;
  custom_entry_host = "";
  mode = "managed";
  distribution_id = "E1";
  distribution_domain_name = "d1.example.org";
  origins_json = "";
  bindings_json = "";
  plan_json = "";
  last_synced_at = some 100;
  last_successful_sync_at = some 100;
  sync_status = "synced";
  drift_status = "in_sync";
  last_sync_error = "";
  created_at = 15;
  updated_at = 15;
}

abbrev pub snapshot : String → MemoryUsageSnapshot
snapshot member_id = record {
  node_id = "n1";
  member_id = member_id;
  credential_uuid = "u-alice";
  uplink_bytes = 5;
  downlink_bytes = 7;
  collected_at = 800;
}

abbrev pub store : MemoryStore
store = record new_memory_store {
  nodes = ("n1", tokyo) ∷ [];
  members = ("m1", alice) ∷ ("m2", bob) ∷ [];
  grants = ("g1", grant) ∷ [];
  credentials = ("c1", credential) ∷ [];
  node_group_nodes = ("n1", ("gr", 16) ∷ []) ∷ [];
  group_grants = ("gr", ("m2", 17) ∷ []) ∷ [];
  bootstrap_tokens = ("bt1", token) ∷ [];
  pending_removals = removal "n1" "u-x" ∷ removal "n2" "u-y" ∷ [];
  usage_snapshots = snapshot "m1" ∷ snapshot "m2" ∷ [];
  cloud_front_config = some config;
}

abbrev pub registration : RegisterNodeInput
registration = record {
  bootstrap_token = " secret ";
  name = "osaka";
  region = "jp";
  public_host = "osaka.example.org";
  provider = "";
  tags = "B" ∷ "a" ∷ "b" ∷ [];
  runtime_flavor = "";
}

-- suspends a member
abbrev pub suspension : UpdateMemberInput
suspension = record {
  name = none;
  email = none;
  note = none;
  uuid = none;
  tier_id = none;
  status = some "suspended";
  expires_at = none;
  clear_expiry = true;
  quota_bytes_limit = none;
  disabled_reason = none;
}
