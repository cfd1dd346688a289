-- ===== src/Config.antt =====
-- internal/config/config.go: the configurations of the two programs, read from the environment. The
-- variables, `strconv.Atoi`, the host's name and random bytes are parameters (`Host`).
pub mod Csv
use Prim.Native.String.{◌++◌}
use v2ray_platform.Base.{String, Bool, Option, none, some, List, [], ◌∷◌, ◌*◌, ◌==◌, if◌then◌else◌}
use v2ray_platform.Base.Int64.{Int64, mul64}
use v2ray_platform.Base.Text.{trim_space, to_lower}
use v2ray_platform.Base.Split.{split}
use v2ray_platform.Base.Result.{Error, Result, ok, err}

-- `atoi` gives the number and the error, as Go does: an unreadable text is 0, one out of range the
-- nearest number.
pub record Host : Type 0 where
  pub getenv : String → String
  pub atoi : String → Int64 × Option Error
  pub hostname : Result String
  pub random_secret : Result String

pub record ControlPlaneConfig : Type 0 where
  pub listen_addr : String
  pub admin_token : String
  pub database_url : String
  pub session_secret : String
  pub previous_session_secrets : List String
  pub session_ttl : Int64
  pub bootstrap_admin_email : String
  pub bootstrap_admin_password : String
  pub lifecycle_sweep_interval : Int64
  pub alert_evaluation_interval : Int64
  pub node_offline_after : Int64
  pub alert_webhook_url : String
  pub db_max_open_conns : Int64
  pub db_max_idle_conns : Int64
  pub db_conn_max_lifetime : Int64
  pub service_name : String
  pub revision_name : String
  pub agent_download_url : String
  pub agent_md5_cache_ttl : Int64
  pub cloud_front_master_key : String

pub record NodeAgentConfig : Type 0 where
  pub control_plane_url : String
  pub bootstrap_token : String
  pub node_name : String
  pub node_region : String
  pub node_public_host : String
  pub node_provider : String
  pub node_tags : List String
  pub runtime_flavor : String
  pub state_path : String
  pub config_output_path : String
  pub usage_source : String
  pub usage_input_path : String
  pub usage_query_server : String
  pub usage_query_command : String
  pub usage_collection_interval : Int64
  pub heartbeat_interval : Int64
  pub reload_command : String

abbrev pub second : Int64
second = 1000000000

abbrev pub hour : Int64
hour = 3600 * 1000000000

unfoldable pub env_or : Host → String → String → String
env_or h key fallback = if h.getenv key == "" then fallback else h.getenv key

unfoldable pub csv_parts : List String → List String
csv_parts [] = []
csv_parts (part ∷ parts) =
    let rest = csv_parts parts in if trim_space part == "" then rest else trim_space part ∷ rest

unfoldable pub split_csv : String → List String
unfolding csv_parts
split_csv value = if trim_space value == "" then [] else csv_parts (split b',' value)

unfoldable named_host : String → Result String → String
named_host fallback (err e) = fallback
named_host fallback (ok name) = if trim_space name == "" then fallback else name

unfoldable pub hostname_or : Host → String → String
unfolding named_host
hostname_or h fallback = named_host fallback h.hostname

unfoldable atoi_or_24 : Int64 × Option Error → Int64
atoi_or_24 (n, none) = n
atoi_or_24 (n, some e) = 24

unfoldable pub must_atoi : Host → String → Int64
unfolding atoi_or_24
must_atoi h value = atoi_or_24 (h.atoi value)

-- A failure of the random source is a panic, which is an error here.
unfoldable pub session_secret : Host → Result String
session_secret h =
    if h.getenv "CONTROL_PLANE_SESSION_SECRET" == ""
    then h.random_secret
    else ok (h.getenv "CONTROL_PLANE_SESSION_SECRET")

unfoldable pub listen_address : Host → String
unfolding env_or
listen_address h =
    let address = env_or h "CONTROL_PLANE_LISTEN_ADDR" "" in
    if address == ""
    then (if h.getenv "PORT" == "" then ":8080" else ":" ++ h.getenv "PORT")
    else address

unfoldable pub load_control_plane_with : Host → String → ControlPlaneConfig
unfolding env_or must_atoi split_csv listen_address
load_control_plane_with h secret = record {
  listen_addr = listen_address h;
  admin_token = h.getenv "CONTROL_PLANE_ADMIN_TOKEN";
  database_url = h.getenv "DATABASE_URL";
  session_secret = secret;
  previous_session_secrets = split_csv (h.getenv "CONTROL_PLANE_PREVIOUS_SESSION_SECRETS");
  session_ttl = mul64 (must_atoi h (env_or h "CONTROL_PLANE_SESSION_TTL_HOURS" "24")) hour;
  bootstrap_admin_email = h.getenv "BOOTSTRAP_ADMIN_EMAIL";
  bootstrap_admin_password = h.getenv "BOOTSTRAP_ADMIN_PASSWORD";
  lifecycle_sweep_interval =
      mul64 (must_atoi h (env_or h "CONTROL_PLANE_LIFECYCLE_SWEEP_SECONDS" "300")) second;
  alert_evaluation_interval =
      mul64 (must_atoi h (env_or h "CONTROL_PLANE_ALERT_EVALUATION_SECONDS" "300")) second;
  node_offline_after =
      mul64 (must_atoi h (env_or h "CONTROL_PLANE_NODE_OFFLINE_SECONDS" "900")) second;
  alert_webhook_url = h.getenv "CONTROL_PLANE_ALERT_WEBHOOK_URL";
  db_max_open_conns = must_atoi h (env_or h "CONTROL_PLANE_DB_MAX_OPEN_CONNS" "3");
  db_max_idle_conns = must_atoi h (env_or h "CONTROL_PLANE_DB_MAX_IDLE_CONNS" "1");
  db_conn_max_lifetime =
      mul64 (must_atoi h (env_or h "CONTROL_PLANE_DB_CONN_MAX_LIFETIME_SECONDS" "60")) second;
  service_name = h.getenv "K_SERVICE";
  revision_name = h.getenv "K_REVISION";
  agent_download_url =
      env_or h "AGENT_DOWNLOAD_URL"
        "https://github.com/Yxnt/v2ray-platform/releases/download/latest/node-agent-linux-amd64";
  agent_md5_cache_ttl = mul64 (must_atoi h (env_or h "AGENT_MD5_CACHE_TTL_SECONDS" "300")) second;
  cloud_front_master_key = h.getenv "CLOUDFRONT_MASTER_KEY";
}

unfoldable pub load_control_plane : Host → Result ControlPlaneConfig
unfolding load_control_plane_with session_secret
load_control_plane h = elim (session_secret h) [
  | err e ↦ err e
  | ok secret ↦ ok (load_control_plane_with h secret)
]

unfoldable pub usage_source : Host → String
usage_source h =
    let source = trim_space (to_lower (h.getenv "NODE_USAGE_SOURCE")) in
    if source == ""
    then (if trim_space (h.getenv "NODE_USAGE_INPUT_PATH") == "" then "disabled" else "file")
    else source

-- The errors of the two intervals are dropped.
unfoldable pub load_node_agent : Host → NodeAgentConfig
unfolding env_or split_csv hostname_or usage_source
load_node_agent h = record {
  control_plane_url = env_or h "CONTROL_PLANE_URL" "http://127.0.0.1:8080";
  bootstrap_token = h.getenv "BOOTSTRAP_TOKEN";
  node_name = env_or h "NODE_NAME" (hostname_or h "unnamed-node");
  node_region = env_or h "NODE_REGION" "unknown";
  node_public_host = env_or h "NODE_PUBLIC_HOST" "";
  node_provider = env_or h "NODE_PROVIDER" "";
  node_tags = split_csv (h.getenv "NODE_TAGS");
  runtime_flavor = env_or h "RUNTIME_FLAVOR" "v2ray";
  state_path = env_or h "AGENT_STATE_PATH" "/var/lib/v2ray-platform/agent-state.json";
  config_output_path = env_or h "NODE_CONFIG_OUTPUT_PATH" "/etc/v2ray/config.generated.json";
  usage_source = usage_source h;
  usage_input_path = h.getenv "NODE_USAGE_INPUT_PATH";
  usage_query_server = env_or h "NODE_USAGE_QUERY_SERVER" "127.0.0.1:10085";
  usage_query_command = h.getenv "NODE_USAGE_QUERY_COMMAND";
  usage_collection_interval =
      mul64 (h.atoi (env_or h "NODE_USAGE_COLLECTION_INTERVAL_SECONDS" "600")).0 second;
  heartbeat_interval = mul64 (h.atoi (env_or h "NODE_HEARTBEAT_INTERVAL_SECONDS" "300")).0 second;
  reload_command = h.getenv "NODE_RELOAD_COMMAND";
}
