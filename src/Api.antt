-- ===== src/Api.antt =====
-- internal/api/controlplane.go: what a CloudFront subscription is rendered with, and the bounds of
-- the pages that a request asks for.
pub mod Gate
pub mod Limits
pub mod Agents
pub mod Admin
pub mod Clash
pub mod Subscription
pub mod Requests
pub mod Distribution
use v2ray_platform.Base.{String, Bool, not, ◌||◌, Option, none, some, ◌==◌, if◌then◌else◌, is_some}
use v2ray_platform.Base.Int64.{Int64, lt64}
use v2ray_platform.Base.Result.{Result, Error, ok, err, message, not_found}
use v2ray_platform.Base.Text.{trim_space}
use v2ray_platform.Domain.{CloudFrontConfig}
use v2ray_platform.Store.State.{MemoryStore}
use v2ray_platform.Store.CloudFront.{get_cloud_front_config}

-- the entry host and the custom host of a configuration
unfoldable pub config_hosts : CloudFrontConfig → Result (String × String)
config_hosts cfg =
    let custom_host = trim_space cfg.custom_entry_host in
    let entry_host =
      if custom_host == "" then trim_space cfg.distribution_domain_name else custom_host in
    if entry_host == ""
    then err (message "cloudfront subscription entry host is not configured")
    else ok (entry_host, custom_host)

-- the tests of `cloudFrontRenderConfig` on the stored configuration, in their order
unfoldable pub render_config_of : Result CloudFrontConfig → Result (String × String)
unfolding config_hosts
render_config_of (err not_found) = err (message "cloudfront subscription not configured")
render_config_of (err x) = err x
render_config_of (ok cfg) =
    if not cfg.enabled
    then err (message "cloudfront subscription is disabled")
    else if (trim_space cfg.distribution_id == "") || trim_space cfg.distribution_domain_name == ""
    then err (message "cloudfront subscription is unavailable until a distribution is bound")
    else if not (is_some cfg.last_successful_sync_at)
    then err
        (message "cloudfront subscription is unavailable until the first successful sync completes")
    else if cfg.sync_status == "failed"
    then err (message "cloudfront subscription is unavailable because the latest sync failed")
    else if (cfg.drift_status == "drifted") || cfg.drift_status == "conflict"
    then err (message "cloudfront subscription is unavailable until cloudfront drift is resolved")
    else config_hosts cfg

unfoldable pub cloud_front_render_config : MemoryStore → Result (String × String)
unfolding render_config_of
cloud_front_render_config s = render_config_of (get_cloud_front_config s)

-- `parsePage`, after the numbers have been parsed (0 for a text that is none)
unfoldable pub parse_page : Int64 → Int64 → Int64 × Int64
parse_page page limit =
    (if lt64 page 1 then 1 else page, if lt64 limit 1 || lt64 200 limit then 50 else limit)
