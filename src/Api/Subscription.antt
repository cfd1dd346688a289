-- ===== src/Api/Subscription.antt =====
-- internal/api/controlplane.go: the subscriptions that a client fetches with the token of a member.
pub mod Refused
use Prim.Native.String.{◌++◌}
use v2ray_platform.Base.{
  ℕ, String, Bool, true, false, not, Option, none, some, List, [], ◌∷◌, ◌==◌, if◌then◌else◌, eqb,
}
use v2ray_platform.Base.Decimal.{format_int}
use v2ray_platform.Base.Int64.{Int64, lt64}
use v2ray_platform.Base.Result.{error_text, Result, ok, err}
use v2ray_platform.Domain.{Time, Member, Tier, MemberUsageSummary}
use v2ray_platform.Store.State.{MemoryStore}
use v2ray_platform.Store.Members.{get_member_by_subscription_token}
use v2ray_platform.Domain.{member_status_active}
use v2ray_platform.Monitor.Sweep.{reached}
use v2ray_platform.Store.Tiers.{list_tiers}
use v2ray_platform.Store.Usage.{list_member_usage_summaries, get_member_usage_since_split}
use v2ray_platform.Api.{cloud_front_render_config}
use v2ray_platform.Api.Agents.{Reply, refused, served}
use v2ray_platform.Api.Clash.{Entry, build_member_clash_yaml}

-- the clock, the start of the month in UTC, and `Time.Unix`
pub record Clock : Type 0 where
  pub at : ℕ → Time
  pub month_start : Time → Time
  pub unix : Time → Int64

pub record Subscription : Type 0 where
  pub user_info : String
  pub content_type : String
  pub content_disposition : String
  pub update_interval : String
  pub body : String

-- the quota of the tier, and whether it is counted by the month
unfoldable pub tier_quota : String → List Tier → Int64 × Bool
tier_quota tier_id [] = (0, false)
tier_quota tier_id (t ∷ rest) =
    let others = tier_quota tier_id rest in
    if t.id == tier_id then (t.quota_bytes, t.quota_type == "monthly") else others

unfoldable pub shown_quota : Member → List Tier → Int64 × Bool
unfolding tier_quota
shown_quota member tiers =
    let (quota, monthly) =
      if member.tier_id == "" then (0, false) else tier_quota member.tier_id tiers in
    if eqb quota 0
    then (if lt64 0 member.quota_bytes_limit
        then (member.quota_bytes_limit, monthly)
        else (0, monthly))
    else (quota, monthly)

unfoldable pub shown_usage :
    Bool → Time → Member → MemoryStore → List MemberUsageSummary → Int64 × Int64
shown_usage monthly month member s [] = (0, 0)
shown_usage monthly month member s (u ∷ rest) =
    let others = shown_usage monthly month member s rest in
    if not (u.member_id == member.id)
    then others
    else if monthly
    then get_member_usage_since_split member.id month s
    else (u.uplink_bytes, u.downlink_bytes)

unfoldable pub expiry_text : Clock → Option Time → String
expiry_text c none = ""
expiry_text c (some t) = "; expire=" ++ format_int (c.unix t)

-- the header `Subscription-Userinfo`
unfoldable pub user_info : Clock → Time → Member → MemoryStore → String
unfolding shown_quota shown_usage expiry_text
user_info c now member s =
    let (quota, monthly) = shown_quota member (list_tiers s) in
    let (upload, download) =
      shown_usage monthly (c.month_start now) member s (list_member_usage_summaries s) in
    "upload="
    ++ (format_int upload
        ++ ("; download="
            ++ (format_int download
                ++ ((if lt64 0 quota then "; total=" ++ format_int quota else "")
                    ++ expiry_text c member.expires_at))))

-- the tests that a member passes before a subscription is rendered, in their order
unfoldable pub admitted : Time → Result Member → Reply Member
admitted now (err x) = refused 404 "not found"
admitted now (ok member) =
    if not (member.status == member_status_active)
    then refused 403 "account inactive"
    else if reached member.expires_at now
    then refused 403 "account expired"
    else served 200 member

unfoldable pub subscriber : Time → String → MemoryStore → Reply Member
unfolding admitted
subscriber now token s =
    if token == ""
    then refused 400 "missing token"
    else admitted now (get_member_by_subscription_token token s)

module _ (quote : String → String) (ranged : List String → List String) (c : Clock) where
  unfoldable pub clash_reply : MemoryStore → Reply Member → Reply Subscription
  unfolding user_info
  clash_reply s (refused code text) = refused code text
  clash_reply s (served code member) = served 200 (record {
    user_info = user_info c (c.at 1) member s;
    content_type = "application/yaml";
    content_disposition = "attachment; filename=\"v2-subscription\"";
    update_interval = "1";
    body = build_member_clash_yaml quote ranged member none s;
  })

  unfoldable pub handle_public_clash_subscription : String → MemoryStore → Reply Subscription
  unfolding clash_reply subscriber
  handle_public_clash_subscription token s = clash_reply s (subscriber (c.at 0) token s)

  unfoldable pub clash_cf_body :
      MemoryStore → Member → Result (String × String) → Reply Subscription
  unfolding user_info
  clash_cf_body s member (err x) = refused 409 (error_text x)
  clash_cf_body s member (ok entry) = served 200 (record {
    user_info = user_info c (c.at 1) member s;
    content_type = "text/yaml; charset=utf-8";
    content_disposition = "attachment; filename=\"clash-cf.yaml\"";
    update_interval = "1";
    body = build_member_clash_yaml quote ranged member (some entry) s;
  })

  unfoldable pub clash_cf_reply : MemoryStore → Reply Member → Reply Subscription
  unfolding clash_cf_body
  clash_cf_reply s (refused code text) = refused code text
  clash_cf_reply s (served code member) = clash_cf_body s member (cloud_front_render_config s)

  unfoldable pub handle_public_clash_cf_subscription : String → MemoryStore → Reply Subscription
  unfolding clash_cf_reply subscriber
  handle_public_clash_cf_subscription token s = clash_cf_reply s (subscriber (c.at 0) token s)
