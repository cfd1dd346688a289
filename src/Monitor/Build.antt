-- ===== src/Monitor/Build.antt =====
-- internal/ops/monitor.go: `buildAlerts` over the in-memory store. The comparison of a quotient of
-- floating-point numbers with a percentage is a parameter, and a page that panics is one without
-- events, which a page of 500 events never is.
use Prim.Native.String.{◌++◌}
use v2ray_platform.Base.{
  ℕ, ◌-◌, ◌*◌, String, Bool, Option, none, some, List, [], ◌∷◌, ◌++◌ as concat, ◌==◌, eqb, ltb,
  is_some, if◌then◌else◌,
}
use v2ray_platform.Base.Int64.{Int64, le64}
use v2ray_platform.Base.Text.{trim_space}
use v2ray_platform.Base.Decimal.{format_int}
use v2ray_platform.Maps.{Map, lookup, insert}
use v2ray_platform.Domain.{Time, Node, Member, Tier, NodeSyncEvent, Alert, MemberUsageSummary}
use v2ray_platform.Store.State.{MemoryStore}
use v2ray_platform.Store.Nodes.{list_nodes}
use v2ray_platform.Store.Members.{list_members}
use v2ray_platform.Store.Tiers.{list_tiers}
use v2ray_platform.Store.Paging.{Sliced, slice, panic, list_node_sync_events}
use v2ray_platform.Store.Usage.{get_member_usage_since, list_member_usage_summaries}
use v2ray_platform.Monitor.Sweep.{Calendar, effective_quota, tiers_by_id}

abbrev two_minutes : Int64
two_minutes = 120 * 1000000000

unfoldable pub offline_alert : Node → Alert
offline_alert node = record {
  fingerprint = "node-offline:" ++ node.id;
  type = "node_offline";
  severity = "critical";
  status = "";
  title = "Node heartbeat overdue";
  message = "Node " ++ (node.name ++ " has not reported heartbeat within the configured timeout.");
  target_type = "node";
  target_id = node.id;
  first_seen_at = 0;
  last_seen_at = 0;
}

-- the last sign of a node
unfoldable pub last_sign : Node → Time
last_sign node = if eqb node.last_heartbeat_at 0 then node.created_at else node.last_heartbeat_at

unfoldable pub offline_alerts : Int64 → Time → List Node → List Alert
unfolding offline_alert last_sign
offline_alerts offline_after now [] = []
offline_alerts offline_after now (node ∷ rest) =
    let alerts = offline_alerts offline_after now rest in
    if ltb offline_after (now - last_sign node) then offline_alert node ∷ alerts else alerts

-- the map `latestSync`
unfoldable pub latest_sync : List NodeSyncEvent → Map NodeSyncEvent → Map NodeSyncEvent
latest_sync [] latest = latest
latest_sync (event ∷ rest) latest =
    latest_sync rest
      (if is_some (lookup event.node_id latest) then latest else insert event.node_id event latest)

unfoldable pub sync_alerts : Map NodeSyncEvent → List Alert
sync_alerts [] = []
sync_alerts ((key, event) ∷ rest) =
    let alerts = sync_alerts rest in
    let alert : Alert = record {
      fingerprint = "sync-failed:" ++ event.node_id;
      type = "sync_failed";
      severity = "warning";
      status = "";
      title = "Latest config sync failed";
      message = trim_space event.message;
      target_type = "node";
      target_id = event.node_id;
      first_seen_at = 0;
      last_seen_at = 0;
    } in
    if event.success then alerts else alert ∷ alerts

unfoldable pub members_by_id : List Member → Map Member → Map Member
members_by_id [] members = members
members_by_id (member ∷ rest) members = members_by_id rest (insert member.id member members)

unfoldable pub quota_alert : Member → Int64 → Int64 → String → String → String → Alert
quota_alert member used limit suffix severity title = record {
  fingerprint = "member-" ++ (suffix ++ (":" ++ member.id));
  type = suffix;
  severity = severity;
  status = "";
  title = title;
  message =
      "Member "
      ++ (member.email
          ++ (" has used "
              ++ (format_int used ++ (" bytes out of " ++ (format_int limit ++ ".")))));
  target_type = "member";
  target_id = member.id;
  first_seen_at = 0;
  last_seen_at = 0;
}

-- `float64(used) / float64(limit)` is at least so many per cent
abbrev pub Ratio : Type 0
Ratio = Int64 → Int64 → ℕ → Bool

module _ (ratio : Ratio) (c : Calendar) (now : Time) (s : MemoryStore) where
  unfoldable pub graded_alert : Member → Int64 → Int64 → List Alert
  unfolding quota_alert
  graded_alert member used limit =
      if ratio used limit 100
      then quota_alert member used limit "quota-exceeded" "critical" "Member quota exceeded" ∷ []
      else if ratio used limit 95
      then quota_alert member used limit "quota-95" "warning" "Member quota above 95%" ∷ []
      else if ratio used limit 80
      then quota_alert member used limit "quota-80" "info" "Member quota above 80%" ∷ []
      else []

  unfoldable pub usage_alert : Map Tier → MemberUsageSummary → Option Member → List Alert
  unfolding graded_alert
  usage_alert tiers usage none = []
  usage_alert tiers usage (some member) =
      let quota = effective_quota tiers member in
      let used =
        if quota.1 == "monthly"
        then get_member_usage_since member.id (c.month_start now) s
        else usage.total_bytes in
      if le64 quota.0 0 then [] else graded_alert member used quota.0

  unfoldable pub usage_alerts : Map Tier → Map Member → List MemberUsageSummary → List Alert
  unfolding usage_alert
  usage_alerts tiers members [] = []
  usage_alerts tiers members (usage ∷ rest) =
      concat (usage_alert tiers usage (lookup usage.member_id members))
        (usage_alerts tiers members rest)

  abbrev events_page : Sliced NodeSyncEvent → List NodeSyncEvent
  events_page (slice events) = events
  events_page panic = []

  -- `buildAlerts`, with the configured `NodeOfflineAfter`
  unfoldable pub build_alerts : Int64 → List Alert
  unfolding offline_alerts latest_sync sync_alerts members_by_id usage_alerts
  build_alerts node_offline_after =
      let offline_after = if le64 node_offline_after 0 then two_minutes else node_offline_after in
      concat (offline_alerts offline_after now (list_nodes s)) (
        concat (sync_alerts (latest_sync (events_page (list_node_sync_events "" 1 500 s).0) [])) (
          usage_alerts (tiers_by_id (list_tiers s) []) (members_by_id (list_members s) [])
            (list_member_usage_summaries s)))
