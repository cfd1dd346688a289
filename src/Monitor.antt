-- ===== src/Monitor.antt =====
-- internal/ops/monitor.go: the life of alerts, `evaluateAlerts` and `ListAlerts`, from the alerts that
-- `buildAlerts` has found at an instant.
pub mod Alerts
pub mod Sweep
pub mod Build
use v2ray_platform.Base.{
  String, Bool, not, ◌||◌, Option, none, some, List, [], ◌∷◌, ◌++◌, ◌==◌, if◌then◌else◌, is_some,
  ltb, take,
}
use v2ray_platform.Base.Sort.{sort_slice}
use v2ray_platform.Maps.{Map, lookup, insert, values}
use v2ray_platform.Domain.{Time, Alert}

-- the map `current`
unfoldable pub index_alerts : List Alert → Map Alert → Map Alert
index_alerts [] m = m
index_alerts (a ∷ rest) m = index_alerts rest (insert a.fingerprint a m)

-- `m.alerts`, and the alerts that `sendWebhook` was called with
pub record Evaluated : Type 0 where
  pub alerts : Map Alert
  pub sent : List Alert

module _ (now : Time) where
  -- what is stored of an alert that is found now
  unfoldable pub raised : Option Alert → Alert → Alert
  raised none a = record a { first_seen_at = now; last_seen_at = now; status = "active" }
  raised (some existing) a = record a {
    first_seen_at = existing.first_seen_at;
    last_seen_at = now;
    status = "active";
  }

  -- only an alert without a stored one is sent, before its status is set
  unfoldable pub announced : Option Alert → Alert → List Alert → List Alert
  announced none a sent = sent ++ record a { first_seen_at = now } ∷ []
  announced (some existing) a sent = sent

  unfoldable pub raise_all : Map Alert → Evaluated → Evaluated
  unfolding raised announced
  raise_all [] st = st
  raise_all ((fingerprint, a) ∷ rest) st = raise_all rest (record {
    alerts = insert fingerprint (raised (lookup fingerprint st.alerts) a) st.alerts;
    sent = announced (lookup fingerprint st.alerts) a st.sent;
  })

  -- an active alert that is not found any more is resolved
  unfoldable pub resolved : Map Alert → String → Alert → Alert
  resolved current fingerprint existing =
      if not (existing.status == "active") || is_some (lookup fingerprint current)
      then existing
      else record existing { status = "resolved"; last_seen_at = now }

  unfoldable pub resolve_all : Map Alert → Map Alert → Map Alert
  unfolding resolved
  resolve_all current [] = []
  resolve_all current ((fingerprint, existing) ∷ rest) =
      (fingerprint, resolved current fingerprint existing) ∷ resolve_all current rest

  -- both loops, for the alerts by their fingerprints
  unfoldable pub evaluate_indexed : Map Alert → Map Alert → Evaluated
  unfolding raise_all resolve_all
  evaluate_indexed current alerts =
      let st = raise_all current (record { alerts = alerts; sent = [] }) in
      record st { alerts = resolve_all current st.alerts }

  unfoldable pub evaluate_alerts : List Alert → Map Alert → Evaluated
  unfolding evaluate_indexed index_alerts
  evaluate_alerts built alerts = evaluate_indexed (index_alerts built []) alerts

-- `ListAlerts`, the latest first
unfoldable pub list_alerts : Map Alert → List Alert
list_alerts alerts =
    take 200 (sort_slice (λ a b. ltb b.last_seen_at a.last_seen_at) (values alerts))
