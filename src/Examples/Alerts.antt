-- ===== src/Examples/Alerts.antt =====
-- The theorem on alerts, applied to small inputs.
use v2ray_platform.Base.{String, ◌≡◌, refl, some, [], ◌∷◌}
use v2ray_platform.Maps.{Map, lookup, insert}
use v2ray_platform.Domain.{Alert}
use v2ray_platform.Monitor.{evaluate_alerts, index_alerts}
use v2ray_platform.Monitor.Alerts.{next_alert, evaluate_alerts-next}

abbrev alert : String → String → Alert
alert fingerprint status = record {
  fingerprint = fingerprint;
  type = "node_offline";
  severity = "critical";
  status = status;
  title = "";
  message = "";
  target_type = "node";
  target_id = "n1";
  first_seen_at = 5;
  last_seen_at = 6;
}

-- one that is still found, and one that is not
abbrev stored : Map Alert
stored = ("a", alert "a" "active") ∷ ("b", alert "b" "active") ∷ []

evaluate_alerts-next_example :
    lookup "b" (evaluate_alerts 9 (alert "a" "" ∷ []) stored).alerts
    ≡ next_alert 9 (lookup "b" (index_alerts (alert "a" "" ∷ []) [])) (lookup "b" stored)
evaluate_alerts-next_example = evaluate_alerts-next 9 (alert "a" "" ∷ []) stored "b"

resolved_test :
    lookup "b" (evaluate_alerts 9 (alert "a" "" ∷ []) stored).alerts
    ≡ some (record (alert "b" "resolved") { last_seen_at = 9 })
unfolding evaluate_alerts lookup insert
resolved_test = refl
