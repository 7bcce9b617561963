-- ===== src/Store/Alerts.antt =====
-- `add_alert`, `resolve_alerts` and `acknowledge_alert`, on the alerts of a snapshot. A code is the
-- list of its characters.
use poly_zq_trading.Prelude.{
  ℕ, zero, suc, List, [], ◌∷◌, Option, none, some, Bool, true, false, ◌&&◌, not, any, filter, map,
  ◌==◌, if◌then◌else◌,
}

pub data AlertSeverity : Type 0 where
  info warning critical : AlertSeverity

pub record AlertView : Type 0 where
  pub alert_id : ℕ
  pub severity : AlertSeverity
  pub code : List ℕ
  pub message : ℕ
  pub flashing : Bool
  pub acknowledged : Bool
  pub resolved : Bool
  pub created_at : ℕ
  pub resolved_at : Option ℕ

-- `code.startswith(prefix)`
unfoldable pub startswith : List ℕ → List ℕ → Bool
startswith code [] = true
startswith [] (p ∷ ps) = false
startswith (c ∷ cs) (p ∷ ps) = (c == p) && startswith cs ps

unfoldable pub same_code : List ℕ → List ℕ → Bool
same_code [] [] = true
same_code [] (d ∷ ds) = false
same_code (c ∷ cs) [] = false
same_code (c ∷ cs) (d ∷ ds) = (c == d) && same_code cs ds

-- `xs[:n]`
unfoldable pub take : ℕ → List AlertView → List AlertView
take n [] = []
take zero (a ∷ rest) = []
take (suc n) (a ∷ rest) = a ∷ take n rest

-- The id is of `uuid4`, the time of `utc_now`.
abbrev pub new_alert : ℕ → ℕ → AlertSeverity → List ℕ → ℕ → Bool → AlertView
new_alert now alert_id severity code message flashing = record {
  alert_id = alert_id;
  severity = severity;
  code = code;
  message = message;
  flashing = flashing;
  acknowledged = false;
  resolved = false;
  created_at = now;
  resolved_at = none;
}

unfoldable pub add_alert :
    ℕ → ℕ → AlertSeverity → List ℕ → ℕ → Bool → List AlertView → List AlertView
add_alert now alert_id severity code message flashing alerts = take 100 (
    new_alert now alert_id severity code message flashing
    ∷ filter (λ a. not (same_code a.code code)) alerts)

abbrev pub resolve : ℕ → List ℕ → AlertView → AlertView
resolve now prefix a =
    if startswith a.code prefix && not a.resolved
    then record a { resolved = true; resolved_at = some now; flashing = false }
    else a

unfoldable pub resolve_alerts : ℕ → List ℕ → List AlertView → List AlertView
resolve_alerts now prefix = map (resolve now prefix)

abbrev pub acknowledge_matching : ℕ → AlertView → AlertView
acknowledge_matching alert_id a =
    if a.alert_id == alert_id then record a { acknowledged = true; flashing = false } else a

-- With whether the alert was found.
unfoldable pub acknowledge_alert : ℕ → List AlertView → List AlertView × Bool
acknowledge_alert alert_id alerts =
    (map (acknowledge_matching alert_id) alerts, any (λ a. a.alert_id == alert_id) alerts)

-- The three calls, in any order.
pub data AlertCall : Type 0 where
  added : ℕ → ℕ → AlertSeverity → List ℕ → ℕ → Bool → AlertCall
  resolved_under : ℕ → List ℕ → AlertCall
  acknowledged_one : ℕ → AlertCall

unfoldable pub run_alerts : List AlertCall → List AlertView → List AlertView
run_alerts [] alerts = alerts
run_alerts (added now alert_id severity code message flashing ∷ calls) alerts =
    run_alerts calls (add_alert now alert_id severity code message flashing alerts)
run_alerts (resolved_under now prefix ∷ calls) alerts =
    run_alerts calls (resolve_alerts now prefix alerts)
run_alerts (acknowledged_one alert_id ∷ calls) alerts =
    run_alerts calls ((acknowledge_alert alert_id alerts).0)
