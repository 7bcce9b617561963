-- ===== src/Store/Examples.antt =====
-- An alert that replaces one of its code; one is acknowledged and one resolved by its prefix.
use poly_zq_trading.Prelude.{
  ℕ, Bool, Option, ◌≡◌, refl, List, [], ◌∷◌, some, none, true, false, arith, map,
}
use poly_zq_trading.Store.Alerts.{
  info, warning, critical, startswith, same_code, take, add_alert, resolve_alerts,
  acknowledge_alert, AlertCall, added, resolved_under, acknowledged_one, run_alerts,
}
use poly_zq_trading.Store.Held.{AreHeld, run_alerts-AreHeld}

abbrev calls : List AlertCall
calls =
    added 50 1 info (7 ∷ 8 ∷ []) 0 true
    ∷ added 51 2 warning (7 ∷ 9 ∷ []) 0 true
    ∷ added 52 3 critical (7 ∷ 8 ∷ []) 1 true
    ∷ acknowledged_one 3
    ∷ resolved_under 60 (7 ∷ 9 ∷ [])
    ∷ []

calls_test :
    map {B = ℕ × Bool × Option ℕ}
      (λ a. (a.alert_id, a.acknowledged, a.resolved_at))
      (run_alerts calls [])
    ≡ ((3, true, none) ∷ (2, false, some 60) ∷ [])
unfolding run_alerts add_alert resolve_alerts acknowledge_alert take startswith same_code
calls_test = refl

run_alerts-AreHeld_example : AreHeld (run_alerts calls [])
run_alerts-AreHeld_example = run_alerts-AreHeld calls [] (omega arith, tt, tt)
