-- ===== src/Execution/Restart.antt =====
-- `maintenance_recovery_allowed`: whether an interruption is that of a drained restart.
use poly_zq_trading.Prelude.{
  ℕ, ◌+◌, List, [], ◌∷◌, Option, none, some, Bool, true, false, ◌&&◌, not, any, all, ltb, leb, ◌==◌,
  if◌then◌else◌,
}
use poly_zq_trading.Maintenance.Hold.{
  MaintenanceHold, MaintenanceWindow, observe_interruption, recovering,
}
use poly_zq_trading.Ledger.Types.{Order}
use poly_zq_trading.Ledger.Queries.{order_resolved}
use poly_zq_trading.Ledger.Receipts.{hedge_safety_differences, is_empty}
use poly_zq_trading.Repository.Entry.{is_ibkr}
use poly_zq_trading.Repository.Status.{is_final, unresolved_hedge_obligation_count}
use poly_zq_trading.Store.Alerts.{AlertView, AlertSeverity, critical, same_code}
use poly_zq_trading.Execution.Types.{Coordinator}
use poly_zq_trading.Execution.Callbacks.{Clocks, LedgerStore}

-- `"IBKR_1100"`
abbrev pub ibkr_1100 : List ℕ
ibkr_1100 = 73 ∷ 66 ∷ 75 ∷ 82 ∷ 95 ∷ 49 ∷ 49 ∷ 48 ∷ 48 ∷ []

-- What the method reads elsewhere: the alerts and the kill switch of the snapshot, the queue of the
-- broker's adapter, and whether a batch is active.
pub record Situation : Type 0 where
  pub alerts : List AlertView
  pub kill_switch : Bool
  pub event_queue_overflowed : Bool
  pub active_batch : Bool

abbrev pub is_critical : AlertSeverity → Bool
is_critical critical = true
is_critical _ = false

abbrev pub is_restart_time : Option MaintenanceWindow → ℕ → Bool
is_restart_time none at = false
is_restart_time (some w) at = leb w.restart_at (at + 60) && ltb at w.deadline

unfoldable pub expected_maintenance_alert : ℕ → MaintenanceHold → AlertView → Bool
expected_maintenance_alert now h a =
    recovering now h && same_code a.code ibkr_1100 && is_restart_time h.window a.created_at

abbrev pub is_unexpected : ℕ → MaintenanceHold → AlertView → Bool
is_unexpected now h a =
    is_critical a.severity
    && not a.resolved
    && not a.acknowledged
    && not (expected_maintenance_alert now h a)

abbrev pub is_over : Order → Bool
is_over o = if is_ibkr o.venue then is_final o.state else order_resolved o

unfoldable pub maintenance_execution_clear : Situation → LedgerStore → Bool
maintenance_execution_clear s store =
    all is_over store.tables.orders
    && not s.active_batch
    && (unresolved_hedge_obligation_count store.tables == 0)
    && is_empty (hedge_safety_differences store.tables store.events)

unfoldable pub maintenance_recovery_allowed :
    Situation → Clocks → LedgerStore → Coordinator → Bool × Coordinator
maintenance_recovery_allowed s t store c =
    let hold = observe_interruption t.now c.maintenance in
    (
      recovering t.now hold
          && not c.published.paused
          && not s.kill_switch
          && not c.halt_requested
          && not s.event_queue_overflowed
          && not (any (is_unexpected t.now hold) s.alerts)
          && maintenance_execution_clear s store,
      record c { maintenance = hold },
    )
