-- ===== src/Execution/Events.antt =====
-- `handle_ibkr_event`, with `_ignore_other_month_foreign_order`. The view that `_publish` shows is not
-- part of the result.
use poly_zq_trading.Prelude.{
  ℕ, ◌+◌, List, Option, none, some, Bool, true, false, ◌&&◌, ◌||◌, not, any, contains, ◌==◌,
  if◌then◌else◌,
}
use poly_zq_trading.Ledger.Types.{Order}
use poly_zq_trading.Ledger.Queries.{equals_some}
use poly_zq_trading.Maintenance.Hold.{observe_interruption}
use poly_zq_trading.Repository.Entry.{is_ibkr}
use poly_zq_trading.Execution.Types.{Coordinator}
use poly_zq_trading.Execution.Safety.{invalidate_reconciliation}
use poly_zq_trading.Execution.Differences.{is_set}
use poly_zq_trading.Execution.Callbacks.{Clocks}
use poly_zq_trading.Execution.Reconcile.{is_timed_out, Surroundings, reconcile_ledger_snapshot}
use poly_zq_trading.Execution.Account.{
  mark_ibkr_refresh_timeout, add_member, discard, with_markers, check_end, ConnectionReport,
  observe_connection, end_positions, complete_read,
}
use poly_zq_trading.Execution.Reports.{
  failed, IbkrPayload, ContractMonth, EventSettings, EventKeys, EventState, EventOutcome, handled,
  update_ibkr, is_zq, is_future, ibkr_own_client, foreign_order_key, handle_ibkr_order_status,
  handle_ibkr_open_order,
}
use poly_zq_trading.Execution.Fills.{
  and_then, set_zq_position, handle_ibkr_completed_order, handle_ibkr_position, show_position,
  then_handled, handle_ibkr_execution,
}

pub data IbkrEvent : Type 0 where
  market_data open_order_end completed_order_end position_end other_event : IbkrEvent
  error : ℕ → IbkrEvent
  connection : ConnectionReport → IbkrEvent
  execution order_status open_order completed_order position : IbkrPayload → IbkrEvent
  execution_end : Option ℕ → IbkrEvent

-- A report on an order of another client.
abbrev pub is_ours : IbkrPayload → List Order → Bool
is_ours p os = any (λ o. is_ibkr o.venue && equals_some o.permanent_id p.permanent_id) os

abbrev pub is_unscoped : IbkrPayload → Bool
is_unscoped p = not (is_set p.symbol || is_set p.security_type || is_set p.contract_month)

abbrev pub is_date_elsewhere : ℕ → Option ContractMonth → Bool
is_date_elsewhere month none = false
is_date_elsewhere month (some m) = m.is_date && not (m.month == month)

unfoldable pub note_unscoped : ℕ → IbkrPayload → EventState → EventState
note_unscoped key p e =
    if e.own.ibkr.reconciliation_in_progress
      && not e.own.ibkr.complete.open_orders
      && not (is_set e.own.gap.gap)
      && is_unscoped p
    then update_ibkr
        (λ a. record a { unscoped_status_orders = add_member key a.unscoped_status_orders }) e
    else e

-- An order of another month is ignored from its open order on.
unfoldable pub ignore_identified :
    EventSettings → ℕ → IbkrPayload → Bool → EventState → Bool × EventState
ignore_identified s key p is_status e =
    if (p.permanent_id == 0) || is_ours p e.store.tables.orders
    then (false, e)
    else if is_status
    then (false, note_unscoped key p e)
    else if is_zq p.symbol
        && is_future p.security_type
        && is_date_elsewhere s.reconcile.ibkr_zq_contract_month p.contract_month
    then (
      true,
      update_ibkr
          (λ a. record a {
            other_month_orders = add_member key a.other_month_orders;
            foreign_orders = discard key a.foreign_orders;
          })
          e,
    )
    else (false, e)

-- An open order is identified anew.
abbrev pub forget_month : Bool → ℕ → EventState → EventState
forget_month true key e = e
forget_month false key e =
    update_ibkr (λ a. record a { other_month_orders = discard key a.other_month_orders }) e

abbrev pub forget_unscoped : ℕ → EventState → EventState
forget_unscoped key =
    update_ibkr (λ a. record a { unscoped_status_orders = discard key a.unscoped_status_orders })

unfoldable pub ignore_other_month_foreign_order :
    EventSettings → EventKeys → IbkrPayload → Bool → EventState → Bool × EventState
ignore_other_month_foreign_order s k p is_status e =
    let key = foreign_order_key k p in
    let e' = forget_month is_status key e in
    if ibkr_own_client s p
    then (false, e)
    else if is_status && contains key e'.own.ibkr.other_month_orders
    then (true, e')
    else ignore_identified s key p is_status (forget_unscoped key e')

abbrev pub update_own : (Coordinator → Coordinator) → EventState → EventState
update_own f e = record e { own = f e.own }

-- The account has changed, so the last reconciliation no longer stands.
abbrev pub change_account : EventState → EventState
change_account =
    update_own (λ c. record (invalidate_reconciliation c) { venue_revision = c.venue_revision + 1 })

abbrev pub observe_error : ℕ → ℕ → Coordinator → Coordinator
observe_error code now c =
    if code == 1100 then record c { maintenance = observe_interruption now c.maintenance } else c

abbrev pub is_request : Option ℕ → Option ℕ → Bool
is_request none given = true
is_request (some id) given = equals_some given id

unfoldable pub end_executions : Option ℕ → Coordinator → Coordinator
end_executions request_id c =
    if is_request c.ibkr.request_id request_id
    then with_markers (record c.ibkr.complete { executions = true }) c
    else c

unfoldable pub end_open_orders : Coordinator → Coordinator
end_open_orders c = with_markers (record c.ibkr.complete { open_orders = true }) c

unfoldable pub end_completed_orders : Coordinator → Coordinator
end_completed_orders c = with_markers (record c.ibkr.complete { completed_orders = true }) c

-- What an event changes before the ledger is compared again; nothing where it is ignored.
unfoldable pub apply_event :
    EventSettings → EventKeys → Clocks → IbkrEvent → EventState → EventOutcome
apply_event s k t market_data e = handled e
apply_event s k t other_event e = handled e
apply_event s k t (error code) e = handled (update_own (observe_error code t.now) e)
apply_event s k t (connection status) e = handled (update_own (observe_connection t status) e)
apply_event s k t (execution p) e = handle_ibkr_execution s k p (change_account e)
apply_event s k t (order_status p) e = handled (handle_ibkr_order_status s k p (change_account e))
apply_event s k t (open_order p) e = handled (handle_ibkr_open_order s k p (change_account e))
apply_event s k t (completed_order p) e =
    handled (handle_ibkr_completed_order s p (change_account e))
apply_event s k t (position p) e =
    and_then show_position (handle_ibkr_position s p (change_account e))
apply_event s k t open_order_end e =
    handled (update_own (λ c. end_open_orders (check_end s.reconcile t c)) e)
apply_event s k t completed_order_end e =
    handled (update_own (λ c. end_completed_orders (check_end s.reconcile t c)) e)
apply_event s k t (execution_end id) e =
    handled (update_own (λ c. end_executions id (check_end s.reconcile t c)) e)
apply_event s k t position_end e =
    set_zq_position (update_own (λ c. end_positions (check_end s.reconcile t c)) e)

-- `_attempt_automated_reconciliation`, in a situation that other tasks make.
unfoldable pub attempt_automated_reconciliation :
    (EventState → Surroundings) → EventSettings → Clocks → EventState → EventState
attempt_automated_reconciliation w s t e =
    update_own (reconcile_ledger_snapshot (w e) s.reconcile t e.store) e

unfoldable pub check_ibkr_refresh_timeout :
    (EventState → Surroundings) → EventSettings → Clocks → EventState → EventOutcome
check_ibkr_refresh_timeout w s t e =
    if e.own.ibkr.refresh_ambiguous
    then failed e
    else if is_timed_out s.reconcile t e.own.ibkr.refresh_started
    then failed (attempt_automated_reconciliation w s t (update_own mark_ibkr_refresh_timeout e))
    else handled e

-- The end of a read, and the ledger compared again.
unfoldable pub compare_again :
    (EventState → Surroundings) → EventSettings → Clocks → EventState → EventState
compare_again w s t e = attempt_automated_reconciliation w s t (update_own (complete_read t) e)

-- Market data and the orders of other months go no further.
unfoldable pub is_ignored : EventSettings → EventKeys → IbkrEvent → EventState → Bool × EventState
is_ignored s k market_data e = (true, e)
is_ignored s k (order_status p) e = ignore_other_month_foreign_order s k p true e
is_ignored s k (open_order p) e = ignore_other_month_foreign_order s k p false e
is_ignored s k _ e = (false, e)

unfoldable pub handle_ibkr_event :
    (EventState → Surroundings)
    → EventSettings
    → EventKeys
    → Clocks
    → IbkrEvent
    → EventState
    → EventOutcome
handle_ibkr_event w s k t event e =
    let (ignored, e') = is_ignored s k event e in
    if ignored then handled e' else then_handled (compare_again w s t) (apply_event s k t event e')
