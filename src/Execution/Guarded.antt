-- ===== src/Execution/Guarded.antt =====
-- A read of the account that is under way, over any calls.
use poly_zq_trading.Prelude.{◌==◌, true, false, refl}
use poly_zq_trading.Maintenance.Hold.{observe_interruption}
use poly_zq_trading.Execution.Types.{Coordinator}
use poly_zq_trading.Execution.Callbacks.{Clocks}
use poly_zq_trading.Execution.Reconcile.{Surroundings}
use poly_zq_trading.Execution.Account.{check_end, observe_connection, end_positions, complete_read}
use poly_zq_trading.Execution.Reports.{
  EventSettings, EventKeys, EventState, EventOutcome, handled, failed,
}
use poly_zq_trading.Execution.Fills.{then_handled}
use poly_zq_trading.Execution.Events.{
  IbkrEvent, market_data, open_order_end, completed_order_end, position_end, other_event, error,
  connection, execution, order_status, open_order, completed_order, position, execution_end,
  change_account, update_own, observe_error, end_executions, end_open_orders, end_completed_orders,
  apply_event, compare_again, is_ignored, handle_ibkr_event,
}
use poly_zq_trading.Execution.Reads.{IsOpen}
use poly_zq_trading.Execution.Keeping.{
  state_of, Keeps, Keeps-refl, by_test, handle_ibkr_order_status-Keeps,
  handle_ibkr_open_order-Keeps, handle_ibkr_completed_order-Keeps,
}
use poly_zq_trading.Execution.Watching.{
  set_zq_position-KeepsIn, KeepsIn, position-KeepsIn, handle_ibkr_execution-KeepsIn,
  ignore_other_month_foreign_order-Keeps,
}
use poly_zq_trading.Execution.Opened.{
  IsGuarded, frame-IsOpen, Keeps-IsGuarded, complete_read-IsOpen, attempt-IsGuarded,
  observe_connection-IsOpen, check_end-IsOpen, end_executions-IsOpen, end_positions-IsGuarded,
  change_account-IsGuarded,
}

-- What an event leaves to the end of its handler: where that raises, nothing more is done.
data Applied : EventOutcome → Type 0 where
  goes_on : (e : EventState) → IsOpen e.own.ibkr → Applied (handled e)
  stops : (e : EventState) → IsGuarded e.own → Applied (failed e)

KeepsIn-Applied : (e : EventState) (o : EventOutcome) → IsGuarded e.own → KeepsIn e o → Applied o
KeepsIn-Applied e (handled e') h k = goes_on e' (Keeps-IsGuarded e.own e'.own k.keeps h).opened
KeepsIn-Applied e (failed e') h k = stops e' (Keeps-IsGuarded e.own e'.own k.keeps h)

apply_event-Applied :
    (s : EventSettings) (k : EventKeys) (t : Clocks) (event : IbkrEvent) (e : EventState)
    → IsGuarded e.own
    → Applied (apply_event s k t event e)
unfolding apply_event end_open_orders end_completed_orders
apply_event-Applied s k t market_data e h = goes_on e h.opened
apply_event-Applied s k t other_event e h = goes_on e h.opened
apply_event-Applied s k t (error code) e h = goes_on (update_own (observe_error code t.now) e) (
    by_test {A = Coordinator} (λ x. IsOpen x.ibkr) (code == 1100)
      (record e.own { maintenance = observe_interruption t.now e.own.maintenance }) e.own h.opened
      h.opened)
apply_event-Applied s k t (connection status) e h =
    goes_on (update_own (observe_connection t status) e)
      (observe_connection-IsOpen t status e.own h.opened)
apply_event-Applied s k t (execution p) e h =
    KeepsIn-Applied (change_account e) _ (change_account-IsGuarded e h)
      (handle_ibkr_execution-KeepsIn s k p (change_account e))
apply_event-Applied s k t (order_status p) e h =
    KeepsIn-Applied (change_account e) _ (change_account-IsGuarded e h)
      (record { keeps = handle_ibkr_order_status-Keeps s k p (change_account e) })
apply_event-Applied s k t (open_order p) e h =
    KeepsIn-Applied (change_account e) _ (change_account-IsGuarded e h)
      (record { keeps = handle_ibkr_open_order-Keeps s k p (change_account e) })
apply_event-Applied s k t (completed_order p) e h =
    KeepsIn-Applied (change_account e) _ (change_account-IsGuarded e h)
      (record { keeps = handle_ibkr_completed_order-Keeps s p (change_account e) })
apply_event-Applied s k t (position p) e h =
    KeepsIn-Applied (change_account e) _ (change_account-IsGuarded e h)
      (position-KeepsIn s p (change_account e))
apply_event-Applied s k t open_order_end e h =
    goes_on (update_own (λ c. end_open_orders (check_end s.reconcile t c)) e) (
      frame-IsOpen (check_end s.reconcile t e.own).ibkr _ refl refl refl refl refl
        (check_end-IsOpen s.reconcile t e.own h.opened))
apply_event-Applied s k t completed_order_end e h =
    goes_on (update_own (λ c. end_completed_orders (check_end s.reconcile t c)) e) (
      frame-IsOpen (check_end s.reconcile t e.own).ibkr _ refl refl refl refl refl
        (check_end-IsOpen s.reconcile t e.own h.opened))
apply_event-Applied s k t (execution_end id) e h =
    goes_on (update_own (λ c. end_executions id (check_end s.reconcile t c)) e)
      (end_executions-IsOpen id _ (check_end-IsOpen s.reconcile t e.own h.opened))
apply_event-Applied s k t position_end e h =
    let ended = update_own (λ c. end_positions (check_end s.reconcile t c)) e in
    KeepsIn-Applied ended _ (end_positions-IsGuarded s.reconcile t e.own h)
      (set_zq_position-KeepsIn ended)

Applied-IsGuarded :
    (w : EventState → Surroundings) (s : EventSettings) (t : Clocks) (o : EventOutcome)
    → Applied o
    → IsGuarded (state_of (then_handled (compare_again w s t) o)).own
unfolding compare_again
Applied-IsGuarded w s t (handled e) (goes_on _ h) =
    attempt-IsGuarded w s t (update_own (complete_read t) e) (complete_read-IsOpen t e.own h)
Applied-IsGuarded w s t (failed e) (stops _ h) = h

is_ignored-Keeps :
    (s : EventSettings) (k : EventKeys) (event : IbkrEvent) (e : EventState)
    → Keeps e.own (is_ignored s k event e).1.own
unfolding is_ignored
is_ignored-Keeps s k market_data e = Keeps-refl e.own
is_ignored-Keeps s k (order_status p) e = ignore_other_month_foreign_order-Keeps s k p true e
is_ignored-Keeps s k (open_order p) e = ignore_other_month_foreign_order-Keeps s k p false e
is_ignored-Keeps s k other_event e = Keeps-refl e.own
is_ignored-Keeps s k (error code) e = Keeps-refl e.own
is_ignored-Keeps s k (connection status) e = Keeps-refl e.own
is_ignored-Keeps s k (execution p) e = Keeps-refl e.own
is_ignored-Keeps s k (completed_order p) e = Keeps-refl e.own
is_ignored-Keeps s k (position p) e = Keeps-refl e.own
is_ignored-Keeps s k open_order_end e = Keeps-refl e.own
is_ignored-Keeps s k completed_order_end e = Keeps-refl e.own
is_ignored-Keeps s k (execution_end id) e = Keeps-refl e.own
is_ignored-Keeps s k position_end e = Keeps-refl e.own

pub handle_ibkr_event-IsGuarded :
    (w : EventState → Surroundings) (s : EventSettings) (k : EventKeys) (t : Clocks)
    (event : IbkrEvent) (e : EventState)
    → IsGuarded e.own
    → IsGuarded (state_of (handle_ibkr_event w s k t event e)).own
unfolding handle_ibkr_event
handle_ibkr_event-IsGuarded w s k t event e h =
    let r = is_ignored s k event e in
    let seen = Keeps-IsGuarded e.own r.1.own (is_ignored-Keeps s k event e) h in
    by_test {A = EventOutcome} (λ o. IsGuarded (state_of o).own) r.0 (handled r.1)
      (then_handled (compare_again w s t) (apply_event s k t event r.1)) seen
      (Applied-IsGuarded w s t _ (apply_event-Applied s k t event r.1 seen))
