-- ===== src/Execution/History.antt =====
-- The calls that read the broker's account, in any order.
use poly_zq_trading.Prelude.{
  arith, ℕ, List, [], ◌∷◌, Option, none, some, Bool, true, false, refl, if◌then◌else◌,
}
use poly_zq_trading.Execution.Confirming.{OperatorView, may_confirm, attest, confirm_reconciliation}
use poly_zq_trading.Execution.Types.{Coordinator}
use poly_zq_trading.Execution.Safety.{invalidate_reconciliation}
use poly_zq_trading.Execution.Callbacks.{Clocks}
use poly_zq_trading.Execution.Reconcile.{Surroundings, is_timed_out}
use poly_zq_trading.Execution.Account.{
  begin_ibkr_reconciliation, start_read, mark_ibkr_refresh_timeout,
}
use poly_zq_trading.Execution.Reports.{
  EventSettings, EventKeys, EventState, EventOutcome, handled, failed,
}
use poly_zq_trading.Execution.Events.{
  IbkrEvent, update_own, attempt_automated_reconciliation, check_ibkr_refresh_timeout,
  handle_ibkr_event,
}
use poly_zq_trading.Execution.Keeping.{state_of, by_test}
use poly_zq_trading.Execution.Opened.{IsGuarded, attempt-IsGuarded, frame-IsOpen}
use poly_zq_trading.Execution.Guarded.{handle_ibkr_event-IsGuarded}

-- A call, with the clocks and the situation in which it is made.
pub data AccountCall : Type 0 where
  begin_read : Clocks → Option ℕ → AccountCall
  check_time : (EventState → Surroundings) → Clocks → AccountCall
  receive : (EventState → Surroundings) → Clocks → IbkrEvent → AccountCall
  confirm : OperatorView → AccountCall

abbrev pub begun : Option (Bool × Coordinator) → EventState → EventState
begun none e = e
begun (some (started, c)) e = record e { own = c }

unfoldable pub call : EventSettings → EventKeys → AccountCall → EventState → EventState
call s k (begin_read t id) e = begun (begin_ibkr_reconciliation t id e.own) e
call s k (check_time w t) e = state_of (check_ibkr_refresh_timeout w s t e)
call s k (receive w t event) e = state_of (handle_ibkr_event w s k t event e)
call s k (confirm v) e = state_of (confirm_reconciliation v e)

unfoldable pub run_calls : EventSettings → EventKeys → List AccountCall → EventState → EventState
run_calls s k [] e = e
run_calls s k (c ∷ cs) e = run_calls s k cs (call s k c e)

start_read-IsGuarded :
    (t : Clocks) (id : Option ℕ) (c : Coordinator) → IsGuarded c → IsGuarded (start_read t id c)
unfolding start_read invalidate_reconciliation
start_read-IsGuarded t id c h =
    let old = h.opened.not_ahead in
    record {
      opened = record {
        not_ahead = ground arith;
        is_new = ground arith;
        is_started = refl;
        no_snapshot = λ busy. refl;
      };
      blocked = λ busy clean. absurd (ground arith);
    }

begin-IsGuarded :
    (t : Clocks) (id : Option ℕ) (e : EventState)
    → IsGuarded e.own
    → IsGuarded (begun (begin_ibkr_reconciliation t id e.own) e).own
unfolding begin_ibkr_reconciliation
begin-IsGuarded t id e h =
    by_test {A = Option (Bool × Coordinator)} (λ o. IsGuarded (begun o e).own)
      e.own.ibkr.refresh_ambiguous none
      (if e.own.ibkr.reconciliation_in_progress
        then some (false, e.own)
        else some (true, start_read t id e.own))
      h
      (by_test {A = Option (Bool × Coordinator)} (λ o. IsGuarded (begun o e).own)
        e.own.ibkr.reconciliation_in_progress (some (false, e.own))
        (some (true, start_read t id e.own)) h (start_read-IsGuarded t id e.own h))

check_timeout-IsGuarded :
    (w : EventState → Surroundings) (s : EventSettings) (t : Clocks) (e : EventState)
    → IsGuarded e.own
    → IsGuarded (state_of (check_ibkr_refresh_timeout w s t e)).own
unfolding check_ibkr_refresh_timeout
check_timeout-IsGuarded w s t e h =
    let marked = update_own mark_ibkr_refresh_timeout e in
    let attempted = attempt_automated_reconciliation w s t marked in
    let is_late = is_timed_out s.reconcile t e.own.ibkr.refresh_started in
    by_test {A = EventOutcome} (λ o. IsGuarded (state_of o).own) e.own.ibkr.refresh_ambiguous
      (failed e) (if is_late then failed attempted else handled e) h
      (by_test {A = EventOutcome} (λ o. IsGuarded (state_of o).own) is_late (failed attempted)
        (handled e)
        (attempt-IsGuarded w s t marked
          (frame-IsOpen e.own.ibkr _ refl refl refl refl refl h.opened))
        h)

confirm_reconciliation-IsGuarded :
    (v : OperatorView) (e : EventState)
    → IsGuarded e.own
    → IsGuarded (state_of (confirm_reconciliation v e)).own
unfolding confirm_reconciliation
confirm_reconciliation-IsGuarded v e h =
    by_test {A = EventOutcome} (λ o. IsGuarded (state_of o).own) (may_confirm v e.store.tables)
      (handled (update_own attest e)) (failed e)
      (record { opened = h.opened; blocked = λ busy clean. refl }) h

call-IsGuarded :
    (s : EventSettings) (k : EventKeys) (c : AccountCall) (e : EventState)
    → IsGuarded e.own
    → IsGuarded (call s k c e).own
unfolding call
call-IsGuarded s k (begin_read t id) e h = begin-IsGuarded t id e h
call-IsGuarded s k (check_time w t) e h = check_timeout-IsGuarded w s t e h
call-IsGuarded s k (receive w t event) e h = handle_ibkr_event-IsGuarded w s k t event e h
call-IsGuarded s k (confirm v) e h = confirm_reconciliation-IsGuarded v e h

-- After any sequence of starts of a read, time checks, broker events and confirmations by an
-- operator, while a read of the account is under way: it has a start time, a serial that no read was
-- completed under and no result, and the published reconciliation is clean only where an operator
-- has confirmed it.
pub run_calls-IsGuarded :
    (s : EventSettings) (k : EventKeys) (cs : List AccountCall) (e : EventState)
    → IsGuarded e.own
    → IsGuarded (run_calls s k cs e).own
unfolding run_calls
run_calls-IsGuarded s k [] e h = h
run_calls-IsGuarded s k (c ∷ cs) e h =
    run_calls-IsGuarded s k cs (call s k c e) (call-IsGuarded s k c e h)
