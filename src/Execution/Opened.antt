-- ===== src/Execution/Opened.antt =====
-- The parts of a call, and a read of the account that is under way.
use poly_zq_trading.Prelude.{
  none, some, ℕ, Option, true, false, ◌&&◌, ◌≡◌, refl, sym, ◌∙◌, inl, inr, arith, Bool-cases,
}
use poly_zq_trading.Execution.Types.{
  manual_operator_attestation, IbkrAccount, Coordinator, all_complete,
}
use poly_zq_trading.Execution.Safety.{invalidate_reconciliation}
use poly_zq_trading.Execution.Callbacks.{ReconcileSettings, Clocks, LedgerStore}
use poly_zq_trading.Execution.Reconcile.{
  is_recent, Surroundings, is_timed_out, reconcile_ledger_snapshot,
}
use poly_zq_trading.Execution.Reconciled.{reconcile_ledger_snapshot-clean}
use poly_zq_trading.Execution.Differences.{is_set}
use poly_zq_trading.Execution.Account.{
  with_markers, check_end, ConnectionReport, connected, disconnected, other_status,
  observe_connection, lose_connection, end_positions, complete_read, mark_ibkr_refresh_timeout,
}
use poly_zq_trading.Execution.Reports.{EventSettings, EventState}
use poly_zq_trading.Execution.Events.{
  is_request, change_account, end_executions, attempt_automated_reconciliation,
}
use poly_zq_trading.Execution.Reads.{read-IsOpen, IsOpen, reconcile_ledger_snapshot-SameRead}
use poly_zq_trading.Execution.Keeping.{Keeps, by_test}

-- While a read is under way, the ledger counts as clean only where an operator has confirmed it.
pub record IsGuarded (c : Coordinator) : Type 0 where
  pub opened : IsOpen c.ibkr
  pub blocked :
      c.ibkr.reconciliation_in_progress ≡ true
      → c.published.clean ≡ true
      → c.published.method ≡ manual_operator_attestation

-- The end markers do not matter to what is open.
pub frame-IsOpen :
    (a b : IbkrAccount)
    → b.reconciliation_in_progress ≡ a.reconciliation_in_progress
    → b.snapshot_at ≡ a.snapshot_at
    → b.refresh_started ≡ a.refresh_started
    → b.refresh_serial ≡ a.refresh_serial
    → b.completed_refresh_serial ≡ a.completed_refresh_serial
    → IsOpen a
    → IsOpen b
frame-IsOpen a b busy snapshot started serial completed h = record {
  not_ahead = rw (completed, serial) h.not_ahead;
  is_new = rw (busy, completed, serial) h.is_new;
  is_started = rw (started, busy) h.is_started;
  no_snapshot = rw (busy, snapshot) h.no_snapshot;
}

pub Keeps-IsGuarded : (c c' : Coordinator) → Keeps c c' → IsGuarded c → IsGuarded c'
Keeps-IsGuarded c c' k h = record {
  opened = read-IsOpen c.ibkr c'.ibkr k.read h.opened;
  blocked =
      λ busy clean. k.method ∙ h.blocked (sym k.read.in_progress ∙ busy) (sym k.clean ∙ clean);
}

pub complete_read-IsOpen :
    (t : Clocks) (c : Coordinator) → IsOpen c.ibkr → IsOpen (complete_read t c).ibkr
unfolding complete_read
complete_read-IsOpen t c h =
    elim (Bool-cases (c.ibkr.reconciliation_in_progress && all_complete c.ibkr.complete)) [
      | inl over ↦ rw over (record {
        not_ahead = ground arith;
        is_new = ground arith;
        is_started = refl;
        no_snapshot = ground arith;
      })
      | inr pending ↦ rw pending h
    ]

not_recent :
    (s : ReconcileSettings) (t : Clocks) (o : Option ℕ)
    → is_set o ≡ false
    → is_recent s t o ≡ true
    → ⊥
not_recent s t none unset recent = ground arith
not_recent s t (some at) unset recent = ground arith

-- A reconciliation does not find the ledger clean before the read is over.
reconcile-IsGuarded :
    (w : Surroundings) (s : ReconcileSettings) (t : Clocks) (store : LedgerStore) (c : Coordinator)
    → IsOpen c.ibkr
    → IsGuarded (reconcile_ledger_snapshot w s t store c)
reconcile-IsGuarded w s t store c h =
    let same = reconcile_ledger_snapshot-SameRead w s t store c in
    record {
      opened = read-IsOpen _ _ same h;
      blocked = λ busy clean.
          let fresh = ((reconcile_ledger_snapshot-clean w s t store c).0 clean).0 in
          let left = h.no_snapshot (sym same.in_progress ∙ busy) in
          absurd (not_recent s t c.ibkr.snapshot_at left fresh.ibkr_recent);
    }

pub attempt-IsGuarded :
    (w : EventState → Surroundings) (s : EventSettings) (t : Clocks) (e : EventState)
    → IsOpen e.own.ibkr
    → IsGuarded (attempt_automated_reconciliation w s t e).own
unfolding attempt_automated_reconciliation
attempt-IsGuarded w s t e h = reconcile-IsGuarded (w e) s.reconcile t e.store e.own h

pub change_account-IsGuarded : (e : EventState) → IsGuarded e.own → IsGuarded (change_account e).own
unfolding invalidate_reconciliation
change_account-IsGuarded e h = record {
  opened = h.opened;
  blocked = λ busy clean. absurd (ground arith);
}

lose_connection-IsOpen :
    (t : Clocks) (status : ConnectionReport) (c : Coordinator)
    → IsOpen c.ibkr
    → IsOpen (lose_connection t status c).ibkr
unfolding lose_connection
lose_connection-IsOpen t status c h = record {
  not_ahead = h.not_ahead;
  is_new = ground arith;
  is_started = refl;
  no_snapshot = ground arith;
}

pub observe_connection-IsOpen :
    (t : Clocks) (status : ConnectionReport) (c : Coordinator)
    → IsOpen c.ibkr
    → IsOpen (observe_connection t status c).ibkr
unfolding observe_connection
observe_connection-IsOpen t connected c h = frame-IsOpen c.ibkr _ refl refl refl refl refl h
observe_connection-IsOpen t disconnected c h = lose_connection-IsOpen t disconnected c h
observe_connection-IsOpen t other_status c h = lose_connection-IsOpen t other_status c h

pub check_end-IsOpen :
    (s : ReconcileSettings) (t : Clocks) (c : Coordinator)
    → IsOpen c.ibkr
    → IsOpen (check_end s t c).ibkr
unfolding check_end
check_end-IsOpen s t c h =
    by_test {A = Coordinator} (λ x. IsOpen x.ibkr) (is_timed_out s t c.ibkr.refresh_started)
      (mark_ibkr_refresh_timeout c) c (frame-IsOpen c.ibkr _ refl refl refl refl refl h) h

pub end_executions-IsOpen :
    (id : Option ℕ) (c : Coordinator) → IsOpen c.ibkr → IsOpen (end_executions id c).ibkr
unfolding end_executions
end_executions-IsOpen id c h =
    by_test {A = Coordinator} (λ x. IsOpen x.ibkr) (is_request c.ibkr.request_id id)
      (with_markers (record c.ibkr.complete { executions = true }) c) c
      (frame-IsOpen c.ibkr _ refl refl refl refl refl h) h

check_end-same :
    (s : ReconcileSettings) (t : Clocks) (c : Coordinator)
    → ((check_end s t c).published.clean ≡ c.published.clean)
      × ((check_end s t c).published.method ≡ c.published.method)
      × ((check_end s t c).ibkr.reconciliation_in_progress ≡ c.ibkr.reconciliation_in_progress)
unfolding check_end
check_end-same s t c = ground arith

pub end_positions-IsGuarded :
    (s : ReconcileSettings) (t : Clocks) (c : Coordinator)
    → IsGuarded c
    → IsGuarded (end_positions (check_end s t c))
unfolding end_positions
end_positions-IsGuarded s t c h =
    let (clean, method, busy) = check_end-same s t c in
    record {
      opened =
          frame-IsOpen (check_end s t c).ibkr _ refl refl refl refl refl
            (check_end-IsOpen s t c h.opened);
      blocked = λ under_way c'. method ∙ h.blocked (sym busy ∙ under_way) (sym clean ∙ c');
    }
