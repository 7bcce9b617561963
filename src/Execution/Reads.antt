-- ===== src/Execution/Reads.antt =====
-- What holds of a read of the broker's account between any two calls.
use poly_zq_trading.Prelude.{
  refl, ◌∙◌, not, if◌then◌else◌, ℕ, Bool, true, false, ltb, leb, ◌==◌, ◌≡◌, arith,
}
use poly_zq_trading.Execution.Types.{IbkrAccount, Coordinator}
use poly_zq_trading.Execution.Differences.{VenueDifferences, Keys, is_set}
use poly_zq_trading.Execution.Safety.{
  set_automated_reconciliation, invalidate_reconciliation, latch_reconciliation_pause, pause,
  fail_maintenance,
}
use poly_zq_trading.Execution.Callbacks.{
  ReconcileSettings, Clocks, LedgerStore, classify_ibkr_callbacks,
}
use poly_zq_trading.Execution.Comparison.{first_differences}
use poly_zq_trading.Execution.Restart.{maintenance_recovery_allowed}
use poly_zq_trading.Execution.Reconcile.{
  Surroundings, refuse_ambiguous, is_readable, anchor, report, report_clean, report_unsafe,
  report_differences, record_result, is_repeat, conclude, compare_ledger, check_timeout,
  reconcile_ledger_snapshot,
}
use poly_zq_trading.Execution.Frame.{
  SameReads, SameReads-refl, SameReads-trans, latch-SameReads, classify_ibkr_callbacks-SameReads,
  check_early-SameReads,
}

-- A read that is under way has a start and no result; a read is completed once at most.
pub record IsOpen (a : IbkrAccount) : Type 0 where
  pub not_ahead : leb a.completed_refresh_serial a.refresh_serial ≡ true
  pub is_new :
      a.reconciliation_in_progress ≡ true → ltb a.completed_refresh_serial a.refresh_serial ≡ true
  pub is_started : is_set a.refresh_started ≡ a.reconciliation_in_progress
  pub no_snapshot : a.reconciliation_in_progress ≡ true → is_set a.snapshot_at ≡ false

-- The part of the account that tells of a read.
pub record SameRead (a b : IbkrAccount) : Type 0 where
  pub complete : b.complete ≡ a.complete
  pub in_progress : b.reconciliation_in_progress ≡ a.reconciliation_in_progress
  pub snapshot_at : b.snapshot_at ≡ a.snapshot_at
  pub refresh_started : b.refresh_started ≡ a.refresh_started
  pub serial : b.refresh_serial ≡ a.refresh_serial
  pub completed : b.completed_refresh_serial ≡ a.completed_refresh_serial

pub SameRead-refl : (a : IbkrAccount) → SameRead a a
SameRead-refl a = record {
  complete = refl;
  in_progress = refl;
  snapshot_at = refl;
  refresh_started = refl;
  serial = refl;
  completed = refl;
}

pub SameRead-trans : (a b c : IbkrAccount) → SameRead a b → SameRead b c → SameRead a c
SameRead-trans a b c p q = record {
  complete = q.complete ∙ p.complete;
  in_progress = q.in_progress ∙ p.in_progress;
  snapshot_at = q.snapshot_at ∙ p.snapshot_at;
  refresh_started = q.refresh_started ∙ p.refresh_started;
  serial = q.serial ∙ p.serial;
  completed = q.completed ∙ p.completed;
}

pub read-IsOpen : (a b : IbkrAccount) → SameRead a b → IsOpen a → IsOpen b
read-IsOpen a b same h = record {
  not_ahead = rw (same.completed, same.serial) h.not_ahead;
  is_new = rw (same.in_progress, same.completed, same.serial) h.is_new;
  is_started = rw (same.refresh_started, same.in_progress) h.is_started;
  no_snapshot = rw (same.in_progress, same.snapshot_at) h.no_snapshot;
}

reads-SameRead : (c c' : Coordinator) → SameReads c c' → SameRead c.ibkr c'.ibkr
reads-SameRead c c' same = record {
  complete = same.complete;
  in_progress = same.in_progress;
  snapshot_at = same.snapshot_at;
  refresh_started = same.refresh_started;
  serial = same.serial;
  completed = same.completed;
}

if-SameReads :
    (b : Bool) (c x y : Coordinator)
    → SameReads c x
    → SameReads c y
    → SameReads c (if b then x else y)
if-SameReads true c x y p q = p
if-SameReads false c x y p q = q

report_unsafe-SameReads : (b : Bool) (c : Coordinator) → SameReads c (report_unsafe b c)
unfolding report_unsafe
report_unsafe-SameReads true c = latch-SameReads c
report_unsafe-SameReads false c = SameReads-refl c

report-SameReads :
    (b : Bool) (w : Surroundings) (n : ℕ) (unexplained : Bool) (keys : Keys) (c : Coordinator)
    → SameReads c (report b w n unexplained keys c)
unfolding report_clean anchor report_differences
report-SameReads true w n unexplained keys c = ground arith
report-SameReads false w n unexplained keys c =
    SameReads-trans c _ _ (ground arith) (report_unsafe-SameReads unexplained _)

record_result-SameReads :
    (w : Surroundings) (s : ReconcileSettings) (store : LedgerStore) (keys : Keys)
    (d : VenueDifferences) (c : Coordinator)
    → SameReads c (record_result w s store keys d c)
unfolding record_result set_automated_reconciliation
record_result-SameReads w s store keys d c =
    SameReads-trans c _ _ (ground arith) (report-SameReads _ w _ _ keys _)

conclude-SameReads :
    (w : Surroundings) (s : ReconcileSettings) (store : LedgerStore) (keys : Keys)
    (d : VenueDifferences) (c : Coordinator)
    → SameReads c (conclude w s store keys d c)
unfolding conclude invalidate_reconciliation
conclude-SameReads w s store keys d c =
    if-SameReads (not (w.venue_revision == c.venue_revision)) c _ _ (ground arith) (
      if-SameReads (is_repeat w d c) c _ _ (ground arith)
        (SameReads-trans c _ _ (ground arith) (record_result-SameReads w s store keys d _)))

refuse_ambiguous-SameReads :
    (w : Surroundings) (t : Clocks) (store : LedgerStore) (c : Coordinator)
    → SameReads c (refuse_ambiguous w t store c)
unfolding refuse_ambiguous invalidate_reconciliation maintenance_recovery_allowed
    latch_reconciliation_pause pause fail_maintenance
refuse_ambiguous-SameReads w t store c = ground arith

compare_ledger-SameReads :
    (w : Surroundings) (s : ReconcileSettings) (t : Clocks) (store : LedgerStore) (keys : Keys)
    (d : VenueDifferences) (c : Coordinator)
    → SameReads c (compare_ledger w s t store keys d c)
unfolding compare_ledger invalidate_reconciliation
compare_ledger-SameReads w s t store keys d c =
    if-SameReads c.ibkr.refresh_ambiguous c _ _ (refuse_ambiguous-SameReads w t store c) (
      if-SameReads (not (is_readable s t c)) c _ _ (ground arith)
        (conclude-SameReads w s store keys _ c))

check_timeout-SameRead :
    (s : ReconcileSettings) (t : Clocks) (c : Coordinator)
    → SameRead c.ibkr (check_timeout s t c).ibkr
unfolding check_timeout
check_timeout-SameRead s t c = ground arith

-- A reconciliation leaves the read as it is.
pub reconcile_ledger_snapshot-SameRead :
    (w : Surroundings) (s : ReconcileSettings) (t : Clocks) (store : LedgerStore) (c : Coordinator)
    → SameRead c.ibkr (reconcile_ledger_snapshot w s t store c).ibkr
unfolding reconcile_ledger_snapshot
reconcile_ledger_snapshot-SameRead w s t store c =
    let r = classify_ibkr_callbacks s t store (first_differences store c.ibkr) c in
    SameRead-trans _ _ _
      (reads-SameRead c r.after (classify_ibkr_callbacks-SameReads s t store _ c))
      (SameRead-trans _ _ _ (check_timeout-SameRead s t r.after) (
        SameRead-trans _ _ _
          (reads-SameRead _ _ (check_early-SameReads r.transient r.differences _))
          (reads-SameRead _ _ (compare_ledger-SameReads w s t store _ _ _))))
