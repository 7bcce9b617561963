-- ===== src/Execution/Faults.antt =====
-- What a fault that nothing excuses does.
use poly_zq_trading.Prelude.{ℕ, Bool, true, false, ◌==◌, ◌≡◌, ◌⊎◌, inl, inr, arith, Bool-cases}
use poly_zq_trading.Execution.Types.{Coordinator}
use poly_zq_trading.Execution.Differences.{Key, VenueDifferences, Keys, has}
use poly_zq_trading.Execution.Safety.{
  set_automated_reconciliation, invalidate_reconciliation, latch_reconciliation_pause, pause,
  fail_maintenance,
}
use poly_zq_trading.Execution.Callbacks.{
  Classified, ReconcileSettings, Clocks, LedgerStore, classify_ibkr_callbacks,
}
use poly_zq_trading.Execution.Restart.{maintenance_recovery_allowed}
use poly_zq_trading.Execution.Comparison.{final_differences, first_differences}
use poly_zq_trading.Execution.Reconcile.{
  Surroundings, check_timeout, check_early, excused, refuse_ambiguous, is_readable, anchor, report,
  report_clean, report_unsafe, report_differences, record_result, is_repeat, conclude,
  compare_ledger, not_ready, reconcile_ledger_snapshot,
}
use poly_zq_trading.Execution.FaultKeys.{is_fault, fault_lem, different_lem}

-- New entries are blocked until an operator resumes.
abbrev pub IsPaused : Coordinator → Type 0
IsPaused c = (c.published.paused ≡ true) × (c.published.armed ≡ false)

latch-IsPaused : (c : Coordinator) → IsPaused (latch_reconciliation_pause c)
unfolding latch_reconciliation_pause pause fail_maintenance
latch-IsPaused c = ground arith

report_unsafe-IsPaused : (b : Bool) (c : Coordinator) → IsPaused c → IsPaused (report_unsafe b c)
unfolding report_unsafe
report_unsafe-IsPaused true c h = latch-IsPaused c
report_unsafe-IsPaused false c h = h

report-IsPaused :
    (b : Bool) (w : Surroundings) (n : ℕ) (unexplained : Bool) (keys : Keys) (c : Coordinator)
    → IsPaused c
    → IsPaused (report b w n unexplained keys c)
unfolding report_clean anchor report_differences
report-IsPaused true w n unexplained keys c h = h
report-IsPaused false w n unexplained keys c h = report_unsafe-IsPaused unexplained _ (ground arith)

record_result-IsPaused :
    (w : Surroundings) (s : ReconcileSettings) (store : LedgerStore) (keys : Keys)
    (d : VenueDifferences) (c : Coordinator)
    → IsPaused c
    → IsPaused (record_result w s store keys d c)
unfolding record_result set_automated_reconciliation
record_result-IsPaused w s store keys d c h = report-IsPaused _ w _ _ keys _ h

conclude-IsPaused :
    (w : Surroundings) (s : ReconcileSettings) (store : LedgerStore) (keys : Keys)
    (d : VenueDifferences) (c : Coordinator)
    → IsPaused c
    → IsPaused (conclude w s store keys d c)
unfolding conclude invalidate_reconciliation
conclude-IsPaused w s store keys d c h = elim (Bool-cases (w.venue_revision == c.venue_revision)) [
  | inr moved ↦ rw moved h
  | inl same ↦ elim (Bool-cases (is_repeat w d c)) [
    | inl repeated ↦ rw (same, repeated) h
    | inr new ↦ rw (same, new) (record_result-IsPaused w s store keys d _ h)
  ]
]

refuse_ambiguous-IsPaused :
    (w : Surroundings) (t : Clocks) (store : LedgerStore) (c : Coordinator)
    → IsPaused c
    → IsPaused (refuse_ambiguous w t store c)
unfolding refuse_ambiguous invalidate_reconciliation maintenance_recovery_allowed
refuse_ambiguous-IsPaused w t store c h =
    let r = maintenance_recovery_allowed w.situation t store (not_ready c) in
    elim (Bool-cases r.0) [ inl restart ↦ rw restart h | inr fault ↦ rw fault (latch-IsPaused r.1) ]

compare_ledger-IsPaused :
    (w : Surroundings) (s : ReconcileSettings) (t : Clocks) (store : LedgerStore) (keys : Keys)
    (d : VenueDifferences) (c : Coordinator)
    → IsPaused c
    → IsPaused (compare_ledger w s t store keys d c)
unfolding compare_ledger invalidate_reconciliation
compare_ledger-IsPaused w s t store keys d c h = elim (Bool-cases c.ibkr.refresh_ambiguous) [
  | inl ambiguous ↦ simp ambiguous (refuse_ambiguous-IsPaused w t store c h)
  | inr told ↦ elim (Bool-cases (is_readable s t c)) [
    | inl readable ↦ simp (told, readable) (conclude-IsPaused w s store keys _ c h)
    | inr unreadable ↦ simp (told, unreadable) h
  ]
]

record_result-fault :
    (w : Surroundings) (s : ReconcileSettings) (store : LedgerStore) (keys : Keys)
    (d : VenueDifferences) (c : Coordinator) (k : Key)
    → is_fault k ≡ true
    → has d k ≡ true
    → keys k ≡ false
    → IsPaused (record_result w s store keys d c)
unfolding record_result report_differences report_unsafe
record_result-fault w s store keys d c k f h e =
    rw (different_lem d k f h, fault_lem d keys k f h e) (latch-IsPaused _)

-- A comparison is made and its result is not the last one again.
pub record IsCompared (w : Surroundings) (s : ReconcileSettings) (t : Clocks) (d : VenueDifferences)
    (c : Coordinator) : Type 0 where
  pub told : c.ibkr.refresh_ambiguous ≡ false
  pub readable : is_readable s t c ≡ true
  pub unmoved : (w.venue_revision == c.venue_revision) ≡ true
  pub is_new : is_repeat w d c ≡ false

compare_ledger-fault :
    (w : Surroundings) (s : ReconcileSettings) (t : Clocks) (store : LedgerStore) (keys : Keys)
    (d : VenueDifferences) (c : Coordinator) (k : Key)
    → is_fault k ≡ true
    → IsCompared w s t (final_differences s store c d) c
    → has (final_differences s store c d) k ≡ true
    → keys k ≡ false
    → IsPaused (compare_ledger w s t store keys d c)
unfolding compare_ledger conclude
compare_ledger-fault w s t store keys d c k f at h e =
    simp (at.told, at.readable, at.unmoved, at.is_new)
      (record_result-fault w s store keys (final_differences s store c d) _ k f h e)

-- The evidence before the comparison, and the state that the comparison is made in.
abbrev pub evidence : ReconcileSettings → Clocks → LedgerStore → Coordinator → Classified
evidence s t store c = classify_ibkr_callbacks s t store (first_differences store c.ibkr) c

abbrev pub in_comparison : ReconcileSettings → Clocks → LedgerStore → Coordinator → Coordinator
in_comparison s t store c =
    let r = evidence s t store c in
    check_early r.transient r.differences (check_timeout s t r.after)

abbrev pub final_evidence :
    ReconcileSettings → Clocks → LedgerStore → Coordinator → VenueDifferences
final_evidence s t store c =
    final_differences s store (in_comparison s t store c) (evidence s t store c).differences

-- A fault stands in the evidence, where nothing excuses it, or in the comparison, where the
-- callbacks do not explain it.
abbrev pub Unexplained :
    Surroundings → ReconcileSettings → Clocks → LedgerStore → Coordinator → Key → Type 0
Unexplained w s t store c k =
    let r = evidence s t store c in
    ((has r.differences k ≡ true) × (excused (check_timeout s t r.after) r.transient k ≡ false))
    ⊎ (IsCompared w s t (final_evidence s t store c) (in_comparison s t store c)
        × (has (final_evidence s t store c) k ≡ true)
        × (r.transient k ≡ false))

-- A fault pauses new entries. In the evidence before the comparison this takes that nothing excuses
-- it, and holds on every path, also where the venues' reads are incomplete, stale or in doubt; in
-- the comparison, which is made where the reads are complete, recent and undoubted and the venues
-- unchanged, it takes that the callbacks do not explain it and that the result is not the last one
-- again.
pub reconcile_ledger_snapshot-IsPaused :
    (w : Surroundings) (s : ReconcileSettings) (t : Clocks) (store : LedgerStore) (c : Coordinator)
    (k : Key)
    → is_fault k ≡ true
    → Unexplained w s t store c k
    → IsPaused (reconcile_ledger_snapshot w s t store c)
unfolding reconcile_ledger_snapshot check_early
reconcile_ledger_snapshot-IsPaused w s t store c k fault (inl (found, plain)) =
    let r = evidence s t store c in
    let c' = check_timeout s t r.after in
    let early = fault_lem r.differences (excused c' r.transient) k fault found plain in
    compare_ledger-IsPaused w s t store r.transient r.differences _
      (rw early (latch-IsPaused (not_ready c')))
reconcile_ledger_snapshot-IsPaused w s t store c k fault (inr (at, found, plain)) =
    let r = evidence s t store c in
    compare_ledger-fault w s t store r.transient r.differences (in_comparison s t store c) k fault
      at found plain
