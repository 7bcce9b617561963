-- ===== src/Execution/Verdict.antt =====
-- The result that a reconciliation publishes.
use poly_zq_trading.Prelude.{
  ℕ, Bool, true, false, ◌&&◌, not, ◌==◌, ◌≡◌, refl, inl, inr, arith, Bool-cases,
}
use poly_zq_trading.Execution.Types.{Coordinator}
use poly_zq_trading.Execution.Differences.{VenueDifferences, Keys, is_different}
use poly_zq_trading.Execution.Safety.{
  set_automated_reconciliation, invalidate_reconciliation, latch_reconciliation_pause, pause,
  fail_maintenance,
}
use poly_zq_trading.Execution.Callbacks.{ReconcileSettings, Clocks, LedgerStore}
use poly_zq_trading.Execution.Comparison.{final_differences}
use poly_zq_trading.Execution.Reconcile.{
  Surroundings, refuse_ambiguous, is_readable, anchor, report_clean, report_unsafe,
  report_differences, record_result, is_repeat, conclude, compare_ledger, report, same_flag,
}

latch-clean : (c : Coordinator) → (latch_reconciliation_pause c).published.clean ≡ c.published.clean
unfolding latch_reconciliation_pause pause fail_maintenance
latch-clean c = ground arith

report_differences-clean :
    (b : Bool) (keys : Keys) (c : Coordinator)
    → (report_differences b keys c).published.clean ≡ c.published.clean
unfolding report_differences report_unsafe
report_differences-clean true keys c = latch-clean _
report_differences-clean false keys c = ground arith

report-clean :
    (b : Bool) (w : Surroundings) (n : ℕ) (unexplained : Bool) (keys : Keys) (c : Coordinator)
    → (report b w n unexplained keys c).published.clean ≡ c.published.clean
unfolding report_clean anchor
report-clean true w n unexplained keys c = refl
report-clean false w n unexplained keys c = report_differences-clean unexplained keys c

record_result-clean :
    (w : Surroundings) (s : ReconcileSettings) (store : LedgerStore) (keys : Keys)
    (d : VenueDifferences) (c : Coordinator)
    → (record_result w s store keys d c).published.clean ≡ not (is_different d)
unfolding record_result set_automated_reconciliation
record_result-clean w s store keys d c = report-clean _ w _ _ keys _

refuse_ambiguous-clean :
    (w : Surroundings) (t : Clocks) (store : LedgerStore) (c : Coordinator)
    → (refuse_ambiguous w t store c).published.clean ≡ false
unfolding refuse_ambiguous invalidate_reconciliation
refuse_ambiguous-clean w t store c = refl

same_flag_eq : (a b : Bool) → same_flag a b ≡ true → a ≡ b
same_flag_eq a b h = ground arith

repeat-clean :
    (w : Surroundings) (d : VenueDifferences) (c : Coordinator)
    → is_repeat w d c ≡ true
    → c.published.clean ≡ not (is_different d)
unfolding is_repeat
repeat-clean w d c h = same_flag_eq c.published.clean (not (is_different d)) (ground arith)

-- A result stands exactly where nothing differs and the venues are as they were at the start.
conclude-clean :
    (w : Surroundings) (s : ReconcileSettings) (store : LedgerStore) (keys : Keys)
    (d : VenueDifferences) (c : Coordinator)
    → (conclude w s store keys d c).published.clean
      ≡ ((w.venue_revision == c.venue_revision) && not (is_different d))
unfolding conclude invalidate_reconciliation
conclude-clean w s store keys d c = elim (Bool-cases (w.venue_revision == c.venue_revision)) [
  | inr moved ↦ rw moved refl
  | inl same ↦ elim (Bool-cases (is_repeat w d c)) [
    | inl repeated ↦ rw (same, repeated) (repeat-clean w d c repeated)
    | inr new ↦ rw (same, new) (record_result-clean w s store keys d _)
  ]
]

pub compare_ledger-clean :
    (w : Surroundings) (s : ReconcileSettings) (t : Clocks) (store : LedgerStore) (keys : Keys)
    (d : VenueDifferences) (c : Coordinator)
    → (compare_ledger w s t store keys d c).published.clean ≡ (
        not c.ibkr.refresh_ambiguous
        && (is_readable s t c
            && ((w.venue_revision == c.venue_revision)
                && not (is_different (final_differences s store c d)))))
unfolding compare_ledger invalidate_reconciliation
compare_ledger-clean w s t store keys d c = elim (Bool-cases c.ibkr.refresh_ambiguous) [
  | inl ambiguous ↦ simp ambiguous (refuse_ambiguous-clean w t store c)
  | inr told ↦ elim (Bool-cases (is_readable s t c)) [
    | inl readable ↦ simp (told, readable) (conclude-clean w s store keys _ c)
    | inr unreadable ↦ simp (told, unreadable)
  ]
]
