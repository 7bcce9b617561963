-- ===== src/Execution/Reconciled.antt =====
-- A reconciliation as a whole.
use poly_zq_trading.Prelude.{
  some, Bool, true, false, ◌&&◌, ◌||◌, not, ◌==◌, ==_iff, ◌≡◌, ◌↔◌, refl, sym, ap, subst, ◌∙◌,
  arith,
}
use poly_zq_trading.Execution.Types.{IbkrAccount, Coordinator, all_complete}
use poly_zq_trading.Execution.Differences.{VenueDifferences, is_different}
use poly_zq_trading.Execution.Callbacks.{
  ReconcileSettings, Clocks, LedgerStore, month_progress, expected_zq, observed_zq_position,
  classify, callback_differences, classify_observed, classify_ibkr_callbacks, expire_due,
  observed_by_callbacks,
}
use poly_zq_trading.Execution.Comparison.{first_differences, final_differences, order_differences}
use poly_zq_trading.Execution.Reconcile.{
  Surroundings, is_timed_out, check_timeout, check_early, is_readable, is_recent,
  reconcile_ledger_snapshot,
}
use poly_zq_trading.Execution.Agreement.{Agrees, is_different-IsNone, IsNone-is_different}
use poly_zq_trading.Execution.Frame.{
  expire_due-ibkr, settle_gap-differences, classify_ibkr_callbacks-SameReads, check_early-SameReads,
  check_timeout-frame,
}
use poly_zq_trading.Execution.Clean.{all_differences, Agrees-IsNone, IsNone-Agrees}
use poly_zq_trading.Execution.Verdict.{compare_ledger-clean}

-- The reads of both venues are complete and not too old, and no read has timed out.
pub record IsFresh (s : ReconcileSettings) (t : Clocks) (c : Coordinator) : Type 0 where
  pub open_orders : c.ibkr.complete.open_orders ≡ true
  pub completed_orders : c.ibkr.complete.completed_orders ≡ true
  pub executions : c.ibkr.complete.executions ≡ true
  pub positions : c.ibkr.complete.positions ≡ true
  pub ibkr_recent : is_recent s t c.ibkr.snapshot_at ≡ true
  pub polymarket_complete :
      s.simulate_polymarket_fills ≡ false → c.polymarket.snapshot_complete ≡ true
  pub polymarket_recent :
      s.simulate_polymarket_fills ≡ false → is_recent s t c.polymarket.snapshot_at ≡ true
  pub told : c.ibkr.refresh_ambiguous ≡ false
  pub in_time : is_timed_out s t c.ibkr.refresh_started ≡ false

abbrev is_fresh : ReconcileSettings → Clocks → Coordinator → Bool
is_fresh s t c =
    not (is_timed_out s t c.ibkr.refresh_started || c.ibkr.refresh_ambiguous) && is_readable s t c

IsFresh-iff :
    (s : ReconcileSettings) (t : Clocks) (c : Coordinator) → (is_fresh s t c ≡ true) ↔ IsFresh s t c
unfolding is_readable
IsFresh-iff s t c = (λ h. ground arith, λ f. ground arith)

-- The state that the last part of the method works on.
abbrev checked : ReconcileSettings → Clocks → LedgerStore → Coordinator → Coordinator
checked s t store c =
    let r = classify_ibkr_callbacks s t store (first_differences store c.ibkr) c in
    check_early r.transient r.differences (check_timeout s t r.after)

abbrev found : ReconcileSettings → Clocks → LedgerStore → Coordinator → VenueDifferences
found s t store c =
    (classify_ibkr_callbacks s t store (first_differences store c.ibkr) c).differences

pub record Checked (s : ReconcileSettings) (t : Clocks) (c c' : Coordinator) : Type 0 where
  pub complete : c'.ibkr.complete ≡ c.ibkr.complete
  pub positions : c'.ibkr.positions ≡ c.ibkr.positions
  pub open_order_ids : c'.ibkr.open_order_ids ≡ c.ibkr.open_order_ids
  pub snapshot_at : c'.ibkr.snapshot_at ≡ c.ibkr.snapshot_at
  pub polymarket : c'.polymarket ≡ c.polymarket
  pub venue_revision : c'.venue_revision ≡ c.venue_revision
  pub ambiguous :
      c'.ibkr.refresh_ambiguous
      ≡ (is_timed_out s t c.ibkr.refresh_started || c.ibkr.refresh_ambiguous)

checked_lem :
    (s : ReconcileSettings) (t : Clocks) (store : LedgerStore) (c : Coordinator)
    → Checked s t c (checked s t store c)
checked_lem s t store c =
    let d = first_differences store c.ibkr in
    let r = classify_ibkr_callbacks s t store d c in
    let first = classify_ibkr_callbacks-SameReads s t store d c in
    let timed = check_timeout-frame s t r.after in
    let early = check_early-SameReads r.transient r.differences (check_timeout s t r.after) in
    record {
      complete = early.complete ∙ timed.0 ∙ first.complete;
      positions = early.positions ∙ timed.1 ∙ first.positions;
      open_order_ids = early.open_order_ids ∙ timed.2 ∙ first.open_order_ids;
      snapshot_at = early.snapshot_at ∙ timed.3 ∙ first.snapshot_at;
      polymarket = early.polymarket ∙ timed.4 ∙ first.polymarket;
      venue_revision = early.venue_revision ∙ timed.5 ∙ first.venue_revision;
      ambiguous =
          early.refresh_ambiguous
          ∙ timed.6
          ∙ (λ i. is_timed_out s t (first.refresh_started i) || first.refresh_ambiguous i);
    }

readable_same :
    (s : ReconcileSettings) (t : Clocks) (c c' : Coordinator)
    → Checked s t c c'
    → is_readable s t c' ≡ is_readable s t c
unfolding is_readable
readable_same s t c c' k = λ i.
    all_complete (k.complete i)
    && (s.simulate_polymarket_fills || (k.polymarket i).snapshot_complete)
    && (s.simulate_polymarket_fills || is_recent s t (k.polymarket i).snapshot_at)
    && is_recent s t (k.snapshot_at i)

final_same :
    (s : ReconcileSettings) (t : Clocks) (store : LedgerStore) (c c' : Coordinator)
    (d : VenueDifferences)
    → Checked s t c c'
    → final_differences s store c' d ≡ final_differences s store c d
unfolding final_differences order_differences
final_same s t store c c' d k = rw (k.positions, k.open_order_ids, k.polymarket) refl

abbrev with_callbacks :
    ReconcileSettings → LedgerStore → VenueDifferences → IbkrAccount → VenueDifferences
with_callbacks s store d a =
    callback_differences (month_progress s store) a (expected_zq s store) (observed_zq_position a) d

observed_complete :
    (a : IbkrAccount)
    → all_complete a.complete ≡ true
    → observed_by_callbacks a ≡ some (observed_zq_position a)
unfolding observed_by_callbacks
observed_complete a complete = rw complete refl

observed_lem :
    (s : ReconcileSettings) (t : Clocks) (store : LedgerStore) (d : VenueDifferences)
    (c : Coordinator)
    → all_complete c.ibkr.complete ≡ true
    → (classify_observed s t store (observed_by_callbacks c.ibkr) d c).differences
      ≡ with_callbacks s store d c.ibkr
unfolding classify
observed_lem s t store d c complete =
    subst (λ o. (classify_observed s t store o d c).differences ≡ with_callbacks s store d c.ibkr)
      (sym (observed_complete c.ibkr complete)) (settle_gap-differences s t _ _ _ _ _ _)

-- On a complete read the callbacks are those of the read.
found_lem :
    (s : ReconcileSettings) (t : Clocks) (store : LedgerStore) (c : Coordinator)
    → all_complete c.ibkr.complete ≡ true
    → found s t store c ≡ with_callbacks s store (first_differences store c.ibkr) c.ibkr
unfolding classify_ibkr_callbacks
found_lem s t store c complete =
    let same = expire_due-ibkr t c in
    observed_lem s t store (first_differences store c.ibkr) (expire_due t c)
      (ap (λ a. all_complete a.complete) same ∙ complete)
    ∙ ap (with_callbacks s store (first_differences store c.ibkr)) same

all_found :
    (s : ReconcileSettings) (t : Clocks) (store : LedgerStore) (c : Coordinator)
    → all_complete c.ibkr.complete ≡ true
    → final_differences s store (checked s t store c) (found s t store c)
      ≡ all_differences s store c
all_found s t store c complete =
    final_same s t store c (checked s t store c) (found s t store c) (checked_lem s t store c)
    ∙ ap (final_differences s store c) (found_lem s t store c complete)

-- What is published, as one test.
clean_lem :
    (w : Surroundings) (s : ReconcileSettings) (t : Clocks) (store : LedgerStore) (c : Coordinator)
    → (reconcile_ledger_snapshot w s t store c).published.clean ≡ (
        not (is_timed_out s t c.ibkr.refresh_started || c.ibkr.refresh_ambiguous)
        && (is_readable s t c
            && ((w.venue_revision == c.venue_revision)
                && not (
                    is_different
                      (final_differences s store (checked s t store c) (found s t store c))))))
unfolding reconcile_ledger_snapshot
clean_lem w s t store c =
    let k = checked_lem s t store c in
    compare_ledger-clean w s t store _ (found s t store c) (checked s t store c) ∙ (λ i.
      not (k.ambiguous i)
      && (readable_same s t c (checked s t store c) k i
          && ((w.venue_revision == k.venue_revision i)
              && not (
                  is_different
                    (final_differences s store (checked s t store c) (found s t store c))))))

readable-complete :
    (s : ReconcileSettings) (t : Clocks) (c : Coordinator)
    → is_readable s t c ≡ true
    → all_complete c.ibkr.complete ≡ true
unfolding is_readable
readable-complete s t c h = ground arith

all_tests :
    (late readable same left : Bool)
    → (not late && (readable && (same && not left))) ≡ true
    → ((not late && readable) ≡ true) × (readable ≡ true) × (same ≡ true) × (left ≡ false)
all_tests late readable same left h = ground arith

tests_all :
    (late readable same left : Bool)
    → (not late && readable) ≡ true
    → same ≡ true
    → left ≡ false
    → (not late && (readable && (same && not left))) ≡ true
tests_all late readable same left fresh unmoved none_left = ground arith

-- A reconciliation publishes that the venues are clean exactly when both were read in full and in
-- time, neither changed while the ledger was read, and the ledger and the venues agree.
pub reconcile_ledger_snapshot-clean :
    (w : Surroundings) (s : ReconcileSettings) (t : Clocks) (store : LedgerStore) (c : Coordinator)
    → ((reconcile_ledger_snapshot w s t store c).published.clean ≡ true)
      ↔ (IsFresh s t c × (w.venue_revision ≡ c.venue_revision) × Agrees s store c)
reconcile_ledger_snapshot-clean w s t store c =
    let result = clean_lem w s t store c in
    (
      λ h.
          let (fresh, readable, same, none_left) = all_tests _ _ _ _ (sym result ∙ h) in
          let all = all_found s t store c (readable-complete s t c readable) in
          (
            (IsFresh-iff s t c).0 fresh,
            (==_iff w.venue_revision c.venue_revision).0 same,
            IsNone-Agrees s store c (is_different-IsNone _ (sym (ap is_different all) ∙ none_left)),
          ),
      λ (fresh, same, agreed).
          let readable = (IsFresh-iff s t c).1 fresh in
          let complete = readable-complete s t c (ground arith) in
          result
          ∙ tests_all _ _ _ _ readable ((==_iff w.venue_revision c.venue_revision).1 same) (
              ap is_different (all_found s t store c complete)
              ∙ IsNone-is_different _ (Agrees-IsNone s store c agreed)),
    )
