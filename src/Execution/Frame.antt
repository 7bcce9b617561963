-- ===== src/Execution/Frame.antt =====
-- What the steps of a reconciliation leave alone.
use poly_zq_trading.Prelude.{
  ℕ, List, Option, none, some, Bool, ◌||◌, ◌≡◌, refl, ◌∙◌, arith, Bool-cases, inl, inr,
}
use poly_zq_trading.Prelude.Int.{ℤ}
use poly_zq_trading.Repository.Status.{ZqOrderProgress}
use poly_zq_trading.Execution.Types.{Gap, Coordinator}
use poly_zq_trading.Execution.Differences.{
  VenueDifferences, Keys, no_keys, has_any, ibkr_keys, unsafe_keys,
}
use poly_zq_trading.Execution.Safety.{
  expire, expire_open, expire_ibkr_gap, finish_open, finish_ibkr_gap, latch_reconciliation_pause,
  pause, fail_maintenance, set_automated_reconciliation, is_due,
}
use poly_zq_trading.Execution.Callbacks.{
  ReconcileSettings, Clocks, LedgerStore, expire_due, classify_observed, move_anchor, open_gap,
  start_gap, settle_gap, month_progress, expected_zq, any_key, classify, classify_ibkr_callbacks,
}
use poly_zq_trading.Execution.Reconcile.{
  check_timeout, check_early, excused, not_ready, is_timed_out,
}

-- The reads of the venues are the same.
pub record SameReads (c c' : Coordinator) : Type 0 where
  pub complete : c'.ibkr.complete ≡ c.ibkr.complete
  pub positions : c'.ibkr.positions ≡ c.ibkr.positions
  pub open_order_ids : c'.ibkr.open_order_ids ≡ c.ibkr.open_order_ids
  pub snapshot_at : c'.ibkr.snapshot_at ≡ c.ibkr.snapshot_at
  pub refresh_ambiguous : c'.ibkr.refresh_ambiguous ≡ c.ibkr.refresh_ambiguous
  pub refresh_started : c'.ibkr.refresh_started ≡ c.ibkr.refresh_started
  pub in_progress : c'.ibkr.reconciliation_in_progress ≡ c.ibkr.reconciliation_in_progress
  pub serial : c'.ibkr.refresh_serial ≡ c.ibkr.refresh_serial
  pub completed : c'.ibkr.completed_refresh_serial ≡ c.ibkr.completed_refresh_serial
  pub polymarket : c'.polymarket ≡ c.polymarket
  pub venue_revision : c'.venue_revision ≡ c.venue_revision

pub SameReads-refl : (c : Coordinator) → SameReads c c
SameReads-refl c = record {
  complete = refl;
  positions = refl;
  open_order_ids = refl;
  snapshot_at = refl;
  refresh_ambiguous = refl;
  refresh_started = refl;
  in_progress = refl;
  serial = refl;
  completed = refl;
  polymarket = refl;
  venue_revision = refl;
}

pub SameReads-trans : (a b c : Coordinator) → SameReads a b → SameReads b c → SameReads a c
SameReads-trans a b c p q = record {
  complete = q.complete ∙ p.complete;
  positions = q.positions ∙ p.positions;
  open_order_ids = q.open_order_ids ∙ p.open_order_ids;
  snapshot_at = q.snapshot_at ∙ p.snapshot_at;
  refresh_ambiguous = q.refresh_ambiguous ∙ p.refresh_ambiguous;
  refresh_started = q.refresh_started ∙ p.refresh_started;
  in_progress = q.in_progress ∙ p.in_progress;
  serial = q.serial ∙ p.serial;
  completed = q.completed ∙ p.completed;
  polymarket = q.polymarket ∙ p.polymarket;
  venue_revision = q.venue_revision ∙ p.venue_revision;
}

pub latch-SameReads : (c : Coordinator) → SameReads c (latch_reconciliation_pause c)
unfolding latch_reconciliation_pause pause fail_maintenance
latch-SameReads c = ground arith

pub latch-ibkr : (c : Coordinator) → (latch_reconciliation_pause c).ibkr ≡ c.ibkr
unfolding latch_reconciliation_pause pause fail_maintenance
latch-ibkr c = ground arith

expire_open-ibkr : (o : Option Gap) (c : Coordinator) → (expire_open o c).ibkr ≡ c.ibkr
unfolding expire set_automated_reconciliation latch_reconciliation_pause pause fail_maintenance
expire_open-ibkr none c = refl
expire_open-ibkr (some g) c = ground arith

pub expire-ibkr : (c : Coordinator) → (expire_ibkr_gap c).ibkr ≡ c.ibkr
unfolding expire_ibkr_gap
expire-ibkr c = expire_open-ibkr c.gap.gap c

expire_open-SameReads : (o : Option Gap) (c : Coordinator) → SameReads c (expire_open o c)
unfolding expire set_automated_reconciliation latch_reconciliation_pause pause fail_maintenance
expire_open-SameReads none c = SameReads-refl c
expire_open-SameReads (some g) c = ground arith

expire-SameReads : (c : Coordinator) → SameReads c (expire_ibkr_gap c)
unfolding expire_ibkr_gap
expire-SameReads c = expire_open-SameReads c.gap.gap c

finish_open-SameReads : (o : Option Gap) (c : Coordinator) → SameReads c (finish_open o c)
finish_open-SameReads none c = SameReads-refl c
finish_open-SameReads (some g) c = ground arith

finish-SameReads : (c : Coordinator) → SameReads c (finish_ibkr_gap c)
unfolding finish_ibkr_gap
finish-SameReads c = finish_open-SameReads c.gap.gap c

anchor-SameReads :
    (ps : List ZqOrderProgress) (expected : ℕ) (observed : ℤ) (c : Coordinator)
    → SameReads c (record c { ibkr = move_anchor ps expected observed c.ibkr })
unfolding move_anchor
anchor-SameReads ps expected observed c = ground arith

start-SameReads :
    (s : ReconcileSettings) (t : Clocks) (ps : List ZqOrderProgress) (expected : ℕ) (observed : ℤ)
    (found : Bool) (c : Coordinator)
    → SameReads c (start_gap s t ps expected observed found c)
unfolding start_gap open_gap
start-SameReads s t ps expected observed found c = ground arith

pub expire_due-ibkr : (t : Clocks) (c : Coordinator) → (expire_due t c).ibkr ≡ c.ibkr
expire_due-ibkr t c = ground (arith, expire-ibkr c)

expire_due-SameReads : (t : Clocks) (c : Coordinator) → SameReads c (expire_due t c)
expire_due-SameReads t c = elim (Bool-cases (is_due c.gap.deadline t.loop_time)) [
  | inl due ↦ rw due (expire-SameReads c)
  | inr early ↦ rw early (SameReads-refl c)
]

settle_gap-SameReads :
    (s : ReconcileSettings) (t : Clocks) (ps : List ZqOrderProgress) (expected : ℕ) (observed : ℤ)
    (keys : Keys) (d : VenueDifferences) (c : Coordinator)
    → SameReads c (settle_gap s t ps expected observed keys d c).after
unfolding settle_gap
settle_gap-SameReads s t ps expected observed keys d c =
    elim (Bool-cases (has_any ibkr_keys no_keys d)) [
      | inl left ↦ rw left (start-SameReads s t ps expected observed (any_key keys) c)
      | inr none_left ↦ rw none_left (finish-SameReads c)
    ]

pub settle_gap-differences :
    (s : ReconcileSettings) (t : Clocks) (ps : List ZqOrderProgress) (expected : ℕ) (observed : ℤ)
    (keys : Keys) (d : VenueDifferences) (c : Coordinator)
    → (settle_gap s t ps expected observed keys d c).differences ≡ d
unfolding settle_gap
settle_gap-differences s t ps expected observed keys d c =
    elim (Bool-cases (has_any ibkr_keys no_keys d)) [
      | inl left ↦ rw left refl
      | inr none_left ↦ rw none_left refl
    ]

classify-SameReads :
    (s : ReconcileSettings) (t : Clocks) (store : LedgerStore) (observed : ℤ) (d : VenueDifferences)
    (c : Coordinator)
    → SameReads c (classify s t store observed d c).after
unfolding classify
classify-SameReads s t store observed d c =
    SameReads-trans _ _ _
      (anchor-SameReads (month_progress s store) (expected_zq s store) observed c)
      (settle_gap-SameReads s t _ _ observed _ _ _)

observed-SameReads :
    (s : ReconcileSettings) (t : Clocks) (store : LedgerStore) (o : Option ℤ) (d : VenueDifferences)
    (c : Coordinator)
    → SameReads c (classify_observed s t store o d c).after
observed-SameReads s t store none d c = SameReads-refl c
observed-SameReads s t store (some n) d c = classify-SameReads s t store n d c

pub classify_ibkr_callbacks-SameReads :
    (s : ReconcileSettings) (t : Clocks) (store : LedgerStore) (d : VenueDifferences)
    (c : Coordinator)
    → SameReads c (classify_ibkr_callbacks s t store d c).after
unfolding classify_ibkr_callbacks
classify_ibkr_callbacks-SameReads s t store d c =
    SameReads-trans _ _ _ (expire_due-SameReads t c) (observed-SameReads s t store _ d _)

pub check_early-SameReads :
    (keys : Keys) (d : VenueDifferences) (c : Coordinator) → SameReads c (check_early keys d c)
unfolding check_early
check_early-SameReads keys d c = elim (Bool-cases (has_any unsafe_keys (excused c keys) d)) [
  | inl early ↦
      rw early (SameReads-trans c (not_ready c) _ (ground arith) (latch-SameReads (not_ready c)))
  | inr fine ↦ rw fine (SameReads-refl c)
]

pub check_timeout-frame :
    (s : ReconcileSettings) (t : Clocks) (c : Coordinator)
    → ((check_timeout s t c).ibkr.complete ≡ c.ibkr.complete)
      × ((check_timeout s t c).ibkr.positions ≡ c.ibkr.positions)
      × ((check_timeout s t c).ibkr.open_order_ids ≡ c.ibkr.open_order_ids)
      × ((check_timeout s t c).ibkr.snapshot_at ≡ c.ibkr.snapshot_at)
      × ((check_timeout s t c).polymarket ≡ c.polymarket)
      × ((check_timeout s t c).venue_revision ≡ c.venue_revision)
      × ((check_timeout s t c).ibkr.refresh_ambiguous
          ≡ (is_timed_out s t c.ibkr.refresh_started || c.ibkr.refresh_ambiguous))
unfolding check_timeout
check_timeout-frame s t c = ground arith
