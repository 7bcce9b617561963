-- ===== src/Execution/Deadlines.antt =====
-- An open gap in the callbacks keeps its deadline.
use poly_zq_trading.Prelude.{
  ℕ, List, Option, none, some, Bool, true, false, ◌≡◌, refl, sym, ap, ◌∙◌, inl, inr, arith,
  Bool-cases,
}
use poly_zq_trading.Prelude.Int.{ℤ}
use poly_zq_trading.Repository.Status.{ZqOrderProgress}
use poly_zq_trading.Execution.Types.{Gap, GapState, Coordinator}
use poly_zq_trading.Execution.Differences.{VenueDifferences, Keys, is_set}
use poly_zq_trading.Execution.Safety.{
  finish_open, finish_ibkr_gap, expire, expire_open, expire_ibkr_gap, set_automated_reconciliation,
  is_due, latch_reconciliation_pause, pause, fail_maintenance,
}
use poly_zq_trading.Execution.Callbacks.{
  ReconcileSettings, Clocks, LedgerStore, open_gap, start_gap, settle_gap, settle_gap_left,
  classify, classify_observed, classify_ibkr_callbacks, expire_due, any_key,
}

-- An open gap has a deadline.
abbrev pub IsTimed : GapState → Type 0
IsTimed g = is_set g.gap ≡ true → is_set g.deadline ≡ true

expire_open-gap :
    (o : Option Gap) (c : Coordinator)
    → ((expire_open o c).gap.gap ≡ c.gap.gap) × ((expire_open o c).gap.deadline ≡ c.gap.deadline)
unfolding expire set_automated_reconciliation latch_reconciliation_pause pause fail_maintenance
expire_open-gap none c = (refl, refl)
expire_open-gap (some g) c = ground arith

pub expire_due-gap :
    (t : Clocks) (c : Coordinator)
    → ((expire_due t c).gap.gap ≡ c.gap.gap) × ((expire_due t c).gap.deadline ≡ c.gap.deadline)
unfolding expire_ibkr_gap
expire_due-gap t c = elim (Bool-cases (is_due c.gap.deadline t.loop_time)) [
  | inl due ↦ rw due (expire_open-gap c.gap.gap c)
  | inr early ↦ rw early (refl, refl)
]

start-IsTimed :
    (s : ReconcileSettings) (t : Clocks) (ps : List ZqOrderProgress) (expected : ℕ) (observed : ℤ)
    (found : Bool) (c : Coordinator)
    → IsTimed c.gap
    → IsTimed (start_gap s t ps expected observed found c).gap
unfolding start_gap open_gap
start-IsTimed s t ps expected observed found c h = ground (arith, h)

finish_open-IsTimed :
    (o : Option Gap) (c : Coordinator) → IsTimed c.gap → IsTimed (finish_open o c).gap
finish_open-IsTimed none c h = h
finish_open-IsTimed (some g) c h = ground arith

settle_gap_left-IsTimed :
    (b : Bool) (s : ReconcileSettings) (t : Clocks) (ps : List ZqOrderProgress) (expected : ℕ)
    (observed : ℤ) (keys : Keys) (d : VenueDifferences) (c : Coordinator)
    → IsTimed c.gap
    → IsTimed (settle_gap_left b s t ps expected observed keys d c).after.gap
unfolding finish_ibkr_gap
settle_gap_left-IsTimed false s t ps expected observed keys d c h =
    finish_open-IsTimed c.gap.gap c h
settle_gap_left-IsTimed true s t ps expected observed keys d c h =
    start-IsTimed s t ps expected observed (any_key keys) c h

observed-IsTimed :
    (s : ReconcileSettings) (t : Clocks) (store : LedgerStore) (o : Option ℤ) (d : VenueDifferences)
    (c : Coordinator)
    → IsTimed c.gap
    → IsTimed (classify_observed s t store o d c).after.gap
unfolding classify settle_gap
observed-IsTimed s t store none d c h = h
observed-IsTimed s t store (some n) d c h = settle_gap_left-IsTimed _ s t _ _ n _ _ _ h

expire_due-IsTimed : (t : Clocks) (c : Coordinator) → IsTimed c.gap → IsTimed (expire_due t c).gap
expire_due-IsTimed t c h =
    let (gap, end) = expire_due-gap t c in λ set. ap is_set end ∙ h (sym (ap is_set gap) ∙ set)

-- After a classification an open gap has a deadline, if it had one before.
classify_ibkr_callbacks-IsTimed :
    (s : ReconcileSettings) (t : Clocks) (store : LedgerStore) (d : VenueDifferences)
    (c : Coordinator)
    → IsTimed c.gap
    → IsTimed (classify_ibkr_callbacks s t store d c).after.gap
unfolding classify_ibkr_callbacks
classify_ibkr_callbacks-IsTimed s t store d c h =
    observed-IsTimed s t store _ d (expire_due t c) (expire_due-IsTimed t c h)
