-- ===== src/Execution/Grace.antt =====
-- The grace that a gap in the callbacks is given, and what is not given any.
use poly_zq_trading.Prelude.{
  ◌+◌, ◌⊎◌, ℕ, ◌≤◌, ◌<◌, List, Option, none, some, Bool, true, false, leb, ltb, if◌then◌else◌, ◌≡◌,
  refl, sym, ap, ◌∙◌, inl, inr, arith, Bool-cases,
}
use poly_zq_trading.Prelude.Int.{ℤ}
use poly_zq_trading.Repository.Status.{ZqOrderProgress}
use poly_zq_trading.Execution.Types.{Gap, GapState, Coordinator}
use poly_zq_trading.Execution.Differences.{Key, VenueDifferences, Keys, no_keys, is_set}
use poly_zq_trading.Execution.Safety.{
  expire, expire_open, expire_ibkr_gap, set_automated_reconciliation, is_due,
  latch_reconciliation_pause, pause, fail_maintenance,
}
use poly_zq_trading.Execution.Callbacks.{
  ReconcileSettings, Clocks, LedgerStore, allowed, allowed_in, open_gap, start_gap, settle_gap,
  settle_gap_left, classify, classify_observed, classify_ibkr_callbacks, expire_due, any_key,
  Classified,
}
use poly_zq_trading.Execution.Deadlines.{IsTimed, expire_due-gap}

-- The deadline of a gap: it was there before and has not come, or the gap starts now.
abbrev pub InTime : ReconcileSettings → Clocks → GapState → ℕ → Type 0
InTime s t before deadline =
    ((is_set before.gap ≡ true) × (before.deadline ≡ some deadline) × (t.loop_time < deadline))
    ⊎ ((is_set before.gap ≡ false) × (deadline ≡ t.loop_time + s.ibkr_callback_settle_seconds))

-- A key that is excused: its gap is open and in time, with no complete read since it started.
pub record IsExcused (s : ReconcileSettings) (t : Clocks) (before after : Coordinator)
    : Type 0 where
  pub gap : Gap
  pub is_open : after.gap.gap ≡ some gap
  pub not_expired : after.gap.expired ≡ false
  pub not_read_since : after.ibkr.completed_refresh_serial ≤ gap.refresh_serial
  pub deadline : ℕ
  pub ends : after.gap.deadline ≡ some deadline
  pub in_time : InTime s t before.gap deadline

-- Of an open gap.
abbrev IsAllowed : Option Gap → Bool → ℕ → Type 0
IsAllowed o expired serial =
    (g : Gap) × (o ≡ some g) × (expired ≡ false) × (serial ≤ g.refresh_serial)

allowed_in-IsAllowed :
    (o : Option Gap) (expired : Bool) (serial : ℕ) (keys : Keys) (k : Key)
    → allowed_in o expired serial keys k ≡ true
    → IsAllowed o expired serial
allowed_in-IsAllowed none expired serial keys k h = absurd (ground arith)
allowed_in-IsAllowed (some g) true serial keys k h = absurd (ground arith)
allowed_in-IsAllowed (some g) false serial keys k h =
    elim (Bool-cases (ltb g.refresh_serial serial)) [
      | inl later ↦ absurd (cc (ap (λ b. (if b then no_keys else keys) k) (sym later) ∙ h))
      | inr first ↦ (g, refl, refl, ground arith)
    ]

start-expired :
    (s : ReconcileSettings) (t : Clocks) (ps : List ZqOrderProgress) (expected : ℕ) (observed : ℤ)
    (found : Bool) (c : Coordinator)
    → (start_gap s t ps expected observed found c).gap.expired ≡ c.gap.expired
unfolding start_gap open_gap
start-expired s t ps expected observed found c = ground arith

-- The deadline after a step: that of the gap before, or a new one.
abbrev Deadline : ReconcileSettings → Clocks → GapState → GapState → Type 0
Deadline s t before after =
    ((is_set before.gap ≡ true) × (after.deadline ≡ before.deadline))
    ⊎ ((is_set before.gap ≡ false)
        × (after.deadline ≡ some (t.loop_time + s.ibkr_callback_settle_seconds)))

start-Deadline :
    (s : ReconcileSettings) (t : Clocks) (ps : List ZqOrderProgress) (expected : ℕ) (observed : ℤ)
    (found : Bool) (c : Coordinator)
    → is_set (start_gap s t ps expected observed found c).gap.gap ≡ true
    → Deadline s t c.gap (start_gap s t ps expected observed found c).gap
unfolding start_gap open_gap
start-Deadline s t ps expected observed found c h = elim (Bool-cases (is_set c.gap.gap)) [
  | inl old ↦ inl (old, ground arith)
  | inr none_open ↦ inr (none_open, ground arith)
]

-- What a result allows, its deadline, and whether its gap had expired before.
abbrev Excuses : ReconcileSettings → Clocks → Classified → GapState → Type 0
Excuses s t r before =
    IsAllowed r.after.gap.gap r.after.gap.expired r.after.ibkr.completed_refresh_serial
    × (before.expired ≡ false)
    × Deadline s t before r.after.gap

settle_gap_left-Excuses :
    (b : Bool) (s : ReconcileSettings) (t : Clocks) (ps : List ZqOrderProgress) (expected : ℕ)
    (observed : ℤ) (keys : Keys) (d : VenueDifferences) (c : Coordinator) (k : Key)
    → (settle_gap_left b s t ps expected observed keys d c).transient k ≡ true
    → Excuses s t (settle_gap_left b s t ps expected observed keys d c) c.gap
unfolding allowed
settle_gap_left-Excuses false s t ps expected observed keys d c k h = absurd (ground arith)
settle_gap_left-Excuses true s t ps expected observed keys d c k h =
    let c' = start_gap s t ps expected observed (any_key keys) c in
    let open_one = allowed_in-IsAllowed c'.gap.gap _ _ keys k h in
    (
      open_one,
      sym (start-expired s t ps expected observed (any_key keys) c) ∙ open_one.2,
      start-Deadline s t ps expected observed (any_key keys) c (ap is_set open_one.1),
    )

observed-Excuses :
    (s : ReconcileSettings) (t : Clocks) (store : LedgerStore) (o : Option ℤ) (d : VenueDifferences)
    (c : Coordinator) (k : Key)
    → (classify_observed s t store o d c).transient k ≡ true
    → Excuses s t (classify_observed s t store o d c) c.gap
unfolding classify settle_gap
observed-Excuses s t store none d c k h = absurd (ground arith)
observed-Excuses s t store (some n) d c k h =
    settle_gap_left-Excuses _ s t _ _ n _ _ (record c { ibkr = _ }) k h

expired_open :
    (o : Option Gap) (c : Coordinator) → is_set o ≡ true → (expire_open o c).gap.expired ≡ true
unfolding expire set_automated_reconciliation latch_reconciliation_pause pause fail_maintenance
expired_open none c h = absurd (ground arith)
expired_open (some g) c h = ground arith

-- A gap whose deadline has come is expired.
expire_due-expired :
    (t : Clocks) (c : Coordinator)
    → is_set c.gap.gap ≡ true
    → is_due c.gap.deadline t.loop_time ≡ true
    → (expire_due t c).gap.expired ≡ true
unfolding expire_ibkr_gap
expire_due-expired t c is_open due = rw due (expired_open c.gap.gap c is_open)

in_time_lem :
    (t : Clocks) (c : Coordinator) (deadline : ℕ)
    → (expire_due t c).gap.expired ≡ false
    → is_set c.gap.gap ≡ true
    → c.gap.deadline ≡ some deadline
    → t.loop_time < deadline
in_time_lem t c deadline fresh is_open e = elim (Bool-cases (leb deadline t.loop_time)) [
  | inl late ↦
      absurd (cc (expire_due-expired t c is_open (ap (λ o. is_due o t.loop_time) e ∙ late), fresh))
  | inr early ↦ ground arith
]

given : (o : Option ℕ) → is_set o ≡ true → (d : ℕ) × (o ≡ some d)
given none h = absurd (ground arith)
given (some d) h = (d, refl)

deadline_lem :
    (s : ReconcileSettings) (t : Clocks) (c : Coordinator) (after : GapState)
    → IsTimed c.gap
    → (expire_due t c).gap.expired ≡ false
    → Deadline s t (expire_due t c).gap after
    → (d : ℕ) × (after.deadline ≡ some d) × InTime s t c.gap d
deadline_lem s t c after timed fresh (inl (old, same)) =
    let (gap, end) = expire_due-gap t c in
    let was_open = sym (ap is_set gap) ∙ old in
    let (d, e) = given c.gap.deadline (timed was_open) in
    (d, same ∙ end ∙ e, inl (was_open, e, in_time_lem t c d fresh was_open e))
deadline_lem s t c after timed fresh (inr (new, set)) =
    let (gap, end) = expire_due-gap t c in (_, set, inr (sym (ap is_set gap) ∙ new, refl))

-- The classification of the callbacks excuses a difference only in a gap that is open and not
-- expired, since whose start no read of the account was completed. The gap has a deadline: one that
-- it had before and that has not come, or, for a gap that starts now, one after the seconds that
-- the settings allow. An open gap is taken to have a deadline before.
pub classify_ibkr_callbacks-IsExcused :
    (s : ReconcileSettings) (t : Clocks) (store : LedgerStore) (d : VenueDifferences)
    (c : Coordinator) (k : Key)
    → IsTimed c.gap
    → let r = classify_ibkr_callbacks s t store d c in
      r.transient k ≡ true → IsExcused s t c r.after
unfolding classify_ibkr_callbacks
classify_ibkr_callbacks-IsExcused s t store d c k timed h =
    let ((g, is_open, fresh, serial), before, dated) =
      observed-Excuses s t store _ d (expire_due t c) k h in
    let after = (classify_ibkr_callbacks s t store d c).after in
    let (end, ends, in_time) = deadline_lem s t c after.gap timed before dated in
    record {
      gap = g;
      is_open = is_open;
      not_expired = fresh;
      not_read_since = serial;
      deadline = end;
      ends = ends;
      in_time = in_time;
    }
