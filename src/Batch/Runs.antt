-- ===== src/Batch/Runs.antt =====
-- What holds of a batch after any sequence of calls.
use poly_zq_trading.Prelude.{
  ℕ, ◌*◌, ◌≤◌, ◌≡◌, sym, List, [], ◌∷◌, Bool, true, any, arith, Bool-cases, inl, inr, ◌||◌,
}
use poly_zq_trading.Prelude.Int.{ℤ}
use poly_zq_trading.Domain.Enums.{BatchState, idle, zq_submitted, zq_partial, recovery}
use poly_zq_trading.Domain.Calendar.{MeetingCalendar}
use poly_zq_trading.Analytics.Units.{one_share}
use poly_zq_trading.Analytics.Sizing.{round_shares_up}
use poly_zq_trading.Analytics.Sizing.Laws.{round_shares_up-zero}
use poly_zq_trading.Batch.Types.{
  TokenCode, HedgeObligation, Reason, execution, Transition, Machine, Result, same_state,
}
use poly_zq_trading.Batch.Machine.{
  is_allowed, ratio_of, add_obligations, transition, record_zq_execution,
}
use poly_zq_trading.Batch.Hedges.{IsValid, due_total}
use poly_zq_trading.Batch.Executions.{
  Outcome, refused, repeated, filled, record_zq_execution-Outcome, record_zq_execution-IsValid,
}
use poly_zq_trading.Batch.Graph.{has_exposure}
use poly_zq_trading.Batch.History.{Command, move, fill, obey, run, new_machine}

-- A history, latest entry first, that leads from one state to another by allowed transitions.
pub data Trace (start : BatchState) : BatchState → List Transition → Type 0 where
  start_here : Trace start start []
  step :
      {s : BatchState} {h : List Transition}
      → Trace start s h
      → (t : BatchState) (r : Reason) → is_allowed s t ≡ true
      → Trace start t ((record { previous = s; next = t; reason = r }) ∷ h)

transition-IsValid :
    (next : BatchState) (r : Reason) (m : Machine) → IsValid m → IsValid (transition next r m).1
unfolding transition
transition-IsValid next r m v = elim (Bool-cases (is_allowed m.state next)) [
  | inl legal ↦ rw legal (record { within = v.within; due = v.due; known = v.known })
  | inr illegal ↦ rw illegal v
]

transition-Trace :
    (s next : BatchState) (r : Reason) (m : Machine)
    → Trace s m.state m.transition_history
    → let m' = (transition next r m).1 in Trace s m'.state m'.transition_history
unfolding transition
transition-Trace s next r m v = elim (Bool-cases (is_allowed m.state next)) [
  | inl legal ↦ rw legal (step v next r legal)
  | inr illegal ↦ rw illegal v
]

submitted_state :
    (s : BatchState) → same_state s zq_submitted ≡ true → is_allowed s zq_partial ≡ true
unfolding is_allowed
submitted_state s h = ground arith

fill-Trace :
    (s : BatchState) (exec_id : ℕ) (delta : ℤ) (m : Machine)
    → Trace s m.state m.transition_history
    → let m' = (record_zq_execution exec_id delta m).1 in Trace s m'.state m'.transition_history
unfolding add_obligations
fill-Trace s exec_id delta m v =
    keep (record_zq_execution exec_id delta m) (record_zq_execution-Outcome exec_id delta m)
  where
    keep :
        (r : Result (List HedgeObligation) × Machine)
        → Outcome exec_id delta m r
        → Trace s r.1.state r.1.transition_history
    keep r (refused _) = v
    keep r (repeated _) = v
    keep r (filled _ _) = elim (Bool-cases (same_state m.state zq_submitted)) [
      | inl is_submitted ↦
          rw is_submitted
            (step v zq_partial (execution exec_id) (submitted_state m.state is_submitted))
      | inr other ↦ rw other v
    ]

run-IsValid : (cs : List Command) (m : Machine) → IsValid m → IsValid (run cs m)
unfolding run obey
run-IsValid [] m v = v
run-IsValid (move next r ∷ cs) m v = run-IsValid cs _ (transition-IsValid next r m v)
run-IsValid (fill exec_id delta ∷ cs) m v =
    run-IsValid cs _ (record_zq_execution-IsValid exec_id delta m v)

run-Trace :
    (s : BatchState) (cs : List Command) (m : Machine)
    → Trace s m.state m.transition_history
    → Trace s (run cs m).state (run cs m).transition_history
unfolding run obey
run-Trace s [] m v = v
run-Trace s (move next r ∷ cs) m v = run-Trace s cs _ (transition-Trace s next r m v)
run-Trace s (fill exec_id delta ∷ cs) m v = run-Trace s cs _ (fill-Trace s exec_id delta m v)

-- Every entry of the history follows the table.
pub run_new-Trace :
    (cs : List Command) (calendar : MeetingCalendar) (effr : ℤ) (batch_id quantity : ℕ)
    → let m = run cs (new_machine calendar effr batch_id quantity) in
      Trace idle m.state m.transition_history
run_new-Trace cs calendar effr batch_id quantity =
    run-Trace idle cs (new_machine calendar effr batch_id quantity)
      (unfold new_machine in start_here)

pub new_machine-IsValid :
    (calendar : MeetingCalendar) (effr : ℤ) (batch_id quantity : ℕ)
    → IsValid (new_machine calendar effr batch_id quantity)
unfolding new_machine
new_machine-IsValid calendar effr batch_id quantity = record {
  within = omega arith;
  due = λ token. sym (round_shares_up-zero _);
  known = tt;
}

-- After any calls, refused ones included, the fills stay within the order, and each leg is due
-- the hedge of the whole filled quantity, rounded up once.
pub run_hedges_fills :
    (cs : List Command) (calendar : MeetingCalendar) (effr : ℤ) (batch_id quantity : ℕ)
    (token : TokenCode)
    → let m = run cs (new_machine calendar effr batch_id quantity) in
      (m.filled_quantity ≤ m.original_quantity * one_share)
      × (due_total token m.obligations ≡ round_shares_up (ratio_of token m * m.filled_quantity))
run_hedges_fills cs calendar effr batch_id quantity token =
    let v = run-IsValid cs _ (new_machine-IsValid calendar effr batch_id quantity) in
    (v.within, v.due token)

abbrev pub entered : BatchState → List Transition → Bool
entered s = any (λ t. same_state t.next s)

-- A state with exposure is entered from one, or by a submission or a recovery.
exposure_step :
    (s t : BatchState)
    → is_allowed s t ≡ true
    → has_exposure t ≡ true
    → (same_state t zq_submitted || (same_state t recovery || has_exposure s)) ≡ true
unfolding is_allowed
exposure_step s t legal e = ground arith

Trace-exposure :
    {s : BatchState} {h : List Transition}
    → Trace idle s h
    → has_exposure s ≡ true
    → (entered zq_submitted h || entered recovery h) ≡ true
Trace-exposure start_here e = cc
Trace-exposure (step {s} {h} tr t r legal) e =
    merge (same_state t zq_submitted) (same_state t recovery) (has_exposure s)
      (entered zq_submitted h) (entered recovery h) (exposure_step s t legal e) (Trace-exposure tr)
  where
    merge :
        (submitted recovered exposed by_order by_recovery : Bool)
        → (submitted || (recovered || exposed)) ≡ true
        → (exposed ≡ true → (by_order || by_recovery) ≡ true)
        → ((submitted || by_order) || (recovered || by_recovery)) ≡ true
    merge submitted recovered exposed by_order by_recovery now before = ground arith

-- A batch is in a state with exposure (any but idle, qualified and halted) only if its history
-- shows a submission of the ZQ order or a recovery.
pub exposure_needs_entry :
    (cs : List Command) (calendar : MeetingCalendar) (effr : ℤ) (batch_id quantity : ℕ)
    → has_exposure (run cs (new_machine calendar effr batch_id quantity)).state ≡ true
    → let h = (run cs (new_machine calendar effr batch_id quantity)).transition_history in
      (entered zq_submitted h || entered recovery h) ≡ true
exposure_needs_entry cs calendar effr batch_id quantity e =
    Trace-exposure (run_new-Trace cs calendar effr batch_id quantity) e
