-- ===== src/Batch/Machine.antt =====
-- The methods of `BatchMachine`.
use poly_zq_trading.Prelude.{
  ℕ, ◌+◌, ◌-◌, ◌*◌, List, [], ◌∷◌, Bool, ◌&&◌, any, contains, ltb, ◌==◌, if◌then◌else◌,
}
use poly_zq_trading.Prelude.Int.{ℤ, pos, pos_part, leb_ℤ}
use poly_zq_trading.Domain.Enums.{
  BatchState, idle, qualified, zq_submitted, zq_partial, cancel_pending, poly_hedge_pending,
  partially_hedged, hedged, complete, recovery, halted, halted_manual,
}
use poly_zq_trading.Analytics.Units.{one_share}
use poly_zq_trading.Analytics.Sizing.{hedge_shares_per_contract, incremental_hedge_shares}
use poly_zq_trading.Batch.Types.{
  TokenCode, inc25, inc50plus, HedgeObligation, Reason, execution, Machine, Result, ok, err,
  invalid_transition, fill_not_positive, exceeds_quantity, same_state, same_token,
}

-- ALLOWED_TRANSITIONS
unfoldable pub allowed_transitions : BatchState → List BatchState
allowed_transitions idle = qualified ∷ recovery ∷ halted ∷ []
allowed_transitions qualified = zq_submitted ∷ idle ∷ halted ∷ []
allowed_transitions zq_submitted = zq_partial ∷ cancel_pending ∷ complete ∷ recovery ∷ halted ∷ []
allowed_transitions zq_partial =
    cancel_pending ∷ poly_hedge_pending ∷ partially_hedged ∷ hedged ∷ recovery ∷ halted_manual ∷ []
allowed_transitions cancel_pending =
    zq_partial ∷ poly_hedge_pending ∷ hedged ∷ complete ∷ recovery ∷ halted_manual ∷ []
allowed_transitions poly_hedge_pending = partially_hedged ∷ hedged ∷ recovery ∷ halted_manual ∷ []
allowed_transitions partially_hedged = poly_hedge_pending ∷ hedged ∷ halted_manual ∷ []
allowed_transitions hedged = zq_partial ∷ complete ∷ recovery ∷ []
allowed_transitions complete = idle ∷ recovery ∷ []
allowed_transitions recovery = idle ∷ zq_submitted ∷ hedged ∷ halted_manual ∷ []
allowed_transitions halted = recovery ∷ []
allowed_transitions halted_manual = recovery ∷ []

unfoldable pub is_allowed : BatchState → BatchState → Bool
unfolding allowed_transitions
is_allowed state next = any (same_state next) (allowed_transitions state)

-- The history is kept with the latest entry first.
unfoldable pub transition : BatchState → Reason → Machine → Result (Unit {0}) × Machine
transition next reason m =
    if is_allowed m.state next
    then (
      ok tt,
      record m {
        state = next;
        transition_history =
            (record { previous = m.state; next = next; reason = reason }) ∷ m.transition_history;
      },
    )
    else (err invalid_transition, m)

-- `self.obligations[key] = obligation`
unfoldable pub put_obligation : HedgeObligation → List HedgeObligation → List HedgeObligation
put_obligation o [] = o ∷ []
put_obligation o (p ∷ ps) =
    if (o.exec_id == p.exec_id) && same_token o.token_code p.token_code
    then o ∷ ps
    else p ∷ put_obligation o ps

abbrev pub move_of : TokenCode → ℕ
move_of inc25 = 25
move_of inc50plus = 50

-- Shares for one contract of a machine.
abbrev pub ratio_of : TokenCode → Machine → ℕ
ratio_of token m = hedge_shares_per_contract (move_of token) m.pre_meeting_effr m.calendar

unfoldable pub new_obligation : ℕ → ℕ → TokenCode → Machine → HedgeObligation
new_obligation exec_id fill_delta token m = record {
  batch_id = m.batch_id;
  exec_id = exec_id;
  token_code = token;
  due_shares =
      incremental_hedge_shares (ratio_of token m) (m.filled_quantity - fill_delta) fill_delta;
  confirmed_shares = 0;
}

-- The loop over the two legs.
unfoldable pub add_obligations : ℕ → ℕ → Machine → List HedgeObligation × Machine
add_obligations exec_id fill_delta m =
    let first = new_obligation exec_id fill_delta inc25 m in
    let second = new_obligation exec_id fill_delta inc50plus m in
    (
      first ∷ second ∷ [],
      record m { obligations = put_obligation second (put_obligation first m.obligations) },
    )

-- A machine that has seen the execution, before its obligations.
unfoldable pub book_fill : ℕ → ℕ → Machine → Result (Unit {0}) × Machine
book_fill exec_id fill_delta m =
    let booked : Machine = record m {
      seen_exec_ids = exec_id ∷ m.seen_exec_ids;
      filled_quantity = m.filled_quantity + fill_delta;
    } in
    if same_state booked.state zq_submitted
    then transition zq_partial (execution exec_id) booked
    else (ok tt, booked)

abbrev pub finish_execution :
    ℕ → ℕ → Result (Unit {0}) × Machine → Result (List HedgeObligation) × Machine
finish_execution exec_id fill_delta (err e, m) = (err e, m)
finish_execution exec_id fill_delta (ok _, m) =
    let (created, m') = add_obligations exec_id fill_delta m in (ok created, m')

unfoldable pub record_zq_execution : ℕ → ℤ → Machine → Result (List HedgeObligation) × Machine
record_zq_execution exec_id fill_delta m =
    if leb_ℤ fill_delta (pos 0)
    then (err fill_not_positive, m)
    else if contains exec_id m.seen_exec_ids
    then (ok [], m)
    else if ltb (m.original_quantity * one_share) (m.filled_quantity + pos_part fill_delta)
    then (err exceeds_quantity, m)
    else finish_execution exec_id (pos_part fill_delta) (book_fill exec_id (pos_part fill_delta) m)
