-- ===== src/Batch/Types.antt =====
-- The data of a batch: `HedgeObligation`, `BatchMachine` and what its methods raise.
use poly_zq_trading.Prelude.{ℕ, ◌-◌, List, Bool, true, false, ◌==◌}
use Prim.Native.String.{String}
use poly_zq_trading.Prelude.Int.{ℤ}
use poly_zq_trading.Domain.Enums.{
  BatchState, idle, qualified, zq_submitted, zq_partial, cancel_pending, poly_hedge_pending,
  partially_hedged, hedged, complete, recovery, halted, halted_manual,
}
use poly_zq_trading.Domain.Calendar.{MeetingCalendar}

pub data TokenCode : Type 0 where
  inc25 inc50plus : TokenCode

pub record HedgeObligation : Type 0 where
  pub batch_id : ℕ
  pub exec_id : ℕ
  pub token_code : TokenCode
  pub due_shares : ℕ
  pub confirmed_shares : ℕ

-- `max(Decimal("0"), due - confirmed)`
abbrev pub deficit : HedgeObligation → ℕ
deficit o = o.due_shares - o.confirmed_shares

pub data Reason : Type 0 where
  execution : ℕ → Reason
  text : String → Reason

pub record Transition : Type 0 where
  pub previous : BatchState
  pub next : BatchState
  pub reason : Reason

pub record Machine : Type 0 where
  pub calendar : MeetingCalendar
  pub pre_meeting_effr : ℤ
  pub batch_id : ℕ
  pub state : BatchState
  pub original_quantity : ℕ
  pub filled_quantity : ℕ
  pub seen_exec_ids : List ℕ
  pub obligations : List HedgeObligation
  pub transition_history : List Transition

pub data Error : Type 0 where
  invalid_transition fill_not_positive exceeds_quantity : Error

pub data Result (A : Type 0) : Type 0 where
  ok : A → Result A
  err : Error → Result A

abbrev state_code : BatchState → ℕ
state_code idle = 0
state_code qualified = 1
state_code zq_submitted = 2
state_code zq_partial = 3
state_code cancel_pending = 4
state_code poly_hedge_pending = 5
state_code partially_hedged = 6
state_code hedged = 7
state_code complete = 8
state_code recovery = 9
state_code halted = 10
state_code halted_manual = 11

-- `a is b`
abbrev pub same_state : BatchState → BatchState → Bool
same_state a b = state_code a == state_code b

abbrev pub same_token : TokenCode → TokenCode → Bool
same_token inc25 inc25 = true
same_token inc50plus inc50plus = true
same_token _ _ = false
