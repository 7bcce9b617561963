-- ===== src/Batch/History.antt =====
-- A batch from its creation on: any sequence of transitions and executions, with the calls that
-- raise among them.
use poly_zq_trading.Prelude.{Option, none, some, ℕ, ◌≡◌, refl, List, [], ◌∷◌, true, contains, arith}
use poly_zq_trading.Prelude.Int.{ℤ, pos, ◌<ℤ◌}
use poly_zq_trading.Domain.Enums.{BatchState, idle}
use poly_zq_trading.Domain.Calendar.{MeetingCalendar}
use poly_zq_trading.Batch.Types.{HedgeObligation, Reason, Machine, Result, ok, err, Error}
use poly_zq_trading.Batch.Machine.{add_obligations, transition, record_zq_execution}
use poly_zq_trading.Batch.Executions.{
  Outcome, refused, repeated, filled, record_zq_execution-Outcome,
}

-- `BatchMachine(calendar, effr, batch_id, original_quantity=quantity)`
unfoldable pub new_machine : MeetingCalendar → ℤ → ℕ → ℕ → Machine
new_machine calendar effr batch_id quantity = record {
  calendar = calendar;
  pre_meeting_effr = effr;
  batch_id = batch_id;
  state = idle;
  original_quantity = quantity;
  filled_quantity = 0;
  seen_exec_ids = [];
  obligations = [];
  transition_history = [];
}

pub data Command : Type 0 where
  move : BatchState → Reason → Command
  fill : ℕ → ℤ → Command

-- A caller that goes on after an exception.
unfoldable pub obey : Command → Machine → Machine
obey (move next reason) m = (transition next reason m).1
obey (fill exec_id delta) m = (record_zq_execution exec_id delta m).1

unfoldable pub run : List Command → Machine → Machine
run [] m = m
run (c ∷ cs) m = run cs (obey c m)

-- The exception of a call.
abbrev error_of : {A : Type 0} → Result A → Option Error
error_of (ok _) = none
error_of (err e) = some e

unfoldable pub outcome : Command → Machine → Option Error
outcome (move next reason) m = error_of (transition next reason m).0
outcome (fill exec_id delta) m = error_of (record_zq_execution exec_id delta m).0

-- A call of either method that raises has changed nothing.
pub obey-error : (c : Command) (m : Machine) (e : Error) → outcome c m ≡ some e → obey c m ≡ m
unfolding outcome obey transition
obey-error (move next reason) m e h = ground arith
obey-error (fill exec_id delta) m e h =
    same (record_zq_execution exec_id delta m) (record_zq_execution-Outcome exec_id delta m) h
  where
    same :
        (r : Result (List HedgeObligation) × Machine)
        → Outcome exec_id delta m r
        → error_of r.0 ≡ some e
        → r.1 ≡ m
    same r (refused _) h = refl
    same r (repeated _) h = refl
    same r (filled _ _) h = absurd (ground arith)

seen_after :
    (exec_id : ℕ) (delta : ℤ) (m : Machine) {created : List HedgeObligation}
    → (record_zq_execution exec_id delta m).0 ≡ ok created
    → contains exec_id (record_zq_execution exec_id delta m).1.seen_exec_ids ≡ true
unfolding add_obligations
seen_after exec_id delta m {created} =
    seen (record_zq_execution exec_id delta m) (record_zq_execution-Outcome exec_id delta m)
  where
    seen :
        (r : Result (List HedgeObligation) × Machine)
        → Outcome exec_id delta m r
        → r.0 ≡ ok created
        → contains exec_id r.1.seen_exec_ids ≡ true
    seen r (refused _) h = cc
    seen r (repeated old) h = old
    seen r (filled _ _) h = ground arith

-- An execution id counts once: after a call that went through, a call with the same id and any
-- positive quantity creates no obligation and changes nothing.
pub record_zq_execution-repeat :
    (exec_id : ℕ) (delta delta' : ℤ) (m : Machine) {created : List HedgeObligation}
    → (record_zq_execution exec_id delta m).0 ≡ ok created
    → pos 0 <ℤ delta'
    → let m' = (record_zq_execution exec_id delta m).1 in
      record_zq_execution exec_id delta' m' ≡ (ok [], m')
record_zq_execution-repeat exec_id delta delta' m h positive =
    again (record_zq_execution exec_id delta m).1 (seen_after exec_id delta m h)
  where
    again :
        (m' : Machine)
        → contains exec_id m'.seen_exec_ids ≡ true
        → record_zq_execution exec_id delta' m' ≡ (ok [], m')
    again m' old = unfold record_zq_execution in ground (arith, old)
