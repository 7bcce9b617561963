-- ===== src/Batch/Examples.antt =====
-- A batch of ten contracts that fills in two parts, and the theorems at it.
use poly_zq_trading.Prelude.{◌*◌, ◌≤◌, ◌≡◌, refl, List, [], ◌∷◌, true, ◌||◌, arith}
use poly_zq_trading.Prelude.Int.{ℤ, pos}
use poly_zq_trading.Domain.Enums.{idle, qualified, zq_submitted, hedged, recovery}
use poly_zq_trading.Domain.Calendar.{MeetingCalendar}
use poly_zq_trading.Analytics.Units.{one_share}
use poly_zq_trading.Analytics.Sizing.{round_shares_up}
use poly_zq_trading.Batch.Types.{text, inc25, Machine, ok, invalid_transition}
use poly_zq_trading.Batch.Machine.{
  is_allowed, transition, book_fill, add_obligations, ratio_of, record_zq_execution,
}
use poly_zq_trading.Batch.Graph.{Leads, Leads-idle}
use poly_zq_trading.Batch.Hedges.{due_total}
use poly_zq_trading.Batch.History.{
  Command, move, fill, new_machine, obey, run, outcome, obey-error, record_zq_execution-repeat,
}
use poly_zq_trading.Batch.Runs.{
  Trace, entered, run_new-Trace, run_hedges_fills, exposure_needs_entry,
}

abbrev meeting : MeetingCalendar
meeting = record {
  contract_month = record { year = 2026; number = 12 };
  rate_effective_date = record { in_month = record { year = 2026; number = 12 }; day = 10 };
}

abbrev effr : ℤ
effr = pos 36300000000

-- Qualified, submitted, filled with three contracts and then with seven.
abbrev calls : List Command
calls =
    move qualified (text "gates passed")
    ∷ move zq_submitted (text "order placed")
    ∷ fill 1 (pos 300000000)
    ∷ fill 2 (pos 700000000)
    ∷ []

abbrev start : Machine
start = new_machine meeting effr 1 10

Leads-idle_example : Leads hedged idle
Leads-idle_example = Leads-idle hedged

obey-error_example : obey (move hedged (text "early")) start ≡ start
unfolding outcome transition is_allowed new_machine
obey-error_example = obey-error (move hedged (text "early")) start invalid_transition refl

run_new-Trace_example : Trace idle (run calls start).state (run calls start).transition_history
run_new-Trace_example = run_new-Trace calls meeting effr 1 10

run_hedges_fills_example :
    ((run calls start).filled_quantity ≤ (run calls start).original_quantity * one_share)
    × (due_total inc25 (run calls start).obligations
        ≡ round_shares_up (ratio_of inc25 (run calls start) * (run calls start).filled_quantity))
run_hedges_fills_example = run_hedges_fills calls meeting effr 1 10 inc25

record_zq_execution-repeat_example :
    record_zq_execution 1 (pos 700000000) (record_zq_execution 1 (pos 300000000) start).1
    ≡ (ok [], (record_zq_execution 1 (pos 300000000) start).1)
unfolding record_zq_execution new_machine book_fill add_obligations
record_zq_execution-repeat_example =
    record_zq_execution-repeat 1 (pos 300000000) (pos 700000000) start refl (omega arith)

exposure_needs_entry_example :
    (entered zq_submitted (run calls start).transition_history
      || entered recovery (run calls start).transition_history)
    ≡ true
unfolding run obey transition is_allowed record_zq_execution new_machine book_fill add_obligations
exposure_needs_entry_example = exposure_needs_entry calls meeting effr 1 10 refl
