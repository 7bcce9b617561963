-- ===== src/Repository/Examples.antt =====
-- Concrete runs of the ZQ side of the ledger.
use poly_zq_trading.Prelude.{
  ℕ, ◌+◌, ◌*◌, ◌≡◌, refl, List, [], ◌∷◌, Option, none, some, true, false, sum_of, map, All, ◌&&◌,
}
use poly_zq_trading.Prelude.Int.{pos}
use poly_zq_trading.Ledger.Types.{
  ibkr, OrderState, finite, Obligation, Batch, Tables, Result, ok, err,
}
use poly_zq_trading.Analytics.Sizing.{incremental_hedge_shares, round_shares_up}
use poly_zq_trading.Ledger.Queries.{find_batch, write, order_resolved}
use poly_zq_trading.Ledger.Refresh.{refresh_batch_state, refresh_batch, is_hedged}
use poly_zq_trading.Repository.Sizing.{
  saved_hedge_ratios, table_ratios, valid_ratios, read_ratios, is_ratio,
}
use poly_zq_trading.Repository.Entry.{
  Entry, create_zq_batch_intent, batch_hedge_ratios, add_batch, is_fresh_zq_order, new_batch,
  new_zq_order, mark_zq_submitted, write_entry, is_ibkr,
}
use poly_zq_trading.Repository.Fills.{
  ZqFill, record_ibkr_execution_and_obligations, fill_found, fitting, shares_due, zq_execution,
  fill_batch, append_obligations, zq_obligation, add_fill,
}
use poly_zq_trading.Repository.Status.{
  StatusReport, update_zq_order_status, apply_report, report_order, report_batch,
}
use poly_zq_trading.Repository.Positions.{
  Opening, batch_ids, initial_quantity, executed_quantity, strategy_zq_quantity,
  strategy_portfolio_positions,
}
use poly_zq_trading.Repository.Positions.Aggregates.{position_held}
use poly_zq_trading.Repository.Positions.Agreement.{
  HaveOwnIds, strategy_portfolio_positions-strategy_zq_quantity,
}
use poly_zq_trading.Repository.Sizing.Saved.{create_zq_batch_intent-batch_hedge_ratios}
use poly_zq_trading.Repository.Backing.{IsBacked}
use poly_zq_trading.Repository.Backing.Repeat.{record_ibkr_execution_and_obligations-repeat}
use poly_zq_trading.Repository.History.{
  ZqCall, create, abandon, submitted, execution, status, zq, run, empty_tables, run-IsBacked,
}
use poly_zq_trading.Repository.Finality.{is_over, run-is_over}

abbrev joined : ℕ → ℕ → ℕ → ℕ
joined batch exec token = batch * 10000 + exec * 100 + token

-- Two contracts, with ratios of 0.125 and 0.25 shares for a contract.
abbrev entry : Entry
entry = record {
  batch_id = 1;
  order_id = 5;
  contract_month = 202611;
  quantity = 2;
  limit_price = 960000000000;
  snapshot_id = 3;
  hedge_ratios = some ((6, finite (pos 1250000000)) ∷ (7, finite (pos 2500000000)) ∷ []);
}

abbrev first_fill : ZqFill
first_fill = record {
  order_id = 5;
  execution_id = 8;
  quantity = pos 100000000;
  price = 960000000000;
  executed_at = 20;
  token_shares = [];
}

abbrev second_fill : ZqFill
second_fill = record first_fill { execution_id = 9 }

-- One contract more than the order has.
abbrev third_fill : ZqFill
third_fill = record first_fill { execution_id = 10 }

abbrev filled_report : StatusReport
filled_report = record {
  order_id = 5;
  status = OrderState.filled;
  filled = some (pos 200000000);
  remaining = some (pos 0);
  permanent_id = some 77;
}

-- A report that was sent before the order was filled.
abbrev late_report : StatusReport
late_report = record filled_report { status = OrderState.submitted; filled = some (pos 100000000) }

abbrev calls : List ZqCall
calls =
    create 11 entry
    ∷ submitted 1
    ∷ execution first_fill
    ∷ execution second_fill
    ∷ execution third_fill
    ∷ status filled_report
    ∷ []

abbrev final : Tables
final = run joined (map zq calls) (empty_tables false)

abbrev created : Tables
created = run joined (map zq (create 11 entry ∷ [])) (empty_tables false)

abbrev filled_once : Tables
filled_once = run joined (map zq (execution first_fill ∷ [])) created

abbrev rows_of : Result (Tables × List Obligation) → List Obligation
rows_of (ok (t, rows)) = rows
rows_of (err x) = []

abbrev opening : Opening
opening =
    record { venue = ibkr; instrument = 202611; quantity = 300000000; average_price = 95 } ∷ []

abbrev quantity_filled : Option Batch → ℕ
quantity_filled none = 0
quantity_filled (some b) = b.filled_quantity

-- The third fill is refused, the order is over once reported as filled, and nothing failed.
computed :
    (quantity_filled (find_batch 1 final.batches) ≡ 200000000)
    × (is_over 5 final.orders ≡ true)
    × (create_zq_batch_intent 11 entry (empty_tables false) ≡ ok created)
    × (record_ibkr_execution_and_obligations joined first_fill created
        ≡ ok (
          filled_once,
          rows_of (record_ibkr_execution_and_obligations joined first_fill created),
        ))
    × (HaveOwnIds final.batches)
    × (All (λ e. (is_ibkr e.venue && e.terminal_failed) ≡ false) final.executions)
    × (strategy_zq_quantity 202611 opening final ≡ 500000000)
unfolding create_zq_batch_intent add_batch is_fresh_zq_order new_batch new_zq_order
    mark_zq_submitted write_entry write record_ibkr_execution_and_obligations fill_found fitting
    shares_due zq_execution fill_batch append_obligations zq_obligation add_fill
    update_zq_order_status apply_report report_order report_batch refresh_batch_state refresh_batch
    is_hedged saved_hedge_ratios table_ratios valid_ratios read_ratios is_ratio
    incremental_hedge_shares round_shares_up batch_ids initial_quantity executed_quantity
    strategy_zq_quantity order_resolved
computed = (refl, refl, refl, refl, (refl, tt), (refl, (refl, tt)), refl)

run-IsBacked_example : IsBacked 1 final
run-IsBacked_example = run-IsBacked joined false (map zq calls) 1

run-is_over_example :
    is_over 5 (run joined (map zq (status late_report ∷ abandon 1 2 ∷ [])) final).orders ≡ true
run-is_over_example = run-is_over joined (status late_report ∷ abandon 1 2 ∷ []) 5 final computed.1

create_zq_batch_intent-batch_hedge_ratios_example :
    batch_hedge_ratios 1 created ≡ ok (some ((6, 1250000000) ∷ (7, 2500000000) ∷ []))
create_zq_batch_intent-batch_hedge_ratios_example =
    create_zq_batch_intent-batch_hedge_ratios 11 entry (empty_tables false) created refl computed.2

record_ibkr_execution_and_obligations-repeat_example :
    record_ibkr_execution_and_obligations joined first_fill filled_once ≡ ok (filled_once, [])
record_ibkr_execution_and_obligations-repeat_example =
    record_ibkr_execution_and_obligations-repeat joined first_fill created filled_once
      (rows_of (record_ibkr_execution_and_obligations joined first_fill created)) computed.3

strategy_portfolio_positions-strategy_zq_quantity_example :
    sum_of (position_held ibkr 202611) (strategy_portfolio_positions opening final)
    ≡ strategy_zq_quantity 202611 opening final
strategy_portfolio_positions-strategy_zq_quantity_example =
    strategy_portfolio_positions-strategy_zq_quantity 202611 opening final computed.4 (tt, tt)
      computed.5
