-- ===== src/Ledger/Examples.antt =====
-- One hedge from its intent to the venue's last word, and the theorems at its states.
use poly_zq_trading.Prelude.{
  ◌++◌, ◌*◌, ℕ, [], ◌∷◌, ◌≡◌, ◌≢◌, ◌↔◌, none, some, Bool, true, false, refl, arith,
}
use poly_zq_trading.Prelude.Int.{pos}
use poly_zq_trading.Domain.Enums.{BatchState}
use poly_zq_trading.Ledger.Types.{
  polymarket, venue_id, OrderState, TradeStatus, ObligationState, Obligation, Batch, Tables, Result,
  ok, err, finite,
}
use poly_zq_trading.Ledger.Queries.{order_resolved, write}
use poly_zq_trading.Ledger.Refresh.{
  recorded_under, reopen, reopen_orders, settle, obligation_state, refresh_obligation, is_hedged,
  refresh_batch, refresh_batch_state, refresh_with, refresh_hedge,
}
use poly_zq_trading.Ledger.Refresh.Accounted.{IsRefreshed, refresh_hedge-IsRefreshed}
use poly_zq_trading.Ledger.Refresh.Completion.{IsFinished, refresh_batch-complete}
use poly_zq_trading.Ledger.Intents.{
  Intent, new_order, reserve, is_fresh_row, has_unresolved, reserve_order,
  create_hedge_order_intent,
}
use poly_zq_trading.Ledger.Intents.Reservation.{
  IsGranted, create_hedge_order_intent-IsGranted, create_hedge_order_intent-exclusive,
}
use poly_zq_trading.Ledger.Executions.{
  Fill, new_execution, settle_status, fill_simulated, add_execution, record_valid,
  record_polymarket_execution,
}
use poly_zq_trading.Ledger.Executions.Evolution.{Evolves}
use poly_zq_trading.Ledger.Executions.Recorded.{record_polymarket_execution-Evolves}
use poly_zq_trading.Ledger.Verification.{
  Snapshot, recorded_shares, known_trades, is_verified, is_stale, check_order, verify_matched,
  verify_polymarket_order,
}
use poly_zq_trading.Ledger.Verification.Evidence.{IsProved, verify_polymarket_order-IsProved}
use poly_zq_trading.Ledger.Receipts.{
  save_venue_receipt, finish_venue_receipt, pending_venue_receipts, hedge_safety_differences,
  is_empty,
}
use poly_zq_trading.Ledger.Safety.{
  IsSettled, hedge_safety_differences-IsSettled, save_venue_receipt-finish_venue_receipt,
}

abbrev tables_of : Result (Tables × Bool) → Tables → Tables
tables_of (ok (t, _)) old = t
tables_of (err _) old = old

abbrev cancelled_batch : Batch
cancelled_batch = record {
  batch_id = 1;
  state = BatchState.cancel_pending;
  zq_quantity = 10;
  filled_quantity = 0;
  zq_order_id = some 2;
  zq_order_status = some OrderState.cancelled;
  contract_month = some 202611;
  limit_price = some 96;
  remaining_quantity = 10;
  entry_snapshot_id = some 1;
  hedge_ratios = none;
  hedge_sizing_method = none;
  last_exec_id = none;
  abort_reason = none;
  cancel_reason = some 4;
  residual_minimum_net_profit = none;
  residual_required_profit = none;
  residual_return_on_capital_bps = none;
  reported_filled_quantity = some 0;
}

abbrev open_batch : Batch
open_batch = record cancelled_batch {
  state = BatchState.poly_hedge_pending;
  filled_quantity = 2;
  zq_order_status = some OrderState.filled;
  cancel_reason = none;
  reported_filled_quantity = some 2;
}

abbrev leg : Obligation
leg = record {
  obligation_id = 7;
  batch_id = 1;
  exec_id = 3;
  token_id = 6;
  due_shares = 40;
  confirmed_shares = 0;
  state = ObligationState.pending;
  actual_confirmed_shares = 0;
  pending_shares = 0;
  excess_shares = 0;
  order_attempts = [];
  latest_order_id = none;
  latest_idempotency_key = none;
  latest_limit_price = none;
  reprice_count = 0;
}

abbrev before : Tables
before = record {
  simulate_polymarket_fills = false;
  orders = [];
  executions = [];
  obligations = leg ∷ [];
  batches = open_batch ∷ [];
}

abbrev request : Intent
request = record {
  obligation_id = 7;
  idempotency_key = 11;
  shares = pos 40;
  limit_price = 3;
  attempt = 1;
  signed_payload = some 9;
  order_id = some (venue_id 5);
}

abbrev second_request : Intent
second_request = record request { idempotency_key = 12; order_id = some (venue_id 8) }

abbrev reserved : Tables
unfolding create_hedge_order_intent has_unresolved reserve_order is_fresh_row new_order reserve
    write
reserved = tables_of (create_hedge_order_intent request before) before

granted : create_hedge_order_intent request before ≡ ok (reserved, true)
unfolding create_hedge_order_intent has_unresolved reserve_order is_fresh_row new_order reserve
    write
granted = refl

create_hedge_order_intent-IsGranted_example : IsGranted request before reserved
create_hedge_order_intent-IsGranted_example =
    create_hedge_order_intent-IsGranted request before reserved granted

create_hedge_order_intent-exclusive_example :
    create_hedge_order_intent second_request reserved ≢ ok (reserved, true)
create_hedge_order_intent-exclusive_example =
    create_hedge_order_intent-exclusive request second_request before reserved reserved granted refl

abbrev fill : Fill
fill = record {
  execution_id = 21;
  order_id = venue_id 5;
  quantity = finite (pos 40);
  price = finite (pos 3);
  executed_at = 100;
  trade_id = some 31;
  simulated = false;
  status = TradeStatus.confirmed;
}

abbrev hedged_tables : Tables
unfolding create_hedge_order_intent has_unresolved reserve_order is_fresh_row new_order reserve
    write record_polymarket_execution record_valid add_execution new_execution settle_status
    fill_simulated refresh_hedge refresh_with reopen_orders reopen recorded_under settle
    refresh_obligation obligation_state order_resolved refresh_batch_state refresh_batch is_hedged
hedged_tables = tables_of (record_polymarket_execution fill reserved) reserved

record_polymarket_execution-Evolves_example : Evolves reserved.executions hedged_tables.executions
unfolding hedged_tables reserved create_hedge_order_intent has_unresolved reserve_order is_fresh_row
    new_order reserve write record_polymarket_execution record_valid add_execution new_execution
    settle_status fill_simulated refresh_hedge refresh_with reopen_orders reopen recorded_under
    settle refresh_obligation obligation_state order_resolved refresh_batch_state refresh_batch
    is_hedged
record_polymarket_execution-Evolves_example =
    record_polymarket_execution-Evolves fill reserved hedged_tables true refl

refresh_hedge-IsRefreshed_example :
    (t : Tables) × (refresh_hedge 7 reserved ≡ ok t) × IsRefreshed 7 t
unfolding reserved create_hedge_order_intent has_unresolved reserve_order is_fresh_row new_order
    reserve write
refresh_hedge-IsRefreshed_example = refresh_hedge-IsRefreshed 7 reserved (reserve request leg) refl

abbrev last_word : Snapshot
last_word = record {
  status = OrderState.matched;
  size_matched = some (finite (pos 40));
  associate_trades = 31 ∷ [];
}

abbrev final_tables : Tables
unfolding verify_polymarket_order
final_tables =
    tables_of (verify_polymarket_order (venue_id 5) last_word 200 hedged_tables) hedged_tables

verify_polymarket_order-IsProved_example :
    (matched : ℕ) × (last_word.size_matched ≡ some (finite (pos matched)))
    × IsProved last_word matched (venue_id 5) hedged_tables final_tables
unfolding final_tables hedged_tables reserved create_hedge_order_intent has_unresolved reserve_order
    is_fresh_row new_order reserve write record_polymarket_execution record_valid add_execution
    new_execution settle_status fill_simulated refresh_hedge refresh_with reopen_orders reopen
    recorded_under settle refresh_obligation obligation_state order_resolved refresh_batch_state
    refresh_batch is_hedged verify_polymarket_order verify_matched is_verified is_stale
    recorded_shares known_trades check_order
verify_polymarket_order-IsProved_example =
    verify_polymarket_order-IsProved (venue_id 5) last_word 200 hedged_tables final_tables refl

refresh_batch-complete_example :
    ((refresh_batch [] [] cancelled_batch).state ≡ BatchState.complete)
    ↔ IsFinished [] [] cancelled_batch
refresh_batch-complete_example = refresh_batch-complete [] [] cancelled_batch (ground arith)

hedge_safety_differences-IsSettled_example :
    (is_empty (hedge_safety_differences before []) ≡ true) ↔ IsSettled before []
hedge_safety_differences-IsSettled_example = hedge_safety_differences-IsSettled before []

abbrev twice : ℕ → ℕ
twice n = n * 2

save_venue_receipt-finish_venue_receipt_example :
    (pending_venue_receipts polymarket (save_venue_receipt twice polymarket 17 []).1
      ≡ pending_venue_receipts polymarket [] ++ (17 ∷ []))
    × (pending_venue_receipts polymarket (
          finish_venue_receipt polymarket
            (save_venue_receipt twice polymarket 17 []).0
            (save_venue_receipt twice polymarket 17 []).1)
        ≡ pending_venue_receipts polymarket [])
save_venue_receipt-finish_venue_receipt_example =
    save_venue_receipt-finish_venue_receipt twice polymarket 17 [] refl
