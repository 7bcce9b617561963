-- ===== src/Execution/Trials.antt =====
-- A read of the account, from its start to its end, with a fill report in between.
use poly_zq_trading.Prelude.{
  List, false, none, ◌+◌, ◌*◌, ◌++◌, arith, [], ◌∷◌, some, true, ◌≡◌, refl,
}
use poly_zq_trading.Prelude.Int.{◌+ℤ◌, ◌-ℤ◌, pos}
use poly_zq_trading.Domain.Enums.{BatchState}
use poly_zq_trading.Execution.Confirming.{confirm_reconciliation}
use poly_zq_trading.Execution.Callbacks.{
  total, observed_by_callbacks, same_ℤ, callback_differences, move_anchor, capacity, is_explained,
  candidates, open_gap, start_gap, allowed, settle_gap, month_progress, classify,
  classify_ibkr_callbacks,
}
use poly_zq_trading.Execution.Safety.{
  set_automated_reconciliation, invalidate_reconciliation, pause, fail_maintenance,
  latch_reconciliation_pause, expire, expire_ibkr_gap, finish_ibkr_gap,
}
use poly_zq_trading.Execution.Comparison.{
  first_differences, expected_ibkr, expected_polymarket, observed_position, expected_position,
  position_mismatches, order_differences, final_differences,
}
use poly_zq_trading.Execution.Reconcile.{
  check_timeout, check_early, refuse_ambiguous, is_readable, anchor, report_clean, report_unsafe,
  report_differences, record_result, is_repeat, conclude, compare_ledger, reconcile_ledger_snapshot,
}
use poly_zq_trading.Execution.Restart.{
  expected_maintenance_alert, maintenance_execution_clear, maintenance_recovery_allowed,
}
use poly_zq_trading.Execution.Differences.{has, is_different}
use poly_zq_trading.Ledger.Receipts.{hedge_safety_differences, pending_venue_receipts}
use poly_zq_trading.Repository.Status.{
  unresolved_hedge_obligation_count, ibkr_order_progress, progress_rows, progress_of,
}
use poly_zq_trading.Repository.Positions.{
  strategy_zq_quantity, batch_ids, executed_quantity, initial_quantity,
  strategy_portfolio_positions, aggregate_executions, open_aggregates, add_to_aggregate,
  put_aggregate, aggregate_of, instrument_of, position_of, sort_aggregates, insert_sorted,
}
use poly_zq_trading.Ledger.Queries.{order_resolved, write}
use poly_zq_trading.Execution.Samples.{start, ledger, settings, clocks, around}
use poly_zq_trading.Execution.Account.{
  start_read, begin_ibkr_reconciliation, check_end, observe_conflict, observe_ibkr_order,
  end_positions, complete_read,
}
use poly_zq_trading.Execution.Reports.{
  zq, IbkrPayload, EventSettings, EventKeys, EventState, ibkr_own_client, has_identity_conflict,
  ibkr_identity_valid, report_status, report_own, report_open_order, handle_ibkr_open_order,
}
use poly_zq_trading.Execution.Fills.{set_zq_position, is_strategy_contract, handle_ibkr_position}
use poly_zq_trading.Execution.Events.{
  open_order, position, open_order_end, completed_order_end, execution_end, position_end,
  note_unscoped, ignore_identified, ignore_other_month_foreign_order, end_executions,
  end_open_orders, end_completed_orders, apply_event, attempt_automated_reconciliation,
  compare_again, is_ignored, handle_ibkr_event,
}
use poly_zq_trading.Execution.Reconcile.{Surroundings}
use poly_zq_trading.Ledger.Types.{OrderState}
use poly_zq_trading.Execution.Opened.{IsGuarded}
use poly_zq_trading.Execution.History.{
  confirm, AccountCall, begin_read, receive, call, run_calls, run_calls-IsGuarded,
}
use poly_zq_trading.Repository.Status.{
  update_zq_order_status, apply_report, report_order, report_batch,
}
use poly_zq_trading.Ledger.Refresh.{refresh_batch, is_hedged, refresh_batch_state}

abbrev reading : EventSettings
reading = record { reconcile = settings; ibkr_client_id = 7; ibkr_account = 9 }

abbrev keys : EventKeys
keys = record {
  foreign = λ client order perm. perm;
  obligation = λ batch execution token. batch * 10000 + execution * 100 + token;
  hash = λ n. n;
  is_opening_receipt = λ n. false;
  legacy_shares = λ n. [];
  open_status = OrderState.other 0;
}

abbrev begun_at : EventState
begun_at = record { own = start; store = ledger; routed = [] }

-- The order and the position that the account shows.
abbrev shown : IbkrPayload
shown = record {
  client_id = some 7;
  order_id = some 2;
  permanent_id = 0;
  account_fingerprint = some 9;
  symbol = some zq;
  security_type = some true;
  contract_month = some (record { month = 202611; is_date = true });
  order_ref = some 1;
  status = some OrderState.submitted;
  filled = none;
  remaining = none;
  execution_id = none;
  is_buy = true;
  shares = none;
  price = none;
  executed_at = 100;
  position_key = 1;
  position = some (pos 100000000);
  text = 3;
}

-- The situation, where no other task has changed anything.
abbrev quiet : EventState → Surroundings
quiet e = record around { venue_revision = e.own.venue_revision }

abbrev calls : List AccountCall
calls =
    begin_read clocks (some 1)
    ∷ receive quiet clocks (open_order shown)
    ∷ receive quiet clocks open_order_end
    ∷ receive quiet clocks completed_order_end
    ∷ receive quiet clocks (execution_end (some 1))
    ∷ receive quiet clocks (position shown)
    ∷ confirm (record {
      is_live = false;
      ibkr_connected = true;
      polymarket_connected = true;
      batch_state = BatchState.idle;
    })
    ∷ []

read_test :
    (run_calls reading keys
      (calls ++ (receive quiet clocks position_end ∷ []))
      begun_at).own.published.clean
    ≡ true
unfolding total observed_by_callbacks same_ℤ callback_differences move_anchor capacity is_explained
    candidates open_gap start_gap allowed settle_gap month_progress classify classify_ibkr_callbacks
    set_automated_reconciliation invalidate_reconciliation pause fail_maintenance
    latch_reconciliation_pause expire expire_ibkr_gap finish_ibkr_gap first_differences
    check_timeout check_early refuse_ambiguous is_readable expected_ibkr expected_polymarket
    observed_position expected_position position_mismatches order_differences final_differences
    anchor report_clean report_unsafe report_differences record_result is_repeat conclude
    compare_ledger reconcile_ledger_snapshot expected_maintenance_alert maintenance_execution_clear
    maintenance_recovery_allowed has is_different hedge_safety_differences pending_venue_receipts
    unresolved_hedge_obligation_count ibkr_order_progress progress_rows progress_of
    strategy_zq_quantity batch_ids executed_quantity initial_quantity strategy_portfolio_positions
    aggregate_executions open_aggregates add_to_aggregate put_aggregate aggregate_of instrument_of
    position_of sort_aggregates insert_sorted order_resolved ◌+ℤ◌ ◌-ℤ◌ start_read
    begin_ibkr_reconciliation check_end observe_conflict observe_ibkr_order end_positions
    complete_read ibkr_own_client has_identity_conflict ibkr_identity_valid report_status report_own
    report_open_order handle_ibkr_open_order is_strategy_contract handle_ibkr_position note_unscoped
    ignore_identified ignore_other_month_foreign_order end_executions end_open_orders
    end_completed_orders apply_event set_zq_position attempt_automated_reconciliation compare_again
    is_ignored handle_ibkr_event call run_calls confirm_reconciliation update_zq_order_status
    apply_report report_order report_batch refresh_batch_state refresh_batch is_hedged write
read_test = refl

start-IsGuarded : IsGuarded start
start-IsGuarded = record {
  opened = record {
    not_ahead = refl;
    is_new = ground arith;
    is_started = refl;
    no_snapshot = ground arith;
  };
  blocked = λ busy clean. absurd (ground arith);
}

run_calls-IsGuarded_example : IsGuarded (run_calls reading keys calls begun_at).own
run_calls-IsGuarded_example = run_calls-IsGuarded reading keys calls begun_at start-IsGuarded
