-- ===== src/Execution/Examples.antt =====
-- A clean reconciliation, a fill that the callbacks bring late, an unknown order, and a hedge.
use poly_zq_trading.Prelude.{inr, arith, ℕ, [], ◌∷◌, some, true, ◌≡◌, ◌↔◌, refl, map}
use poly_zq_trading.Prelude.Int.{◌+ℤ◌, ◌-ℤ◌, pos}
use poly_zq_trading.Execution.Callbacks.{
  total, observed_by_callbacks, same_ℤ, callback_differences, move_anchor, capacity, is_explained,
  candidates, open_gap, start_gap, allowed, settle_gap, month_progress, classify,
  classify_ibkr_callbacks,
}
use poly_zq_trading.Execution.Safety.{
  set_automated_reconciliation, invalidate_reconciliation, pause, fail_maintenance,
  latch_reconciliation_pause, expire, expire_ibkr_gap, finish_ibkr_gap,
}
use poly_zq_trading.Execution.Comparison.{
  first_differences, expected_ibkr, expected_polymarket, observed_position, expected_position,
  position_mismatches, order_differences, final_differences,
}
use poly_zq_trading.Execution.Reconcile.{
  check_timeout, check_early, refuse_ambiguous, is_readable, anchor, report_clean, report_unsafe,
  report_differences, record_result, is_repeat, conclude, compare_ledger, reconcile_ledger_snapshot,
}
use poly_zq_trading.Execution.Restart.{
  expected_maintenance_alert, maintenance_execution_clear, maintenance_recovery_allowed,
}
use poly_zq_trading.Execution.Differences.{
  has, is_different, zq_position_mismatch, polymarket_position_mismatch,
}
use poly_zq_trading.Ledger.Receipts.{hedge_safety_differences, pending_venue_receipts}
use poly_zq_trading.Repository.Status.{
  unresolved_hedge_obligation_count, ibkr_order_progress, progress_rows, progress_of,
}
use poly_zq_trading.Repository.Positions.{
  strategy_zq_quantity, batch_ids, executed_quantity, initial_quantity,
  strategy_portfolio_positions, aggregate_executions, open_aggregates, add_to_aggregate,
  put_aggregate, aggregate_of, instrument_of, position_of, sort_aggregates, insert_sorted,
}
use poly_zq_trading.Ledger.Queries.{order_resolved, write}
use poly_zq_trading.Execution.Posting.{
  invalidate_polymarket_reconciliation, hedge_submission_ready, prepare_hedge_limit, after_session,
  after_answer, record_match, after_post, meanwhile_at, send, post_prepared, round_of,
}
use poly_zq_trading.Execution.Routing.{
  set_default, go_on, verify_final, cancel_stale, check_resting, after_lookup, follow_order,
  follow_orders,
}
use poly_zq_trading.Execution.Placing.{
  send_created, create_and_send, recheck, with_new_book, with_prepared, alert_reprices, with_price,
  with_plan, with_ask, with_book, place_hedge, place_found, route_one_hedge,
}
use poly_zq_trading.Book.Plan.{
  plan_hedge_entry, entry_levels, entry_ceiling, is_entry_level, marketable_limit_price,
}
use poly_zq_trading.Book.Walk.{
  walk_asks, walk, consume, sort_levels, insert_level, depth_cost, push_fill,
}
use poly_zq_trading.Book.Types.{best_ask_of, best_bid_of}
use poly_zq_trading.Ledger.Intents.{
  create_hedge_order_intent, has_unresolved, reserve_order, is_fresh_row, new_order, reserve,
  set_hedge_submission_state, accept_hedge_order, is_free_id, acknowledge,
}
use poly_zq_trading.Ledger.Refresh.{refresh_hedge}
use poly_zq_trading.Execution.Types.{Coordinator}
use poly_zq_trading.Execution.Agreement.{Agrees}
use poly_zq_trading.Execution.Reconciled.{IsFresh, reconcile_ledger_snapshot-clean}
use poly_zq_trading.Execution.Grace.{IsExcused, classify_ibkr_callbacks-IsExcused}
use poly_zq_trading.Execution.Faults.{IsPaused, reconcile_ledger_snapshot-IsPaused}
use poly_zq_trading.Execution.Samples.{
  start, ledger, settings, clocks, around, hedging, venue, round,
}

clean_test : (reconcile_ledger_snapshot around settings clocks ledger start).published.clean ≡ true
unfolding total observed_by_callbacks same_ℤ callback_differences move_anchor capacity is_explained
    candidates open_gap start_gap allowed settle_gap month_progress classify classify_ibkr_callbacks
    set_automated_reconciliation invalidate_reconciliation pause fail_maintenance
    latch_reconciliation_pause expire expire_ibkr_gap finish_ibkr_gap first_differences
    check_timeout check_early refuse_ambiguous is_readable expected_ibkr expected_polymarket
    observed_position expected_position position_mismatches order_differences final_differences
    anchor report_clean report_unsafe report_differences record_result is_repeat conclude
    compare_ledger reconcile_ledger_snapshot expected_maintenance_alert maintenance_execution_clear
    maintenance_recovery_allowed has is_different hedge_safety_differences pending_venue_receipts
    unresolved_hedge_obligation_count ibkr_order_progress progress_rows progress_of
    strategy_zq_quantity batch_ids executed_quantity initial_quantity strategy_portfolio_positions
    aggregate_executions open_aggregates add_to_aggregate put_aggregate aggregate_of instrument_of
    position_of sort_aggregates insert_sorted order_resolved ◌+ℤ◌ ◌-ℤ◌
clean_test = refl

reconcile_ledger_snapshot-clean_example :
    ((reconcile_ledger_snapshot around settings clocks ledger start).published.clean ≡ true) ↔ (
      IsFresh settings clocks start
      × (around.venue_revision ≡ start.venue_revision)
      × Agrees settings ledger start)
reconcile_ledger_snapshot-clean_example =
    reconcile_ledger_snapshot-clean around settings clocks ledger start

-- The second contract shows in the position before its execution is known.
abbrev late : Coordinator
late = record start {
  ibkr = record start.ibkr { positions = (1, pos 200000000) ∷ []; matched_zq = some 100000000 };
}

excused_lem :
    (classify_ibkr_callbacks settings clocks ledger
        (first_differences ledger late.ibkr)
        late).transient
      zq_position_mismatch
    ≡ true
unfolding total observed_by_callbacks same_ℤ callback_differences move_anchor capacity is_explained
    candidates open_gap start_gap allowed settle_gap month_progress classify classify_ibkr_callbacks
    set_automated_reconciliation invalidate_reconciliation pause fail_maintenance
    latch_reconciliation_pause expire expire_ibkr_gap finish_ibkr_gap first_differences
    check_timeout check_early refuse_ambiguous is_readable expected_ibkr expected_polymarket
    observed_position expected_position position_mismatches order_differences final_differences
    anchor report_clean report_unsafe report_differences record_result is_repeat conclude
    compare_ledger reconcile_ledger_snapshot expected_maintenance_alert maintenance_execution_clear
    maintenance_recovery_allowed has is_different hedge_safety_differences pending_venue_receipts
    unresolved_hedge_obligation_count ibkr_order_progress progress_rows progress_of
    strategy_zq_quantity batch_ids executed_quantity initial_quantity strategy_portfolio_positions
    aggregate_executions open_aggregates add_to_aggregate put_aggregate aggregate_of instrument_of
    position_of sort_aggregates insert_sorted order_resolved ◌+ℤ◌ ◌-ℤ◌
excused_lem = refl

classify_ibkr_callbacks-IsExcused_example :
    IsExcused settings clocks late
      (classify_ibkr_callbacks settings clocks ledger
        (first_differences ledger late.ibkr)
        late).after
classify_ibkr_callbacks-IsExcused_example =
    classify_ibkr_callbacks-IsExcused settings clocks ledger (first_differences ledger late.ibkr)
      late zq_position_mismatch (λ h. absurd (ground arith)) excused_lem

-- The venue holds shares that the ledger does not know.
abbrev stranger : Coordinator
stranger = record start {
  polymarket = record start.polymarket { positions = (5, pos 700000000) ∷ [] };
}

reconcile_ledger_snapshot-IsPaused_example :
    IsPaused (reconcile_ledger_snapshot around settings clocks ledger stranger)
unfolding total observed_by_callbacks same_ℤ callback_differences move_anchor capacity is_explained
    candidates open_gap start_gap allowed settle_gap month_progress classify classify_ibkr_callbacks
    set_automated_reconciliation invalidate_reconciliation pause fail_maintenance
    latch_reconciliation_pause expire expire_ibkr_gap finish_ibkr_gap first_differences
    check_timeout check_early refuse_ambiguous is_readable expected_ibkr expected_polymarket
    observed_position expected_position position_mismatches order_differences final_differences
    anchor report_clean report_unsafe report_differences record_result is_repeat conclude
    compare_ledger reconcile_ledger_snapshot expected_maintenance_alert maintenance_execution_clear
    maintenance_recovery_allowed has is_different hedge_safety_differences pending_venue_receipts
    unresolved_hedge_obligation_count ibkr_order_progress progress_rows progress_of
    strategy_zq_quantity batch_ids executed_quantity initial_quantity strategy_portfolio_positions
    aggregate_executions open_aggregates add_to_aggregate put_aggregate aggregate_of instrument_of
    position_of sort_aggregates insert_sorted order_resolved ◌+ℤ◌ ◌-ℤ◌
reconcile_ledger_snapshot-IsPaused_example =
    reconcile_ledger_snapshot-IsPaused around settings clocks ledger stranger
      polymarket_position_mismatch refl
      (inr (record { told = refl; readable = refl; unmoved = refl; is_new = refl }, refl, refl))

sent_test :
    map {B = ℕ × ℕ}
      (λ x. (x.order.shares, x.order.limit_price))
      (round_of (route_one_hedge hedging venue 7 round)).posts
    ≡ (4000, 3000000000) ∷ []
unfolding invalidate_polymarket_reconciliation hedge_submission_ready prepare_hedge_limit
    after_session after_answer record_match after_post meanwhile_at send post_prepared set_default
    go_on verify_final cancel_stale check_resting after_lookup follow_order follow_orders
    send_created create_and_send recheck with_new_book with_prepared alert_reprices with_price
    with_plan with_ask with_book place_hedge place_found route_one_hedge plan_hedge_entry
    entry_levels entry_ceiling is_entry_level marketable_limit_price walk_asks walk consume
    sort_levels insert_level depth_cost push_fill best_ask_of best_bid_of create_hedge_order_intent
    has_unresolved reserve_order is_fresh_row new_order reserve write set_hedge_submission_state
    accept_hedge_order is_free_id acknowledge refresh_hedge order_resolved
sent_test = refl
