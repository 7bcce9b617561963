-- ===== src/Execution/Fills.antt =====
-- The executions, the completed orders and the positions that `handle_ibkr_event` receives.
use poly_zq_trading.Prelude.{
  ◌%◌, ℕ, List, Option, none, some, Bool, ◌&&◌, ◌||◌, not, find, filter, ◌∷◌, ◌++◌, ◌==◌,
  if◌then◌else◌,
}
use poly_zq_trading.Prelude.Int.{abs, ℤ, pos}
use poly_zq_trading.Analytics.Units.{one_share}
use poly_zq_trading.Execution.Safety.{publish}
use poly_zq_trading.Ledger.Types.{ibkr, OrderState, Order, Obligation, Tables, Result, ok, err}
use poly_zq_trading.Ledger.Queries.{equals_some}
use poly_zq_trading.Ledger.Receipts.{save_venue_receipt, finish_venue_receipt}
use poly_zq_trading.Repository.Entry.{is_ibkr}
use poly_zq_trading.Repository.Fills.{ZqFill, find_zq_order, record_ibkr_execution_and_obligations}
use poly_zq_trading.Repository.Status.{is_final, update_zq_order_status}
use poly_zq_trading.Execution.Differences.{is_set}
use poly_zq_trading.Execution.Callbacks.{observed_zq_position, number_of}
use poly_zq_trading.Execution.Account.{discard}
use poly_zq_trading.Execution.Reports.{
  IbkrPayload, EventSettings, EventKeys, EventState, EventOutcome, handled, failed, update_ibkr,
  update_tables, update_events, or_absent, is_month, is_zq, is_future, ibkr_own_client,
  ibkr_identity_valid,
}

-- The order that a completed order is, by its permanent id or by its order id and reference.
abbrev pub is_completed : EventSettings → IbkrPayload → Order → Bool
is_completed s p o =
    is_ibkr o.venue
    && ((not (p.permanent_id == 0) && equals_some o.permanent_id p.permanent_id)
        || (ibkr_own_client s p
            && (equals_some p.order_id (number_of o.venue_order_id)
                && equals_some p.order_ref o.batch_id)))

abbrev pub final_status : Option OrderState → Option OrderState
final_status none = none
final_status (some status) = if is_final status then some status else none

unfoldable pub complete_order : IbkrPayload → OrderState → ℕ → EventState → EventState
complete_order p status id e =
    let (tables, effective) =
      update_zq_order_status
        (record {
          order_id = id;
          status = status;
          filled = p.filled;
          remaining = some (pos 0);
          permanent_id = or_absent p.permanent_id;
        })
        e.store.tables in
    update_ibkr
      (λ a. record a {
        open_order_ids = discard id a.open_order_ids;
        terminal_conflicts = discard id a.terminal_conflicts;
      })
      (update_tables tables e)

-- `_handle_ibkr_completed_order`
unfoldable pub handle_ibkr_completed_order : EventSettings → IbkrPayload → EventState → EventState
handle_ibkr_completed_order s p e = elim (find (is_completed s p) e.store.tables.orders) [
  | none ↦ e
  | some o ↦ elim (final_status p.status) [
    | none ↦ e
    | some status ↦ complete_order p status (number_of o.venue_order_id) e
  ]
]

abbrev pub put_position : ℕ → ℤ → List (ℕ × ℤ) → List (ℕ × ℤ)
put_position key n ps = (key, n) ∷ filter (λ p. not (p.0 == key)) ps

abbrev pub put_callback : ℕ → ℤ → Option (List (ℕ × ℤ)) → Option (List (ℕ × ℤ))
put_callback key n none = none
put_callback key n (some ps) = some (put_position key n ps)

unfoldable pub is_strategy_contract : EventSettings → IbkrPayload → Bool
is_strategy_contract s p =
    is_zq p.symbol
    && is_future p.security_type
    && is_month s.reconcile.ibkr_zq_contract_month p.contract_month

-- `_handle_ibkr_position`, which raises where the quantity is no number.
unfoldable pub handle_ibkr_position : EventSettings → IbkrPayload → EventState → EventOutcome
handle_ibkr_position s p e = if not (is_strategy_contract s p) then handled e else elim p.position [
  | none ↦ failed e
  | some n ↦ handled (
      update_ibkr
        (λ a. record a {
          positions = put_position p.position_key n a.positions;
          callback_positions = put_callback p.position_key n a.callback_positions;
        })
        e)
]

-- `StateStore.set_zq_position`, which raises on a fraction of a contract.
unfoldable pub set_zq_position : EventState → EventOutcome
set_zq_position e =
    if abs (observed_zq_position e.own.ibkr) % one_share == 0
    then handled (record e {
      own =
          publish (record e.own.published { zq_position = observed_zq_position e.own.ibkr }) e.own;
    })
    else failed e

abbrev pub show_position : EventState → EventOutcome
show_position e = if e.own.ibkr.complete.positions then set_zq_position e else handled e

abbrev pub then_handled : (EventState → EventState) → EventOutcome → EventOutcome
then_handled f (handled e) = handled (f e)
then_handled f (failed e) = failed e

abbrev pub and_then : (EventState → EventOutcome) → EventOutcome → EventOutcome
and_then f (handled e) = f e
and_then f (failed e) = failed e

-- The fill of an execution whose identity and quantities are all given.
unfoldable pub fill_of : EventKeys → IbkrPayload → Option ZqFill
fill_of k p = elim p.execution_id [
  | none ↦ none
  | some execution_id ↦ elim p.shares [
    | none ↦ none
    | some quantity ↦ elim p.price [
      | none ↦ none
      | some price ↦ elim p.order_id [
        | none ↦ none
        | some order_id ↦ some (record {
          order_id = order_id;
          execution_id = execution_id;
          quantity = quantity;
          price = price;
          executed_at = p.executed_at;
          token_shares = k.legacy_shares quantity;
        })
      ]
    ]
  ]
]

abbrev pub finish_receipt : ℕ → EventState → EventState
finish_receipt key e = update_events (finish_venue_receipt ibkr key e.store.events) e

abbrev pub record_fill : ℕ → Result (Tables × List Obligation) → EventState → EventOutcome
record_fill key (err x) e = failed e
record_fill key (ok (tables, obligations)) e =
    handled
      (finish_receipt key (record (update_tables tables e) { routed = e.routed ++ obligations }))

-- An execution of an order of this client that the ledger knows.
unfoldable pub take_fill :
    EventSettings → EventKeys → IbkrPayload → ℕ → Option ZqFill → EventState → EventOutcome
take_fill s k p key none e = failed e
take_fill s k p key (some f) e =
    if ibkr_own_client s p && is_set (find_zq_order f.order_id e.store.tables.orders)
    then record_fill key (record_ibkr_execution_and_obligations k.obligation f e.store.tables) e
    else handled e

unfoldable pub take_execution :
    EventSettings → EventKeys → IbkrPayload → ℕ → EventState → EventOutcome
take_execution s k p key e =
    if k.is_opening_receipt p.text
    then handled (finish_receipt key e)
    else if not p.is_buy
    then handled e
    else take_fill s k p key (fill_of k p) e

abbrev pub is_elsewhere : EventSettings → IbkrPayload → Bool
is_elsewhere s p =
    is_set p.symbol
    && not (is_zq p.symbol && is_month s.reconcile.ibkr_zq_contract_month p.contract_month)

-- `_handle_ibkr_execution`: the receipt is stored first, and finished only once the execution is
-- in the ledger.
unfoldable pub handle_ibkr_execution :
    EventSettings → EventKeys → IbkrPayload → EventState → EventOutcome
handle_ibkr_execution s k p e =
    if is_elsewhere s p
    then handled e
    else (let (key, events) = save_venue_receipt k.hash ibkr p.text e.store.events in
        let (valid, e') = ibkr_identity_valid s p (update_events events e) in
        if valid then take_execution s k p key e' else handled e')
