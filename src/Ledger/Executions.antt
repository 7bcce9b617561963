-- ===== src/Ledger/Executions.antt =====
-- `record_polymarket_execution`: the fills that the venue reports, each with its settlement.
pub mod Evolution
pub mod Recorded
use poly_zq_trading.Prelude.{
  ℕ, List, [], ◌∷◌, ◌++◌, Option, none, some, Bool, true, false, ◌&&◌, ◌||◌, not, find, ltb, ◌==◌,
  if◌then◌else◌,
}
use poly_zq_trading.Prelude.Int.{ℤ, pos, negsuc}
use poly_zq_trading.Ledger.Types.{
  polymarket, OrderId, OrderState, TradeStatus, Order, Execution, Tables, Result, ok, err, Number,
  finite, not_finite, invalid_quantity, wrong_provenance, conflicting_payload,
}
use poly_zq_trading.Ledger.Queries.{
  same_id, is_polymarket, same_status, trade_rank, find_polymarket_order, write,
}
use poly_zq_trading.Ledger.Intents.{refresh_named, same_flag}

-- A fill as it comes in, its status normalised.
pub record Fill : Type 0 where
  pub execution_id : ℕ
  pub order_id : OrderId
  pub quantity : Number
  pub price : Number
  pub executed_at : ℕ
  pub trade_id : Option ℕ
  pub simulated : Bool
  pub status : TradeStatus

abbrev pub positive : Number → Option ℕ
positive (finite (pos n)) = if ltb 0 n then some n else none
positive _ = none

abbrev pub not_negative : Number → Option ℕ
not_negative (finite (pos n)) = some n
not_negative _ = none

abbrev pub status_of : Fill → TradeStatus
status_of f = if f.simulated then TradeStatus.confirmed else f.status

abbrev pub find_execution : ℕ → List Execution → Option Execution
find_execution id = find (λ e. is_polymarket e.venue && (e.execution_id == id))

-- A settled fill that is now reported as failed, or the other way round.
abbrev pub contradicts : TradeStatus → TradeStatus → Bool
contradicts TradeStatus.confirmed TradeStatus.failed = true
contradicts TradeStatus.failed TradeStatus.confirmed = true
contradicts _ _ = false

abbrev pub is_conflict : TradeStatus → Bool
is_conflict TradeStatus.conflict = true
is_conflict _ = false

abbrev is_failed : TradeStatus → Bool
is_failed TradeStatus.failed = true
is_failed _ = false

abbrev or_else : Option ℕ → Option ℕ → Option ℕ
or_else (some n) _ = some n
or_else none old = old

unfoldable pub new_execution : Fill → ℕ → ℕ → Order → Execution
new_execution f quantity price o = record {
  batch_id = o.batch_id;
  venue = polymarket;
  execution_id = f.execution_id;
  venue_order_id = f.order_id;
  quantity = quantity;
  price = price;
  executed_at = f.executed_at;
  status = TradeStatus.unknown;
  terminal_failed = false;
  conflicting_status = none;
  simulated = false;
  token_id = o.token_id;
  trade_id = none;
  allocated_shares = 0;
}

-- The details of the fill merged into the row.
unfoldable pub settle_status : Fill → Order → Execution → Execution
settle_status f o e = record e {
  status = status_of f;
  terminal_failed = is_failed (status_of f);
  simulated = f.simulated;
  token_id = o.token_id;
  trade_id = or_else f.trade_id e.trade_id;
}

unfoldable pub mark_conflict : Fill → Execution → Execution
mark_conflict f e = record e {
  status = TradeStatus.conflict;
  terminal_failed = false;
  conflicting_status = some (status_of f);
}

-- A simulated fill fills its order.
unfoldable pub fill_simulated : Fill → Order → List Order → List Order
fill_simulated f o orders =
    if f.simulated
    then write (λ p. is_polymarket p.venue && same_id p.venue_order_id f.order_id)
        (record o { state = OrderState.filled; terminal_verified = true }) orders
    else orders

abbrev pub confirm : Result Tables → Result (Tables × Bool)
confirm (ok t) = ok (t, true)
confirm (err e) = err e

abbrev pub is_row : ℕ → Execution → Bool
is_row id e = is_polymarket e.venue && (e.execution_id == id)

unfoldable pub add_execution : Fill → ℕ → ℕ → Order → Tables → Result (Tables × Bool)
add_execution f quantity price o t = confirm (
    refresh_named o.obligation_id (record t {
      executions = t.executions ++ (settle_status f o (new_execution f quantity price o) ∷ []);
      orders = fill_simulated f o t.orders;
    }))

-- A known execution: the same payload can only move its status on, or into conflict.
unfoldable pub update_execution : Fill → ℕ → ℕ → Order → Execution → Tables → Result (Tables × Bool)
update_execution f quantity price o e t =
    if not (same_id e.venue_order_id f.order_id && (e.quantity == quantity) && (e.price == price))
    then err conflicting_payload
    else if is_conflict e.status || contradicts e.status (status_of f)
    then confirm (
        refresh_named o.obligation_id (record t {
          executions = write (is_row f.execution_id) (mark_conflict f e) t.executions;
        }))
    else if same_status e.status (status_of f)
        || ltb (trade_rank (status_of f)) (trade_rank e.status)
    then ok (t, true)
    else confirm (
        refresh_named o.obligation_id (record t {
          executions = write (is_row f.execution_id) (settle_status f o e) t.executions;
          orders = fill_simulated f o t.orders;
        }))

unfoldable pub record_valid : Fill → ℕ → ℕ → Tables → Result (Tables × Bool)
record_valid f quantity price t =
    if not (same_flag f.simulated t.simulate_polymarket_fills)
    then err wrong_provenance
    else elim (find_polymarket_order f.order_id t.orders) [
      | none ↦ ok (t, false)
      | some o ↦ elim (find_execution f.execution_id t.executions) [
        | none ↦ add_execution f quantity price o t
        | some e ↦ update_execution f quantity price o e t
      ]
    ]

abbrev pub record_numbers : Option ℕ → Option ℕ → Fill → Tables → Result (Tables × Bool)
record_numbers (some quantity) (some price) f t = record_valid f quantity price t
record_numbers _ _ f t = err invalid_quantity

unfoldable pub record_polymarket_execution : Fill → Tables → Result (Tables × Bool)
record_polymarket_execution f t = record_numbers (positive f.quantity) (not_negative f.price) f t
