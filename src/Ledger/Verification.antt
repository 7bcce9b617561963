-- ===== src/Ledger/Verification.antt =====
-- `verify_polymarket_order`, which releases the reservation of an order.
pub mod Evidence
use poly_zq_trading.Prelude.{
  ℕ, List, [], ◌∷◌, Option, none, some, Bool, true, false, ◌&&◌, not, all, map, filter, contains,
  sum_of, leb, ◌==◌, if◌then◌else◌,
}
use poly_zq_trading.Prelude.Int.{pos, negsuc}
use poly_zq_trading.Ledger.Types.{
  OrderId, OrderState, Order, Execution, Tables, Result, ok, err, Number, finite, not_finite,
  invalid_quantity,
}
use poly_zq_trading.Ledger.Queries.{
  same_id, is_polymarket, is_terminal, order_resolved, find_polymarket_order, write,
}
use poly_zq_trading.Ledger.Intents.{refresh_named}

-- What the venue says of an order, its status normalised.
pub record Snapshot : Type 0 where
  pub status : OrderState
  pub size_matched : Option Number
  pub associate_trades : List ℕ

-- The executions recorded under an order.
abbrev pub is_recorded_under : OrderId → Execution → Bool
is_recorded_under id e = is_polymarket e.venue && same_id e.venue_order_id id

unfoldable pub recorded_shares : OrderId → List Execution → ℕ
recorded_shares id = sum_of (λ e. if is_recorded_under id e then e.quantity else 0)

abbrev pub trade_of : Execution → ℕ
trade_of e = elim e.trade_id [ some n ↦ n | none ↦ e.execution_id ]

unfoldable pub known_trades : OrderId → List Execution → List ℕ
known_trades id es = map trade_of (filter (is_recorded_under id) es)

unfoldable pub is_verified : Snapshot → ℕ → Order → OrderId → List Execution → Bool
is_verified s matched o id es =
    is_terminal s.status
    && (recorded_shares id es == matched)
    && leb matched o.quantity
    && all (λ trade. contains trade (known_trades id es)) s.associate_trades

-- A stale answer cannot reopen a reconciled order.
unfoldable pub is_stale : ℕ → Bool → Order → OrderId → List Execution → Bool
is_stale matched verified o id es =
    order_resolved o
    && not verified
    && leb matched o.venue_matched_shares
    && leb (recorded_shares id es) matched

-- The tables with what the venue says of the order.
unfoldable pub check_order : OrderId → Snapshot → ℕ → Bool → ℕ → Order → Tables → Tables
check_order id s matched verified now o t = record t {
  orders =
      write (λ p. is_polymarket p.venue && same_id p.venue_order_id id)
        (record o {
          state = s.status;
          venue_matched_shares = matched;
          terminal_verified = verified;
          last_order_check = some now;
        })
        t.orders;
}

abbrev pub answer : Bool → Result Tables → Result (Tables × Bool)
answer b (ok t) = ok (t, b)
answer b (err e) = err e

unfoldable pub verify_matched : OrderId → Snapshot → ℕ → ℕ → Tables → Result (Tables × Bool)
verify_matched id s matched now t = elim (find_polymarket_order id t.orders) [
  | none ↦ ok (t, false)
  | some o ↦
      let verified = is_verified s matched o id t.executions in
      if is_stale matched verified o id t.executions
      then ok (t, true)
      else answer verified
          (refresh_named o.obligation_id (check_order id s matched verified now o t))
]

abbrev pub verify_size : Option Number → OrderId → Snapshot → ℕ → Tables → Result (Tables × Bool)
verify_size none id s now t = ok (t, false)
verify_size (some not_finite) id s now t = err invalid_quantity
verify_size (some (finite (negsuc _))) id s now t = err invalid_quantity
verify_size (some (finite (pos matched))) id s now t = verify_matched id s matched now t

unfoldable pub verify_polymarket_order : OrderId → Snapshot → ℕ → Tables → Result (Tables × Bool)
verify_polymarket_order id s now t = verify_size s.size_matched id s now t
