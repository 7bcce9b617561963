-- ===== src/Ledger/Refresh.antt =====
-- `_refresh_hedge` and `_refresh_batch_state`: what the orders and executions of an obligation
-- mean for it, its orders, and its batch.
pub mod Settling
pub mod Accounted
pub mod Completion
use poly_zq_trading.Prelude.{
  ℕ, ◌+◌, ◌-◌, List, [], ◌∷◌, Option, none, some, Bool, true, false, ◌&&◌, ◌||◌, not, any, all,
  filter, map, sum_of, min, ltb, leb, ◌==◌, if◌then◌else◌,
}
use poly_zq_trading.Domain.Enums.{
  cancel_pending, poly_hedge_pending, partially_hedged, hedged, complete,
}
use poly_zq_trading.Ledger.Types.{
  OrderId, TradeStatus, OrderState, ObligationState, Order, Execution, Obligation, Batch, Tables,
  Result, ok, err, missing_obligation,
}
use poly_zq_trading.Ledger.Queries.{
  is_polymarket, same_id, order_resolved, is_order_of, orders_of, is_execution_of, find_obligation,
  find_batch, write,
}

abbrev pub is_confirmed : TradeStatus → Bool
is_confirmed TradeStatus.confirmed = true
is_confirmed _ = false

-- Neither credited nor given up: every status but CONFIRMED and FAILED.
abbrev pub is_pending : TradeStatus → Bool
is_pending TradeStatus.confirmed = false
is_pending TradeStatus.failed = false
is_pending _ = true

-- The quantity recorded under an order's id, among the executions of the obligation.
unfoldable pub recorded_under : OrderId → List OrderId → List Execution → ℕ
recorded_under id ids =
    sum_of (λ e. if is_execution_of ids e && same_id e.venue_order_id id then e.quantity else 0)

-- A resolved real order of the obligation with more recorded than the venue matched is
-- unresolved again.
unfoldable pub reopen : Obligation → List OrderId → List Execution → Order → Order
reopen ob ids es o = record o {
  terminal_verified =
      if is_order_of ob o
        && order_resolved o
        && not o.simulated
        && ltb o.venue_matched_shares (recorded_under o.venue_order_id ids es)
      then false
      else o.terminal_verified;
}

unfoldable pub reopen_orders : Obligation → List OrderId → List Execution → List Order → List Order
reopen_orders ob ids es = map (reopen ob ids es)

-- The loop over the executions, with the confirmed and the pending quantity so far.
unfoldable pub settle : ℕ → List OrderId → ℕ → ℕ → List Execution → List Execution × ℕ × ℕ
settle due ids confirmed pending [] = ([], confirmed, pending)
settle due ids confirmed pending (e ∷ es) =
    let mine = is_execution_of ids e in
    let credit = mine && is_confirmed e.status in
    let hold = mine && is_pending e.status in
    let (rest, total, held) =
      settle due ids (if credit then confirmed + e.quantity else confirmed)
        (if hold then pending + e.quantity else pending) es in
    (
      (record e {
        allocated_shares =
            if mine
            then (if credit then min e.quantity (due - confirmed) else 0)
            else e.allocated_shares;
      })
          ∷ rest,
      total,
      held,
    )

unfoldable pub obligation_state : ℕ → ℕ → ℕ → Bool → ObligationState
obligation_state due confirmed pending unresolved =
    if ltb due (confirmed + pending)
    then ObligationState.excess
    else if unresolved
    then ObligationState.order_unresolved
    else if leb due confirmed
    then ObligationState.hedged
    else if ltb 0 pending
    then ObligationState.settlement_pending
    else ObligationState.pending

abbrev pub last_id : List OrderId → Option OrderId
last_id [] = none
last_id (i ∷ []) = some i
last_id (i ∷ j ∷ is) = last_id (j ∷ is)

unfoldable pub refresh_obligation : List OrderId → ℕ → ℕ → Bool → Obligation → Obligation
refresh_obligation ids confirmed pending unresolved ob = record ob {
  confirmed_shares = min confirmed ob.due_shares;
  actual_confirmed_shares = confirmed;
  pending_shares = pending;
  excess_shares = confirmed + pending - ob.due_shares;
  order_attempts = ids;
  latest_order_id = last_id ids;
  state = obligation_state ob.due_shares confirmed pending unresolved;
}

-- The obligations of a batch are all met, with nothing in excess or unsettled.
unfoldable pub is_hedged : List Obligation → Bool
is_hedged [] = false
is_hedged obs =
    all
      (λ ob.
        leb ob.due_shares ob.confirmed_shares
        && (ob.excess_shares == 0)
        && (ob.pending_shares == 0))
      obs

abbrev pub is_terminal_zq : Option OrderState → Bool
is_terminal_zq (some OrderState.filled) = true
is_terminal_zq (some OrderState.cancelled) = true
is_terminal_zq (some OrderState.canceled) = true
is_terminal_zq (some OrderState.api_cancelled) = true
is_terminal_zq (some OrderState.inactive) = true
is_terminal_zq _ = false

abbrev pub is_given : Option ℕ → Bool
is_given none = false
is_given (some _) = true

abbrev pub is_caught_up : Option ℕ → ℕ → Bool
is_caught_up none filled = false
is_caught_up (some reported) filled = leb reported filled

abbrev pub has_no_fill : Option ℕ → ℕ → Bool
has_no_fill none filled = false
has_no_fill (some reported) filled = (reported == 0) && (filled == 0)

unfoldable pub refresh_batch : List Obligation → List Order → Batch → Batch
refresh_batch obs orders b =
    let met = is_hedged obs in
    if is_terminal_zq b.zq_order_status
      && is_caught_up b.reported_filled_quantity b.filled_quantity
      && (has_no_fill b.reported_filled_quantity b.filled_quantity || met)
      && all order_resolved orders
    then record b { state = complete; remaining_quantity = 0 }
    else if is_given b.cancel_reason
    then record b { state = cancel_pending }
    else if met
    then record b { state = hedged }
    else if any (λ ob. ltb 0 ob.confirmed_shares) obs
    then record b { state = partially_hedged }
    else elim obs [ [] ↦ b | _ ∷ _ ↦ record b { state = poly_hedge_pending } ]

-- `_refresh_batch_state`; a batch that is missing is passed over.
unfoldable pub refresh_batch_state : ℕ → Tables → Tables
refresh_batch_state id t =
    let obs = filter (λ ob. ob.batch_id == id) t.obligations in
    let orders = filter (λ o. (o.batch_id == id) && is_polymarket o.venue) t.orders in
    elim (find_batch id t.batches) [
      | none ↦ t
      | some b ↦ record t {
        batches = write (λ c. c.batch_id == id) (refresh_batch obs orders b) t.batches;
      }
    ]

-- The tables with an obligation's orders and executions brought in line.
unfoldable pub refresh_with : Obligation → Tables → Tables
refresh_with ob t =
    let ids = map (λ o. o.venue_order_id) (orders_of ob t.orders) in
    let orders = reopen_orders ob ids t.executions t.orders in
    let (executions, confirmed, pending) = settle ob.due_shares ids 0 0 t.executions in
    let unresolved = any (λ o. not (order_resolved o)) (orders_of ob orders) in
    refresh_batch_state ob.batch_id (record t {
      orders = orders;
      executions = executions;
      obligations =
          write (λ o. o.obligation_id == ob.obligation_id)
            (refresh_obligation ids confirmed pending unresolved ob) t.obligations;
    })

unfoldable pub refresh_hedge : ℕ → Tables → Result Tables
refresh_hedge id t = elim (find_obligation id t.obligations) [
  | none ↦ err missing_obligation
  | some ob ↦ ok (refresh_with ob t)
]
