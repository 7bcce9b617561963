-- ===== src/Ledger/Queries.antt =====
-- Tests and queries on the rows.
use poly_zq_trading.Prelude.{
  ℕ, List, [], ◌∷◌, Option, none, some, Bool, true, false, ◌&&◌, any, filter, find, ◌==◌,
  if◌then◌else◌,
}
use poly_zq_trading.Ledger.Types.{
  Venue, ibkr, polymarket, OrderId, intent_id, sim_id, venue_id, OrderState, TradeStatus, Order,
  Execution, Obligation, Batch,
}

abbrev pub same_id : OrderId → OrderId → Bool
same_id (intent_id a) (intent_id b) = a == b
same_id (sim_id a) (sim_id b) = a == b
same_id (venue_id a) (venue_id b) = a == b
same_id _ _ = false

abbrev pub is_polymarket : Venue → Bool
is_polymarket polymarket = true
is_polymarket ibkr = false

abbrev pub equals_some : Option ℕ → ℕ → Bool
equals_some none b = false
equals_some (some a) b = a == b

-- TERMINAL_ORDERS
abbrev pub is_terminal : OrderState → Bool
is_terminal OrderState.cancelled = true
is_terminal OrderState.filled = true
is_terminal OrderState.matched = true
is_terminal OrderState.rejected = true
is_terminal OrderState.expired = true
is_terminal _ = false

unfoldable pub order_resolved : Order → Bool
order_resolved o = is_terminal o.state && o.terminal_verified

-- The states from which an intent may still be submitted.
abbrev pub is_unsent : OrderState → Bool
is_unsent OrderState.intent = true
is_unsent OrderState.submitting = true
is_unsent OrderState.outcome_unknown = true
is_unsent _ = false

-- TRADE_STATES, 0 for any other status.
abbrev pub trade_rank : TradeStatus → ℕ
trade_rank TradeStatus.matched = 1
trade_rank TradeStatus.mined = 2
trade_rank TradeStatus.retrying = 2
trade_rank TradeStatus.confirmed = 3
trade_rank TradeStatus.failed = 4
trade_rank _ = 0

abbrev status_code : TradeStatus → ℕ
status_code TradeStatus.matched = 0
status_code TradeStatus.mined = 1
status_code TradeStatus.retrying = 2
status_code TradeStatus.confirmed = 3
status_code TradeStatus.failed = 4
status_code TradeStatus.conflict = 5
status_code TradeStatus.unknown = 6
status_code (TradeStatus.other n) = 7

abbrev pub same_status : TradeStatus → TradeStatus → Bool
same_status (TradeStatus.other a) (TradeStatus.other b) = a == b
same_status a b = status_code a == status_code b

-- The Polymarket orders of an obligation.
abbrev pub is_order_of : Obligation → Order → Bool
is_order_of ob o =
    is_polymarket o.venue
    && (o.batch_id == ob.batch_id)
    && equals_some o.obligation_id ob.obligation_id

abbrev pub orders_of : Obligation → List Order → List Order
orders_of ob = filter (is_order_of ob)

abbrev pub has_id : OrderId → List OrderId → Bool
has_id i = any (λ j. same_id i j)

-- The Polymarket executions under one of the ids.
abbrev pub is_execution_of : List OrderId → Execution → Bool
is_execution_of ids e = is_polymarket e.venue && has_id e.venue_order_id ids

abbrev pub find_obligation : ℕ → List Obligation → Option Obligation
find_obligation id = find (λ ob. ob.obligation_id == id)

abbrev pub find_polymarket_order : OrderId → List Order → Option Order
find_polymarket_order id = find (λ o. is_polymarket o.venue && same_id o.venue_order_id id)

abbrev pub find_by_key : ℕ → List Order → Option Order
find_by_key key = find (λ o. o.idempotency_key == key)

abbrev pub find_batch : ℕ → List Batch → Option Batch
find_batch id = find (λ b. b.batch_id == id)

-- Writing a row back: the first row that the query finds.
unfoldable pub write {ℓ} : {A : Type ℓ} → (A → Bool) → A → List A → List A
write p a [] = []
write p a (x ∷ xs) = if p x then a ∷ xs else x ∷ write p a xs
