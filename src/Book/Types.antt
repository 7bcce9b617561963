-- ===== src/Book/Types.antt =====
-- `BookLevel`, the best prices of `OrderBook`, `DepthCost` and `HedgeEntryPlan`.
use poly_zq_trading.Prelude.{Bool, ℕ, ◌*◌, List, [], ◌∷◌, Option, none, some, min, max, sum_of}

pub record BookLevel : Type 0 where
  pub price : ℕ
  pub size : ℕ

pub record OrderBook : Type 0 where
  pub bids : List BookLevel
  pub asks : List BookLevel
  pub tick_size : Option ℕ

-- `max(prices, default=None)` and `min(prices, default=None)`.
unfoldable pub best_bid_of : List BookLevel → Option ℕ
best_bid_of [] = none
best_bid_of (l ∷ ls) = elim (best_bid_of ls) [ none ↦ some l.price | some p ↦ some (max l.price p) ]

unfoldable pub best_ask_of : List BookLevel → Option ℕ
best_ask_of [] = none
best_ask_of (l ∷ ls) = elim (best_ask_of ls) [ none ↦ some l.price | some p ↦ some (min l.price p) ]

abbrev pub best_bid : OrderBook → Option ℕ
best_bid b = best_bid_of b.bids

abbrev pub best_ask : OrderBook → Option ℕ
best_ask b = best_ask_of b.asks

-- An exact quotient, for `Decimal` division.
pub record Quotient : Type 0 where
  pub numerator : ℕ
  pub denominator : ℕ

pub record DepthCost : Type 0 where
  pub requested_shares : ℕ
  pub filled_shares : ℕ
  pub total_cost : ℕ
  pub vwap : Option Quotient
  pub is_sufficient : Bool
  pub worst_price : Option ℕ
  pub fills : List BookLevel

pub record HedgeEntryPlan : Type 0 where
  pub price_cap : Option ℕ
  pub available_shares : ℕ
  pub depth : DepthCost

-- `limit_price`
abbrev pub limit_price : HedgeEntryPlan → Option ℕ
limit_price p = p.depth.worst_price

abbrev pub size_of : List BookLevel → ℕ
size_of = sum_of (λ l. l.size)

abbrev pub cost_of : List BookLevel → ℕ
cost_of = sum_of (λ l. l.size * l.price)
