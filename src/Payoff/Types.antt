-- ===== src/Payoff/Types.antt =====
-- `CostInputs`, `ScenarioPnl`, `HedgeDepthView` and `Opportunity`.
-- Settlement prices and their changes count 10^-10; money counts 10^-18, a price times a quantity.
use poly_zq_trading.Prelude.{ℕ, List, Option, none, some, Bool}
use poly_zq_trading.Prelude.Int.{ℤ, ◌+ℤ◌}
use poly_zq_trading.Domain.Calendar.{MeetingCalendar}
use poly_zq_trading.Domain.Enums.{GateStatus}
use poly_zq_trading.Book.Types.{OrderBook, BookLevel, Quotient}

pub record CostInputs : Type 0 where
  pub ibkr_commission : ℤ
  pub polymarket_fees : Option ℤ

unfoldable pub explicit_costs : CostInputs → Option ℤ
explicit_costs c = elim c.polymarket_fees [
  | none ↦ none
  | some fees ↦ some (c.ibkr_commission +ℤ fees)
]

-- The arguments of `build_three_state_opportunity`. Contracts are whole; what was filled before
-- counts `Units.one_share`. A saved ratio is finite, as `saved_hedge_ratios` leaves it.
pub record Request : Type 0 where
  pub contracts : ℕ
  pub calendar : MeetingCalendar
  pub zq_price : ℤ
  pub pre_meeting_effr : ℤ
  pub inc25_book : OrderBook
  pub inc50_book : OrderBook
  pub cost_inputs : CostInputs
  pub incremental_margin : Option ℤ
  pub emergency_cash_reserve : ℤ
  pub post_price_cap : ℕ
  pub emergency_price_cap : ℕ
  pub hedge_ratios : Option (ℕ × ℕ)
  pub previously_filled_contracts : ℕ

pub record ScenarioPnl : Type 0 where
  pub move_bps : ℕ
  pub settlement_price : ℤ
  pub zq_entry_price : ℤ
  pub contracts : ℕ
  pub futures_price_change : ℤ
  pub futures_pnl : ℤ
  pub inc25_shares : ℕ
  pub inc25_entry_price : Option Quotient
  pub inc25_payout : ℕ
  pub inc25_pnl : ℤ
  pub inc50plus_shares : ℕ
  pub inc50plus_entry_price : Option Quotient
  pub inc50plus_payout : ℕ
  pub inc50plus_pnl : ℤ
  pub polymarket_pnl : ℤ
  pub gross_pnl : ℤ
  pub costs : Option ℤ
  pub net_pnl : Option ℤ

pub record HedgeDepthView : Type 0 where
  pub required_shares : ℕ
  pub available_shares : ℕ
  pub shortfall_shares : ℕ
  pub price_cap : ℕ
  pub marketable_limit_price : Option ℕ
  pub best_ask_shares : ℕ
  pub entry_price_cap : Option ℕ
  pub entry_vwap : Option Quotient
  pub entry_cash_cost : Option ℕ
  pub entry_fills : List BookLevel
  pub emergency_vwap : Option Quotient
  pub worst_price : Option ℕ
  pub sufficient : Bool

-- A return as the exact quotient of a profit by a capital.
pub record Return : Type 0 where
  pub profit_times_10000 : ℤ
  pub capital : ℤ

-- The four gate checks are their statuses, limit and depth of either leg.
pub record ThreeStateOpportunity : Type 0 where
  pub zq_price : ℤ
  pub contracts : ℕ
  pub token_requirements : ℕ × ℕ
  pub hedge_depth : HedgeDepthView × HedgeDepthView
  pub gate_checks : List GateStatus
  pub scenarios : List ScenarioPnl
  pub emergency_scenarios : List ScenarioPnl
  pub passive_minimum_net_profit : Option ℤ
  pub emergency_minimum_net_profit : Option ℤ
  pub minimum_net_profit : Option ℤ
  pub committed_capital : Option ℤ
  pub return_on_capital_bps : Option Return
  pub calculated : Bool
