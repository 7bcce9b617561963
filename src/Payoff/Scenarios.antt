-- ===== src/Payoff/Scenarios.antt =====
-- `_payout` and the scenario matrix.
use poly_zq_trading.Prelude.{
  ℕ, ◌*◌, List, [], ◌∷◌, Option, none, some, map, leb, ◌==◌, if◌then◌else◌,
}
use poly_zq_trading.Prelude.Int.{ℤ, pos, ◌+ℤ◌, ◌-ℤ◌, scale}
use poly_zq_trading.Analytics.Units.{one, one_share, futures_point_value}
use poly_zq_trading.Analytics.Settlement.{theoretical_settlement}
use poly_zq_trading.Book.Types.{DepthCost}
use poly_zq_trading.Payoff.Types.{Request, ScenarioPnl, explicit_costs}

-- APPROVED_SCENARIOS
abbrev pub approved_scenarios : List ℕ
approved_scenarios = 0 ∷ 25 ∷ 50 ∷ []

-- The payout of a share of either leg, in whole dollars.
abbrev pub inc25_payout_of : ℕ → ℕ
inc25_payout_of move = if move == 25 then 1 else 0

abbrev pub inc50plus_payout_of : ℕ → ℕ
inc50plus_payout_of move = if leb 50 move then 1 else 0

-- What a leg earns: its shares at their payout, less their cost.
unfoldable pub leg_pnl : ℕ → ℕ → ℕ → ℤ
leg_pnl shares payout cost = pos (shares * payout * one) -ℤ pos cost

unfoldable pub futures_pnl_of : ℕ → ℤ → ℤ
futures_pnl_of contracts change = scale (contracts * futures_point_value * one_share) change

abbrev pub after_costs : ℤ → Option ℤ → Option ℤ
after_costs gross none = none
after_costs gross (some costs) = some (gross -ℤ costs)

unfoldable pub gross_pnl_of : Request → ℕ → ℕ → DepthCost → DepthCost → ℕ → ℤ
gross_pnl_of r q25 q50 cost25 cost50 move =
    let settlement = theoretical_settlement r.pre_meeting_effr (pos move) r.calendar in
    futures_pnl_of r.contracts (settlement -ℤ r.zq_price)
    +ℤ (leg_pnl q25 (inc25_payout_of move) cost25.total_cost
        +ℤ leg_pnl q50 (inc50plus_payout_of move) cost50.total_cost)

unfoldable pub scenario_of : Request → ℕ → ℕ → DepthCost → DepthCost → ℕ → ScenarioPnl
scenario_of r q25 q50 cost25 cost50 move =
    let settlement = theoretical_settlement r.pre_meeting_effr (pos move) r.calendar in
    let inc25_pnl = leg_pnl q25 (inc25_payout_of move) cost25.total_cost in
    let inc50plus_pnl = leg_pnl q50 (inc50plus_payout_of move) cost50.total_cost in
    let gross = gross_pnl_of r q25 q50 cost25 cost50 move in
    record {
      move_bps = move;
      settlement_price = settlement;
      zq_entry_price = r.zq_price;
      contracts = r.contracts;
      futures_price_change = settlement -ℤ r.zq_price;
      futures_pnl = futures_pnl_of r.contracts (settlement -ℤ r.zq_price);
      inc25_shares = q25;
      inc25_entry_price = cost25.vwap;
      inc25_payout = inc25_payout_of move;
      inc25_pnl = inc25_pnl;
      inc50plus_shares = q50;
      inc50plus_entry_price = cost50.vwap;
      inc50plus_payout = inc50plus_payout_of move;
      inc50plus_pnl = inc50plus_pnl;
      polymarket_pnl = inc25_pnl +ℤ inc50plus_pnl;
      gross_pnl = gross;
      costs = explicit_costs r.cost_inputs;
      net_pnl = after_costs gross (explicit_costs r.cost_inputs);
    }

unfoldable pub scenario_matrix : Request → ℕ → ℕ → DepthCost → DepthCost → List ScenarioPnl
scenario_matrix r q25 q50 cost25 cost50 =
    map (scenario_of r q25 q50 cost25 cost50) approved_scenarios
