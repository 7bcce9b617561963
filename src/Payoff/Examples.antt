-- ===== src/Payoff/Examples.antt =====
-- One contract hedged on two small books.
use poly_zq_trading.Prelude.{◌≤◌, ◌≡◌, refl, [], ◌∷◌, none, some, true, arith}
use poly_zq_trading.Prelude.Int.{pos, ◌+ℤ◌, ◌-ℤ◌, scale, floor_div}
use poly_zq_trading.Domain.Calendar.{MeetingCalendar, month_range, total_days}
use poly_zq_trading.Analytics.Sizing.{
  hedge_shares_per_contract, incremental_hedge_shares, round_shares_up,
}
use poly_zq_trading.Analytics.Settlement.{rate_sum, rounded_increments, theoretical_settlement}
use poly_zq_trading.Book.Types.{OrderBook, best_bid_of, best_ask_of}
use poly_zq_trading.Book.Walk.{
  insert_level, sort_levels, push_fill, consume, walk, depth_cost, walk_asks,
}
use poly_zq_trading.Book.Plan.{
  marketable_limit_price, entry_ceiling, is_entry_level, entry_levels, plan_hedge_entry,
}
use poly_zq_trading.Payoff.Types.{Request, ThreeStateOpportunity}
use poly_zq_trading.Payoff.Build.{
  ratios, required_shares, best_ask_size, depth_view, leg_checks, is_executable, unexecutable,
  calculate, assemble, build_sized, build_three_state_opportunity, smaller,
}
use poly_zq_trading.Payoff.Least.{AreNear, no_change_net, build-AreNear, build-least}

abbrev meeting : MeetingCalendar
meeting = record {
  contract_month = record { year = 2026; number = 12 };
  rate_effective_date = record { in_month = record { year = 2026; number = 12 }; day = 10 };
}

abbrev book : OrderBook
book = record {
  bids = (record { price = 3000000000; size = 5000000000 }) ∷ [];
  asks =
      (record { price = 3500000000; size = 900000000000 })
      ∷ (record { price = 3100000000; size = 400000000000 })
      ∷ [];
  tick_size = some 100000000;
}

-- ZQ at 96.2 with the rate at 3.64 percent.
abbrev request : Request
request = record {
  contracts = 1;
  calendar = meeting;
  zq_price = pos 962000000000;
  pre_meeting_effr = pos 36400000000;
  inc25_book = book;
  inc50_book = book;
  cost_inputs = record {
    ibkr_commission = pos 5000000000000000000;
    polymarket_fees = some (pos 0);
  };
  incremental_margin = some (pos 500000000000000000000);
  emergency_cash_reserve = pos 100000000000000000000;
  post_price_cap = 4000000000;
  emergency_price_cap = 5000000000;
  hedge_ratios = none;
  previously_filled_contracts = 0;
}

built :
    (o : ThreeStateOpportunity) × (build_three_state_opportunity request ≡ some o)
    × (o.calculated ≡ true)
unfolding build_three_state_opportunity build_sized ratios required_shares hedge_shares_per_contract
    theoretical_settlement rate_sum rounded_increments ◌+ℤ◌ ◌-ℤ◌ scale floor_div
    incremental_hedge_shares round_shares_up plan_hedge_entry entry_levels marketable_limit_price
    entry_ceiling is_entry_level best_bid_of best_ask_of walk_asks walk consume push_fill
    sort_levels insert_level depth_cost assemble calculate unexecutable depth_view leg_checks
    is_executable best_ask_size month_range
built = (_, refl, refl)

has_days : 1 ≤ total_days meeting
unfolding month_range
has_days = omega arith

build-AreNear_example : AreNear built.0.scenarios × AreNear built.0.emergency_scenarios
build-AreNear_example = build-AreNear request built.0 built.1 refl has_days

build-least_example :
    (built.0.passive_minimum_net_profit ≡ no_change_net built.0.scenarios)
    × (built.0.emergency_minimum_net_profit ≡ no_change_net built.0.emergency_scenarios)
    × (built.0.minimum_net_profit
        ≡ smaller (no_change_net built.0.scenarios) (no_change_net built.0.emergency_scenarios))
build-least_example = build-least request built.0 built.1 refl refl has_days
