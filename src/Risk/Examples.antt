-- ===== src/Risk/Examples.antt =====
-- An opportunity that may be traded, and the theorem at it.
use poly_zq_trading.Prelude.{◌≡◌, ◌↔◌, refl, [], some, true, false}
use poly_zq_trading.Prelude.Int.{pos, ◌+ℤ◌, ◌*ℤ◌}
use poly_zq_trading.Domain.Enums.{RunMode, Side, ConnectionStatus}
use poly_zq_trading.Risk.Types.{Country, Direction, GateContext, Settings, Opportunity}
use poly_zq_trading.Risk.Checks.{
  polymarket_api_opening_permitted, add, venue_checks, eligibility_checks, cross_venue_checks,
  strategy_checks, depth_checks, liquidity_check, margin_checks, position_checks, operations_checks,
  economics_checks,
}
use poly_zq_trading.Risk.Engine.{all_checks, qualify}
use poly_zq_trading.Risk.Tradeable.{IsTradeable, qualify-tradeable}

abbrev settings : Settings
settings = record {
  run_mode = RunMode.limited_live;
  min_full_excess_liquidity_usd = pos 500000000000;
  min_excess_liquidity_margin_multiplier = pos 200000000;
  min_margin_cushion_ratio = pos 10000000;
  ibkr_zq_child_order_quantity = pos 10;
  max_zq_position = pos 50;
  max_open_batches = pos 1;
  fomc_trading_cutoff_utc = 2000;
  min_net_profit_usd = pos 5000000000;
  min_return_on_capital_bps = pos 1000000000;
}

abbrev opportunity : Opportunity
opportunity = record {
  direction = Direction.long;
  zq_side = Side.buy;
  minimum_net_profit = some (pos 6000000000);
  return_on_capital_bps = some (pos 1200000000);
  gate_checks = [];
}

abbrev context : GateContext
context = record {
  now = 1000;
  ibkr_status = ConnectionStatus.connected;
  polymarket_connected = true;
  mapping_verified = true;
  eligibility_checked = true;
  eligibility_country = some Country.nl;
  polymarket_books_synchronized = true;
  target_subscription_qualified = true;
  effr_qualified = true;
  cross_venue_snapshot_qualified = true;
  contract_verified = true;
  full_hedge_depth_available = true;
  margin_preview_available = some true;
  margin_preview_detail = 1;
  projected_full_excess_liquidity = some (pos 900000000000);
  projected_margin_cushion = some (pos 40000000);
  next_batch_initial_margin = some (pos 200000000000);
  current_zq_position = pos 20;
  active_batches = pos 0;
  unresolved_hedge = false;
  reconciliation_clean = true;
  reconciliation_detail = 2;
  critical_alert_active = false;
  paused = false;
  kill_switch = false;
  maintenance_hold = false;
  cross_venue_checks = [];
}

qualify-tradeable_example :
    ((qualify settings opportunity context).tradeable ≡ true)
    ↔ IsTradeable settings opportunity context
qualify-tradeable_example = qualify-tradeable settings opportunity context

-- The opportunity passes every gate; after the cutoff it does not.
may_trade : (qualify settings opportunity context).tradeable ≡ true
unfolding qualify all_checks venue_checks eligibility_checks cross_venue_checks strategy_checks
    depth_checks margin_checks liquidity_check position_checks operations_checks economics_checks
    add polymarket_api_opening_permitted ◌+ℤ◌ ◌*ℤ◌
may_trade = refl

late : (qualify settings opportunity (record context { now = 2000 })).tradeable ≡ false
unfolding qualify all_checks venue_checks eligibility_checks cross_venue_checks strategy_checks
    depth_checks margin_checks liquidity_check position_checks operations_checks economics_checks
    add polymarket_api_opening_permitted ◌+ℤ◌ ◌*ℤ◌
late = refl
