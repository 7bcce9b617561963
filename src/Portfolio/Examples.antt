-- ===== src/Portfolio/Examples.antt =====
-- Ten contracts and shares of one leg, and the theorem at them.
use poly_zq_trading.Prelude.{◌≡◌, [], ◌∷◌, some, none, true, not, any, if◌then◌else◌}
use poly_zq_trading.Prelude.Int.{pos}
use poly_zq_trading.Portfolio.Valuation.{
  Venue, MarkSource, Position, Market, is_missing, value_strategy_portfolio,
}
use poly_zq_trading.Portfolio.Totals.{total_gain, value_strategy_portfolio-total_gain}

abbrev contracts : Position
contracts = record {
  venue = Venue.ibkr;
  instrument = 1;
  label = 1;
  strategy_quantity = pos 1000000000;
  average_entry_price = some (pos 963000000000);
  multiplier = pos 4167;
  mark_price = none;
  mark_source = MarkSource.unavailable;
  cost_basis = none;
  market_value = none;
  unrealized_pnl = none;
  mark_updated_at = none;
}

abbrev shares : Position
shares = record contracts {
  venue = Venue.polymarket;
  instrument = 2;
  label = 2;
  strategy_quantity = pos 70839000000;
  average_entry_price = some (pos 3100000000);
  multiplier = pos 1;
}

abbrev market : Market
market = record {
  quotes =
      (record {
        instrument = 1;
        bid = some (pos 963100000000);
        received_at = 10;
        market_data_type = some 1;
        pretrade_qualified = true;
      })
      ∷ [];
  books =
      (record {
        token_id = 2;
        best_bid = some (pos 3000000000);
        received_at = 11;
        stream_synchronized = true;
      })
      ∷ [];
}

value_strategy_portfolio-total_gain_example :
    ((value_strategy_portfolio market (contracts ∷ shares ∷ [])).valuation_complete
      ≡ not (any (is_missing market) (contracts ∷ shares ∷ [])))
    × ((value_strategy_portfolio market (contracts ∷ shares ∷ [])).combined_unrealized_pnl ≡ (
        if (value_strategy_portfolio market (contracts ∷ shares ∷ [])).valuation_complete
        then some (total_gain market (contracts ∷ shares ∷ []))
        else none))
value_strategy_portfolio-total_gain_example =
    value_strategy_portfolio-total_gain market (contracts ∷ shares ∷ [])
