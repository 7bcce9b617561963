-- ===== src/Risk/Checks.antt =====
-- The checks of `qualify`, in its order, a list for each group of gates.
use poly_zq_trading.Prelude.{
  List, [], ◌∷◌, Option, none, some, Bool, true, false, ◌&&◌, not, ltb, if◌then◌else◌,
}
use poly_zq_trading.Prelude.Int.{ℤ, pos, ◌+ℤ◌, ◌*ℤ◌, ltb_ℤ, leb_ℤ}
use poly_zq_trading.Domain.Enums.{
  RunMode, read_only, Side, buy, GateStatus, passed, unavailable, ConnectionStatus, connected,
  is_live,
}
use poly_zq_trading.Analytics.Units.{one_share}
use poly_zq_trading.Risk.Types.{
  Country, hk, nl, Direction, long, GateCode, ibkr_connection, polymarket_connection,
  market_mapping, eligibility_checked, eligibility_opening, live_country, polymarket_book_sync,
  zq_target_subscription_qualified, pre_meeting_effr, cross_venue_snapshot, zq_contract_verified,
  long_only_direction, zq_entry_side, full_hedge_depth, ibkr_margin_preview,
  next_batch_initial_margin, projected_excess_liquidity, projected_margin_cushion,
  net_short_prohibited, max_zq_position, active_batch_limit, hedge_reconciliation,
  venue_reconciliation, critical_alert, maintenance_hold, pause_state, kill_switch, fomc_cutoff,
  minimum_net_profit, minimum_return_on_capital, run_mode, Detail, pass, not_applicable, failure,
  missing, ibkr_is, text, GateCheck, GateContext, Settings, Opportunity,
}

-- SUPPORTED_LIVE_COUNTRIES; no country is in no set.
abbrev pub is_supported : Option Country → Bool
is_supported (some hk) = true
is_supported (some nl) = true
is_supported _ = false

unfoldable pub polymarket_api_opening_permitted : Bool → Option Country → Bool
polymarket_api_opening_permitted checked country = checked && is_supported country

abbrev pub status_of : Bool → Option Bool → GateStatus
status_of false _ = GateStatus.not_applicable
status_of true none = unavailable
status_of true (some true) = passed
status_of true (some false) = GateStatus.failed

abbrev detail_of : GateCode → Detail → GateStatus → Detail
detail_of code failure_reason GateStatus.not_applicable = not_applicable code
detail_of code failure_reason passed = pass code
detail_of code failure_reason _ = failure_reason

-- `add`: the gate applies or not, and its test came out or could not be made.
unfoldable pub add : GateCode → Bool → Option Bool → Detail → GateCheck
add code applicable test failure_reason = record {
  code = code;
  status = status_of applicable test;
  blocking = applicable;
  detail = detail_of code failure_reason (status_of applicable test);
}

abbrev pub is_connected : ConnectionStatus → Bool
is_connected connected = true
is_connected _ = false

abbrev pub is_long : Direction → Bool
is_long long = true
is_long _ = false

abbrev pub is_buy : Side → Bool
is_buy buy = true
is_buy _ = false

abbrev pub is_read_only : RunMode → Bool
is_read_only read_only = true
is_read_only _ = false

-- A bound that a value must reach, or no answer where there is no value.
abbrev pub reaches : ℤ → Option ℤ → Option Bool
reaches bound none = none
reaches bound (some value) = some (leb_ℤ bound value)

abbrev missing_or_failure : GateCode → Option ℤ → Detail
missing_or_failure code none = missing code
missing_or_failure code (some _) = failure code

abbrev required : GateCode → Bool → GateCheck
required code test = add code true (some test) (failure code)

unfoldable pub venue_checks : GateContext → List GateCheck
venue_checks c =
    add ibkr_connection true (some (is_connected c.ibkr_status)) (ibkr_is c.ibkr_status)
    ∷ required polymarket_connection c.polymarket_connected
    ∷ required market_mapping c.mapping_verified
    ∷ []

unfoldable pub eligibility_checks : Settings → GateContext → List GateCheck
eligibility_checks s c =
    let permitted = polymarket_api_opening_permitted c.eligibility_checked c.eligibility_country in
    required eligibility_checked c.eligibility_checked
    ∷ add eligibility_opening c.eligibility_checked
        (if c.eligibility_checked then some permitted else none) (failure eligibility_opening)
    ∷ add live_country (is_live s.run_mode) (some (is_supported c.eligibility_country))
        (failure live_country)
    ∷ []

-- The checks that the context brings, or the four flags where it brings none.
unfoldable pub cross_venue_checks : GateContext → List GateCheck
cross_venue_checks c = elim c.cross_venue_checks [
  | [] ↦
      required polymarket_book_sync c.polymarket_books_synchronized
      ∷ required zq_target_subscription_qualified c.target_subscription_qualified
      ∷ required pre_meeting_effr c.effr_qualified
      ∷ required cross_venue_snapshot c.cross_venue_snapshot_qualified
      ∷ []
  | check ∷ checks ↦ check ∷ checks
]

unfoldable pub strategy_checks : Opportunity → GateContext → List GateCheck
strategy_checks o c =
    required zq_contract_verified c.contract_verified
    ∷ required long_only_direction (is_long o.direction)
    ∷ required zq_entry_side (is_buy o.zq_side)
    ∷ []

unfoldable pub depth_checks : Opportunity → GateContext → List GateCheck
depth_checks o c = elim o.gate_checks [
  | [] ↦ required full_hedge_depth c.full_hedge_depth_available ∷ []
  | check ∷ checks ↦ check ∷ checks
]

-- The liquidity needed, in units of 10^-16: the fixed minimum or the multiple of the margin.
abbrev pub minimum_liquidity : Settings → ℤ → ℤ
minimum_liquidity s margin =
    let fixed = pos one_share *ℤ s.min_full_excess_liquidity_usd in
    let multiple = s.min_excess_liquidity_margin_multiplier *ℤ margin in
    if ltb_ℤ fixed multiple then multiple else fixed

unfoldable pub liquidity_check : Settings → Option ℤ → Option ℤ → GateCheck
liquidity_check s none liquidity =
    add projected_excess_liquidity true none (missing next_batch_initial_margin)
liquidity_check s (some margin) liquidity =
    add projected_excess_liquidity true
      (reaches (minimum_liquidity s margin)
        (elim liquidity [ none ↦ none | some value ↦ some (pos one_share *ℤ value) ]))
      (missing_or_failure projected_excess_liquidity liquidity)

unfoldable pub margin_checks : Settings → GateContext → List GateCheck
margin_checks s c =
    add ibkr_margin_preview true c.margin_preview_available (text c.margin_preview_detail)
    ∷ add next_batch_initial_margin true (reaches (pos 0) c.next_batch_initial_margin)
        (failure next_batch_initial_margin)
    ∷ liquidity_check s c.next_batch_initial_margin c.projected_full_excess_liquidity
    ∷ add projected_margin_cushion true
        (reaches s.min_margin_cushion_ratio c.projected_margin_cushion)
        (missing_or_failure projected_margin_cushion c.projected_margin_cushion)
    ∷ []

unfoldable pub position_checks : Settings → GateContext → List GateCheck
position_checks s c =
    required net_short_prohibited (leb_ℤ (pos 0) c.current_zq_position)
    ∷ required max_zq_position
        (leb_ℤ (c.current_zq_position +ℤ s.ibkr_zq_child_order_quantity) s.max_zq_position)
    ∷ required active_batch_limit (ltb_ℤ c.active_batches s.max_open_batches)
    ∷ required hedge_reconciliation (not c.unresolved_hedge)
    ∷ add venue_reconciliation true (some c.reconciliation_clean) (text c.reconciliation_detail)
    ∷ []

unfoldable pub operations_checks : Settings → GateContext → List GateCheck
operations_checks s c =
    required critical_alert (not c.critical_alert_active)
    ∷ required maintenance_hold (not c.maintenance_hold)
    ∷ required pause_state (not c.paused)
    ∷ required kill_switch (not c.kill_switch)
    ∷ required fomc_cutoff (ltb c.now s.fomc_trading_cutoff_utc)
    ∷ []

unfoldable pub economics_checks : Settings → Opportunity → List GateCheck
economics_checks s o =
    add minimum_net_profit true (reaches s.min_net_profit_usd o.minimum_net_profit)
      (missing_or_failure minimum_net_profit o.minimum_net_profit)
    ∷ add minimum_return_on_capital true
        (reaches s.min_return_on_capital_bps o.return_on_capital_bps)
        (missing_or_failure minimum_return_on_capital o.return_on_capital_bps)
    ∷ required run_mode (not (is_read_only s.run_mode))
    ∷ []
