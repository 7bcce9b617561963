-- ===== src/Risk/Types.antt =====
-- `GateContext`, `GateCheck`, `Qualification`, and what the gates read of the settings and of an
-- opportunity. Amounts of money are signed counts of 10^-8, as are the ratios and basis points;
-- times are counted from a fixed moment.
use poly_zq_trading.Prelude.{ℕ, List, Option, Bool}
use poly_zq_trading.Prelude.Int.{ℤ}
use poly_zq_trading.Domain.Enums.{RunMode, Side, GateStatus, ConnectionStatus}

pub data Country : Type 0 where
  hk nl : Country
  other : ℕ → Country

pub data Direction : Type 0 where
  long short : Direction

pub data GateCode : Type 0 where
  ibkr_connection polymarket_connection market_mapping eligibility_checked eligibility_opening
        live_country polymarket_book_sync zq_target_subscription_qualified pre_meeting_effr
        cross_venue_snapshot zq_contract_verified long_only_direction zq_entry_side full_hedge_depth
        ibkr_margin_preview next_batch_initial_margin projected_excess_liquidity
        projected_margin_cushion net_short_prohibited max_zq_position active_batch_limit
        hedge_reconciliation venue_reconciliation critical_alert maintenance_hold pause_state
        kill_switch fomc_cutoff minimum_net_profit minimum_return_on_capital run_mode :
      GateCode
  other : ℕ → GateCode

-- `detail`: that the gate is passed or does not apply, its failure reason, the reason for which
-- its value is missing, or a text that the context brings.
pub data Detail : Type 0 where
  pass not_applicable failure missing : GateCode → Detail
  ibkr_is : ConnectionStatus → Detail
  text : ℕ → Detail

pub record GateCheck : Type 0 where
  pub code : GateCode
  pub status : GateStatus
  pub blocking : Bool
  pub detail : Detail

pub record GateContext : Type 0 where
  pub now : ℕ
  pub ibkr_status : ConnectionStatus
  pub polymarket_connected : Bool
  pub mapping_verified : Bool
  pub eligibility_checked : Bool
  pub eligibility_country : Option Country
  pub polymarket_books_synchronized : Bool
  pub target_subscription_qualified : Bool
  pub effr_qualified : Bool
  pub cross_venue_snapshot_qualified : Bool
  pub contract_verified : Bool
  pub full_hedge_depth_available : Bool
  pub margin_preview_available : Option Bool
  pub margin_preview_detail : ℕ
  pub projected_full_excess_liquidity : Option ℤ
  pub projected_margin_cushion : Option ℤ
  pub next_batch_initial_margin : Option ℤ
  pub current_zq_position : ℤ
  pub active_batches : ℤ
  pub unresolved_hedge : Bool
  pub reconciliation_clean : Bool
  pub reconciliation_detail : ℕ
  pub critical_alert_active : Bool
  pub paused : Bool
  pub kill_switch : Bool
  pub maintenance_hold : Bool
  pub cross_venue_checks : List GateCheck

pub record Settings : Type 0 where
  pub run_mode : RunMode
  pub min_full_excess_liquidity_usd : ℤ
  pub min_excess_liquidity_margin_multiplier : ℤ
  pub min_margin_cushion_ratio : ℤ
  pub ibkr_zq_child_order_quantity : ℤ
  pub max_zq_position : ℤ
  pub max_open_batches : ℤ
  pub fomc_trading_cutoff_utc : ℕ
  pub min_net_profit_usd : ℤ
  pub min_return_on_capital_bps : ℤ

pub record Opportunity : Type 0 where
  pub direction : Direction
  pub zq_side : Side
  pub minimum_net_profit : Option ℤ
  pub return_on_capital_bps : Option ℤ
  pub gate_checks : List GateCheck

pub record Qualification : Type 0 where
  pub tradeable : Bool
  pub reasons : List Detail
  pub checks : List GateCheck
