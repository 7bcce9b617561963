-- ===== src/Analytics/Examples.antt =====
-- The theorems on pricing and sizing at the December 2026 meeting, with a rate of 3.63 percent.
use poly_zq_trading.Prelude.{ℕ, ◌+◌, ◌*◌, ◌≤◌, ◌<◌, ◌≡◌, [], ◌∷◌, arith}
use poly_zq_trading.Prelude.Int.{ℤ, pos, ◌+ℤ◌, ◌≤ℤ◌, ◌<ℤ◌, scale}
use poly_zq_trading.Domain.Calendar.{MeetingCalendar, month_range}
use poly_zq_trading.Analytics.Units.{one, rate_increment, share_step_exact}
use poly_zq_trading.Analytics.Settlement.{rate_sum, theoretical_settlement}
use poly_zq_trading.Analytics.Settlement.Laws.{
  theoretical_settlement_antitone, theoretical_settlement_rounding, settled_rate,
}
use poly_zq_trading.Analytics.Sizing.{incremental_hedge_shares}
use poly_zq_trading.Analytics.Sizing.Laws.{fill_obligations, split_fills_total}

abbrev meeting : MeetingCalendar
meeting = record {
  contract_month = record { year = 2026; number = 12 };
  rate_effective_date = record { in_month = record { year = 2026; number = 12 }; day = 10 };
}

abbrev effr : ℤ
effr = pos 36300000000

theoretical_settlement_antitone_example :
    theoretical_settlement effr (pos 50) meeting ≤ℤ theoretical_settlement effr (pos 25) meeting
unfolding month_range
theoretical_settlement_antitone_example =
    theoretical_settlement_antitone effr (pos 25) (pos 50) meeting (omega arith) (omega arith)

theoretical_settlement_rounding_example :
    (scale 62 (settled_rate effr (pos 25) meeting)
      ≤ℤ scale 2 (rate_sum effr (pos 25) meeting) +ℤ pos (31 * rate_increment))
    × (scale 2 (rate_sum effr (pos 25) meeting)
        <ℤ scale 62 (settled_rate effr (pos 25) meeting) +ℤ pos (31 * rate_increment))
unfolding month_range
theoretical_settlement_rounding_example =
    theoretical_settlement_rounding effr (pos 25) meeting (omega arith)

-- 708.39 shares for one contract.
abbrev ratio : ℕ
ratio = 7083900000000

split_fills_total_example :
    (fill_obligations ratio 0 (300000000 ∷ 700000000 ∷ [])
      ≡ incremental_hedge_shares ratio 0 1000000000)
    × (ratio * 1000000000 ≤ fill_obligations ratio 0 (300000000 ∷ 700000000 ∷ []) * one)
    × (fill_obligations ratio 0 (300000000 ∷ 700000000 ∷ []) * one
        < ratio * 1000000000 + share_step_exact)
split_fills_total_example = split_fills_total ratio (300000000 ∷ 700000000 ∷ [])
