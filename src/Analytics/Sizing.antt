-- ===== src/Analytics/Sizing.antt =====
-- The hedge sizing of `src/zq_arb/analytics/payoff.py`.
-- Filled and additional contracts and shares are counts of `Units.one_share`; a ratio, shares
-- for one contract, is a count of `Units.one`. A ratio is never negative, so neither is a
-- product; the difference of two cumulative roundings is exact, since rounding is monotone.
pub mod Laws
use poly_zq_trading.Prelude.{ℕ, ◌+◌, ◌-◌, ◌*◌, ◌/◌, Option, none, some, ltb, if◌then◌else◌, max}
use poly_zq_trading.Prelude.Int.{ℤ, pos, negsuc, ◌-ℤ◌, abs, ltb_ℤ}
use poly_zq_trading.Domain.Calendar.{MeetingCalendar}
use poly_zq_trading.Analytics.Units.{one_share, share_step, share_step_exact, futures_point_value}
use poly_zq_trading.Analytics.Settlement.{theoretical_settlement}

unfoldable pub hedge_shares_per_contract : ℕ → ℤ → MeetingCalendar → ℕ
hedge_shares_per_contract move effr c =
    let base = theoretical_settlement effr (pos 0) c in
    let scenario = theoretical_settlement effr (pos move) c in
    abs (base -ℤ scenario) * futures_point_value

-- Up to the next multiple of 0.01 share, from units of 10^-18.
unfoldable pub round_shares_up : ℕ → ℕ
round_shares_up exact = (exact + (share_step_exact - 1)) / share_step_exact * share_step

unfoldable pub incremental_hedge_shares : ℕ → ℕ → ℕ → ℕ
incremental_hedge_shares ratio filled additional =
    round_shares_up (ratio * (filled + additional)) - round_shares_up (ratio * filled)

-- The configured round-trip floor, or twice the entry preview; `none` is the `ValueError`.
-- Quantities are whole contracts, and commissions signed amounts of money.
unfoldable pub conservative_ibkr_round_trip_commission : ℤ → ℤ → Option ℤ → Option ℤ
conservative_ibkr_round_trip_commission (pos n) (pos each) none = some (pos (n * each))
conservative_ibkr_round_trip_commission (pos n) (pos each) (some (pos entry)) =
    some (pos (max (n * each) (entry * 2)))
conservative_ibkr_round_trip_commission (pos n) (pos each) (some (negsuc _)) = none
conservative_ibkr_round_trip_commission _ _ _ = none
