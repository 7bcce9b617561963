-- ===== src/Analytics/Settlement.antt =====
-- `theoretical_settlement` of `src/zq_arb/analytics/probability.py`: the cash settlement of the
-- month for a move of the rate. A move is a signed number of basis points.
pub mod Laws
use poly_zq_trading.Prelude.{ℕ, ◌+◌, ◌*◌}
use poly_zq_trading.Prelude.Int.{ℤ, pos, ◌+ℤ◌, ◌-ℤ◌, scale, floor_div}
use poly_zq_trading.Domain.Calendar.{MeetingCalendar, days_before, days_after, total_days}
use poly_zq_trading.Analytics.Units.{one, basis_point, rate_increment}

-- The sum of the daily rates of the month: the average rate times the number of days.
unfoldable pub rate_sum : ℤ → ℤ → MeetingCalendar → ℤ
rate_sum effr move c =
    scale (days_before c) effr +ℤ scale (days_after c) (effr +ℤ scale basis_point move)

-- The average rate in increments of 0.001, with exact ties towards plus infinity: the floor of
-- `average / increment + 1/2`, over the common denominator `2 * total_days * increment`.
unfoldable pub rounded_increments : ℤ → ℤ → MeetingCalendar → ℤ
rounded_increments effr move c =
    floor_div (scale 2 (rate_sum effr move c) +ℤ pos (total_days c * rate_increment))
      (2 * (total_days c * rate_increment))

unfoldable pub theoretical_settlement : ℤ → ℤ → MeetingCalendar → ℤ
theoretical_settlement effr move c =
    pos (100 * one) -ℤ scale rate_increment (rounded_increments effr move c)
