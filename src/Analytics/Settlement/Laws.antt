-- ===== src/Analytics/Settlement/Laws.antt =====
-- The rounding of the settlement, and its order in the move of the rate.
use poly_zq_trading.Prelude.{◌*◌, ◌≤◌, ◌≡◌, arith}
use poly_zq_trading.Prelude.Int.{
  ℤ, pos, ◌+ℤ◌, ◌-ℤ◌, ◌≤ℤ◌, ◌<ℤ◌, scale, int_laws, floor_div_bounds, floor_div_mono, scale_mono,
  scale-scale,
}
use poly_zq_trading.Domain.Calendar.{MeetingCalendar, days_after, total_days}
use poly_zq_trading.Analytics.Units.{one, basis_point, rate_increment}
use poly_zq_trading.Analytics.Settlement.{rate_sum, rounded_increments, theoretical_settlement}

rate_sum_mono :
    (effr : ℤ) (m m' : ℤ) (c : MeetingCalendar) → m ≤ℤ m' → rate_sum effr m c ≤ℤ rate_sum effr m' c
unfolding rate_sum
rate_sum_mono effr m m' c h =
    let step : effr +ℤ scale basis_point m ≤ℤ effr +ℤ scale basis_point m' = omega int_laws in
    omega (
      int_laws,
      scale_mono (days_after c) (effr +ℤ scale basis_point m) (effr +ℤ scale basis_point m') step,
    )

rounded_increments_mono :
    (effr : ℤ) (m m' : ℤ) (c : MeetingCalendar)
    → 1 ≤ total_days c
    → m ≤ℤ m'
    → rounded_increments effr m c ≤ℤ rounded_increments effr m' c
unfolding rounded_increments
rounded_increments_mono effr m m' c days h =
    floor_div_mono _ _ _ (omega arith) (omega (int_laws, rate_sum_mono effr m m' c h))

-- A higher rate never settles higher: the settlement falls, or stays, as the move rises.
pub theoretical_settlement_antitone :
    (effr : ℤ) (m m' : ℤ) (c : MeetingCalendar)
    → 1 ≤ total_days c
    → m ≤ℤ m'
    → theoretical_settlement effr m' c ≤ℤ theoretical_settlement effr m c
unfolding theoretical_settlement
theoretical_settlement_antitone effr m m' c days h =
    omega (int_laws, rounded_increments_mono effr m m' c days h)

-- The rate that a settlement stands for, 100 minus the settlement.
abbrev pub settled_rate : ℤ → ℤ → MeetingCalendar → ℤ
settled_rate effr m c = pos (100 * one) -ℤ theoretical_settlement effr m c

-- The settled rate lies within half an increment of the exact average rate, the upper end
-- included: an exact tie is rounded up.
pub theoretical_settlement_rounding :
    (effr m : ℤ) (c : MeetingCalendar)
    → 1 ≤ total_days c
    → let exact = scale 2 (rate_sum effr m c) in
      let settled = scale (2 * total_days c) (settled_rate effr m c) in
      let half = pos (total_days c * rate_increment) in
      (settled ≤ℤ exact +ℤ half) × (exact <ℤ settled +ℤ half)
unfolding theoretical_settlement rounded_increments
theoretical_settlement_rounding effr m c days =
    let f = rounded_increments effr m c in
    let settled : settled_rate effr m c ≡ scale rate_increment f = omega int_laws in
    let d = 2 * (total_days c * rate_increment) in
    let (low, high) =
      floor_div_bounds (scale 2 (rate_sum effr m c) +ℤ pos (total_days c * rate_increment)) d
        (omega arith) in
    rw settled
      (rw scale-scale (omega (int_laws, low, high)), rw scale-scale (omega (int_laws, low, high)))
