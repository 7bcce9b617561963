-- ===== src/Analytics/Units.antt =====
-- The fixed-point units that stand for Python's `Decimal`: a value is a whole number of units.
-- The database columns fix them: prices and rates have ten decimal places, share and contract
-- quantities eight. A product of a price and a quantity is exact in units of 10^-18.
-- `Decimal` rounds only beyond 28 significant digits, which no value of the program reaches.
use poly_zq_trading.Prelude.{ℕ}

-- 1 as a price, a rate in percent, or a ratio of shares to a contract.
abbrev pub one : ℕ
one = 10000000000

-- One basis point of a rate, 0.01 percent.
abbrev pub basis_point : ℕ
basis_point = 100000000

-- One share, or one contract.
abbrev pub one_share : ℕ
one_share = 100000000

-- The share precision 0.01 of an order, and the same in units of 10^-18.
abbrev pub share_step : ℕ
share_step = 1000000

abbrev pub share_step_exact : ℕ
share_step_exact = 10000000000000000

-- CME_SETTLEMENT_RATE_INCREMENT, 0.001 percent.
abbrev pub rate_increment : ℕ
rate_increment = 10000000

-- FUTURES_POINT_VALUE
abbrev pub futures_point_value : ℕ
futures_point_value = 4167
