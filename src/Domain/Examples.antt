-- ===== src/Domain/Examples.antt =====
-- The calendar of the December 2026 meeting, and the theorems at it.
use poly_zq_trading.Prelude.{refl}
use poly_zq_trading.Domain.Calendar.{Month, Date, month_range, make_calendar}
use poly_zq_trading.Domain.Calendar.Exposure.{IsSplit, make_calendar-IsSplit}

abbrev december : Month
december = record { year = 2026; number = 12 }

abbrev effective : Date
effective = record { in_month = december; day = 10 }

make_calendar-IsSplit_example :
    IsSplit (record { contract_month = december; rate_effective_date = effective })
unfolding make_calendar month_range
make_calendar-IsSplit_example = make_calendar-IsSplit december effective refl refl
