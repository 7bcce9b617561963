-- ===== src/Domain/Calendar.antt =====
-- `src/zq_arb/domain/calendar.py`: the calendar-day exposure of a futures month to one rate
-- change. A month is a year and a month number, a date adds the day; the six digits of the
-- source's text are the two numbers. Python's `date` refuses a year 0 and a month or a day out
-- of range, and `calendar.monthrange` gives the length of a month of the Gregorian calendar.
pub mod Exposure
use poly_zq_trading.Prelude.{
  ℕ, ◌+◌, ◌-◌, ◌%◌, ◌≤◌, ◌≡◌, Bool, Option, none, some, ◌&&◌, ◌||◌, not, leb, ◌==◌, if◌then◌else◌,
}

pub record Month : Type 0 where
  pub year : ℕ
  pub number : ℕ

pub record Date : Type 0 where
  pub in_month : Month
  pub day : ℕ

abbrev is_leap : ℕ → Bool
is_leap y = (y % 4 == 0) && (not (y % 100 == 0) || (y % 400 == 0))

-- `calendar.monthrange(year, month)[1]`
unfoldable pub month_range : ℕ → ℕ → ℕ
month_range y m =
    if m == 2
    then (if is_leap y then 29 else 28)
    else if (m == 4) || (m == 6) || (m == 9) || (m == 11)
    then 30
    else 31

-- The arguments that Python's `date(year, month, day)` accepts.
abbrev pub is_date : Date → Bool
is_date d =
    leb 1 d.in_month.year
    && leb d.in_month.year 9999
    && leb 1 d.in_month.number
    && leb d.in_month.number 12
    && leb 1 d.day
    && leb d.day (month_range d.in_month.year d.in_month.number)

abbrev pub same_month : Month → Month → Bool
same_month a b = (a.year == b.year) && (a.number == b.number)

pub record MeetingCalendar : Type 0 where
  pub contract_month : Month
  pub rate_effective_date : Date

abbrev pub days_before : MeetingCalendar → ℕ
days_before c = c.rate_effective_date.day - 1

abbrev pub total_days : MeetingCalendar → ℕ
total_days c = month_range c.contract_month.year c.contract_month.number

abbrev pub days_after : MeetingCalendar → ℕ
days_after c = total_days c - days_before c

-- The constructor with its `__post_init__`. The date comes as a Python date, so its day exists;
-- `none` is the `ValueError`.
unfoldable pub make_calendar : Month → Date → Option MeetingCalendar
make_calendar month effective =
    let calendar : MeetingCalendar = record {
      contract_month = month;
      rate_effective_date = effective;
    } in
    if not (is_date (record { in_month = month; day = 1 }))
    then none
    else if not (same_month effective.in_month month)
    then none
    else if leb (days_before calendar) 0
    then none
    else some calendar

unfoldable pub next_contract_month : Month → Month
next_contract_month m = record {
  year = m.year + (if m.number == 12 then 1 else 0);
  number = m.number % 12 + 1;
}
