-- ===== src/Domain/Calendar/Exposure.antt =====
-- The days that a meeting calendar splits, and the next contract month.
use poly_zq_trading.Prelude.{
  ==_iff, ◌==◌, subst, sym, inl, inr, Bool-cases, false, ℕ, ◌+◌, ◌-◌, ◌/◌, leb, if◌then◌else◌, ◌*◌,
  ◌≤◌, ◌≡◌, true, some, arith,
}
use poly_zq_trading.Domain.Calendar.{
  same_month, Month, Date, MeetingCalendar, days_before, days_after, total_days, is_date,
  month_range, make_calendar, next_contract_month,
}

month_range-le : (y m : ℕ) → month_range y m ≤ 31
unfolding month_range
month_range-le y m = ground arith

-- The days from a fixed day on to a date of the Gregorian calendar, by the civil count: years start
-- in March, so that a leap day is the last of its year.
abbrev pub civil : ℕ → ℕ → ℕ → ℕ
civil y m d = 365 * y + y / 4 + y / 400 + (153 * m + 2) / 5 + d - y / 100

abbrev pub day_number : Date → ℕ
day_number date =
    let month = date.in_month in
    if leb month.number 2
    then civil (month.year - 1) (month.number + 9) date.day
    else civil month.year (month.number - 3) date.day

abbrev pub first_of : Month → Date
first_of m = record { in_month = m; day = 1 }

by_case : (P : ℕ → Type 0) (m k : ℕ) → P k → ((m == k) ≡ false → P m) → P m
by_case P m k p rest = elim (Bool-cases (m == k)) [
  | inl same ↦ subst P (sym ((==_iff m k).0 same)) p
  | inr other ↦ rest other
]

-- The twelve months.
each_month :
    (P : ℕ → Type 0)
    → P 1
    → P 2
    → P 3
    → P 4
    → P 5
    → P 6
    → P 7
    → P 8
    → P 9
    → P 10
    → P 11
    → P 12
    → (m : ℕ) → 1 ≤ m
    → m ≤ 12
    → P m
each_month P p1 p2 p3 p4 p5 p6 p7 p8 p9 p10 p11 p12 m lo hi = by_case P m 1 p1 (λ n1.
    by_case P m 2 p2 (λ n2. by_case P m 3 p3 (λ n3. by_case P m 4 p4 (λ n4. by_case P m 5 p5 (λ n5.
      by_case P m 6 p6 (λ n6. by_case P m 7 p7 (λ n7. by_case P m 8 p8 (λ n8.
        by_case P m 9 p9 (λ n9. by_case P m 10 p10 (λ n10.
          by_case P m 11 p11 (λ n11. by_case P m 12 p12 (λ n12. absurd (ground arith)))))))))))))

abbrev EndsWith : ℕ → ℕ → Type 0
EndsWith y m =
    let month : Month = record { year = y; number = m } in
    day_number (first_of month) + month_range y m
    ≡ day_number (first_of (next_contract_month month))

february : (y : ℕ) → 1 ≤ y → EndsWith y 2
unfolding month_range next_contract_month
february y era = ground arith

-- A month ends where the next one starts.
month_lem : (y m : ℕ) → 1 ≤ y → 1 ≤ m → m ≤ 12 → EndsWith y m
unfolding month_range next_contract_month
month_lem y m era =
    each_month (EndsWith y) (ground arith) (february y era) (ground arith) (ground arith)
      (ground arith) (ground arith) (ground arith) (ground arith) (ground arith) (ground arith)
      (ground arith) (ground arith) m

day_lem :
    (m : Month) (d : ℕ)
    → 1 ≤ d
    → day_number (first_of m) + (d - 1) ≡ day_number (record { in_month = m; day = d })
day_lem m d h = ground arith

-- What a calendar guarantees to its users: the days from the first of the month to the rate change,
-- and from there to the first of the next month, none of them empty.
pub record IsSplit (c : MeetingCalendar) : Type 0 where
  pub some_before : 1 ≤ days_before c
  pub some_after : 1 ≤ days_after c
  pub before :
      day_number (first_of c.contract_month) + days_before c ≡ day_number c.rate_effective_date
  pub after :
      day_number c.rate_effective_date + days_after c
      ≡ day_number (first_of (next_contract_month c.contract_month))
  pub splits : days_before c + days_after c ≡ total_days c
  pub within : total_days c ≤ 31

split_lem :
    (m : Month) (d : ℕ)
    → 1 ≤ m.year
    → 1 ≤ m.number
    → m.number ≤ 12
    → 2 ≤ d
    → d ≤ month_range m.year m.number
    → IsSplit
        (record { contract_month = m; rate_effective_date = record { in_month = m; day = d } })
split_lem m d era lo hi second last =
    let before = day_lem m d (omega arith) in
    let whole = month_lem m.year m.number era lo hi in
    let short = month_range-le m.year m.number in
    record {
      some_before = omega arith;
      some_after = omega arith;
      before = before;
      after = omega arith;
      splits = omega arith;
      within = short;
    }

same_month_eq : (a b : Month) → same_month a b ≡ true → a ≡ b
same_month_eq a b h =
    let years = (==_iff a.year b.year).0 (ground arith) in
    let numbers = (==_iff a.number b.number).0 (ground arith) in
    λ i. record { year = years i; number = numbers i }

accepted :
    (month : Month) (effective : Date) {c : MeetingCalendar}
    → make_calendar month effective ≡ some c
    → (same_month effective.in_month month ≡ true)
      × (2 ≤ effective.day)
      × ((record { contract_month = month; rate_effective_date = effective }) ≡ c)
unfolding make_calendar
accepted month effective made = ground arith

-- A calendar that the constructor accepts, for a date that exists, has as many days before the rate
-- change as lie between the first of its month and that date, and as many from it on as lie up to
-- the first of the next month, counted on the Gregorian calendar; both are at least one, they add
-- up to the month, and the month has at most 31 days.
pub make_calendar-IsSplit :
    (month : Month) (effective : Date) {c : MeetingCalendar}
    → is_date effective ≡ true
    → make_calendar month effective ≡ some c
    → IsSplit c
make_calendar-IsSplit month effective exists made =
    let (same, second, whole) = accepted month effective made in
    let months = same_month_eq effective.in_month month same in
    subst IsSplit whole (
      subst (λ m. IsSplit (record { contract_month = m; rate_effective_date = effective })) months
        (split_lem effective.in_month effective.day (ground arith) (ground arith) (ground arith)
          second (ground arith)))

-- The position of a month on the time line.
abbrev pub month_index : Month → ℕ
month_index m = m.year * 12 + m.number

-- From a month number between 1 and 12 the next contract month is one later on the time line, and
-- its number is again between 1 and 12.
pub next_contract_month_lem :
    (m : Month)
    → 1 ≤ m.number
    → m.number ≤ 12
    → (month_index (next_contract_month m) ≡ month_index m + 1)
      × (1 ≤ (next_contract_month m).number)
      × ((next_contract_month m).number ≤ 12)
unfolding next_contract_month
next_contract_month_lem m lo hi = ground arith
