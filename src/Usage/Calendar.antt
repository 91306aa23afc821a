-- ===== src/Usage/Calendar.antt =====
-- What internal/gateway/usage.go uses of Go's `time`: civil dates of one location, their order as
-- midnights, and their weekdays. Day 0 is the first of January of year 0, a Saturday.
use valyrium.Base.{
  ==_iff, Bool, arith, dec_lt, if◌then◌else◌, ltb, not, suc, true, zero, ℕ, ◌%◌, ◌&&◌, ◌+◌, ◌-◌,
  ◌<◌, ◌==◌, ◌||◌, ◌↔◌, ◌∙◌, ◌≡◌, ◌≤◌,
}

pub record Date : Type 0 where
  pub year : ℕ
  pub month : ℕ
  pub day_of_month : ℕ

unfoldable pub same_date : Date → Date → Bool
same_date d e = d.year == e.year && (d.month == e.month && d.day_of_month == e.day_of_month)

pub same_date_iff : (d e : Date) → (same_date d e ≡ true) ↔ (d ≡ e)
unfolding same_date
same_date_iff d e = grind (arith, ==_iff)

unfoldable pub is_leap : ℕ → Bool
is_leap y = y % 400 == 0 || (y % 4 == 0 && not (y % 100 == 0))

-- The months from January, numbered from 0.
unfoldable pub days_in_month : Bool → ℕ → ℕ
days_in_month leap m =
    if m == 1
    then (if leap then 29 else 28)
    else if m == 3 || (m == 5 || (m == 8 || m == 10))
    then 30
    else 31

-- The days of the first months of a year, and of the first years.
unfoldable pub days_of_months : Bool → ℕ → ℕ
days_of_months leap zero = 0
days_of_months leap (suc m) = days_of_months leap m + days_in_month leap m

unfoldable pub days_of_years : ℕ → ℕ
days_of_years zero = 0
days_of_years (suc y) = days_of_years y + days_of_months (is_leap y) 12

-- `time.Date(d.Year, d.Month, d.Day, 0, 0, 0, 0, loc)`, as a number of days.
unfoldable pub midnight : Date → ℕ
midnight d =
    days_of_years d.year + days_of_months (is_leap d.year) (d.month - 1) + (d.day_of_month - 1)

-- `Weekday()`: Sunday is 0.
unfoldable pub weekday : Date → ℕ
weekday d = (midnight d + 6) % 7

pub record IsDate (d : Date) : Type 0 where
  pub month_low : 1 ≤ d.month
  pub month_high : d.month ≤ 12
  pub day_low : 1 ≤ d.day_of_month
  pub day_high : d.day_of_month ≤ days_in_month (is_leap d.year) (d.month - 1)

-- The midnight of a month's first day.
unfoldable pub first_of_month : ℕ → ℕ → ℕ
first_of_month y m = days_of_years y + days_of_months (is_leap y) (m - 1)

days_of_months_le :
    (leap : Bool) (m n : ℕ)
    → m < n
    → days_of_months leap m + days_in_month leap m ≤ days_of_months leap n
unfolding days_of_months
days_of_months_le leap m zero h = absurd (omega arith)
days_of_months_le leap m (suc n) h = elim (dec_lt m n) [
  | yes lt ↦ omega (arith, days_of_months_le leap m n lt)
  | no ge ↦ let e : m ≡ n = omega arith in rw e (omega arith)
]

days_of_years_le :
    (x y : ℕ) → x < y → days_of_years x + days_of_months (is_leap x) 12 ≤ days_of_years y
unfolding days_of_years
days_of_years_le x zero h = absurd (omega arith)
days_of_years_le x (suc y) h = elim (dec_lt x y) [
  | yes lt ↦ omega (arith, days_of_years_le x y lt)
  | no ge ↦ let e : x ≡ y = omega arith in rw e (omega arith)
]

-- A date falls before the first day of any later month.
midnight-first_of_month_lt :
    (d : Date) (m : ℕ)
    → IsDate d
    → d.month < m
    → m ≤ 13
    → midnight d < days_of_years d.year + days_of_months (is_leap d.year) (m - 1)
unfolding midnight
midnight-first_of_month_lt d m v h k = omega (
  arith,
  days_of_months_le (is_leap d.year) (d.month - 1) (m - 1) (omega (arith, v.month_low)),
  v.month_low,
  v.day_low,
  v.day_high,
)

-- Earlier by year and month.
unfoldable pub before_month : Date → ℕ → ℕ → Bool
before_month d y m = ltb d.year y || (d.year == y && ltb d.month m)

same_year-before_month :
    (d : Date) (m : ℕ)
    → IsDate d
    → 1 ≤ m
    → m ≤ 12
    → ltb (midnight d) (first_of_month d.year m) ≡ ltb d.month m
unfolding first_of_month midnight
same_year-before_month d m v low high = elim (dec_lt d.month m) [
  | yes lt ↦ ground (
    arith,
    days_of_months_le (is_leap d.year) (d.month - 1) (m - 1) (omega (arith, v.month_low)),
    v.month_low,
    v.day_low,
    v.day_high,
  )
  | no ge ↦ elim (dec_lt m d.month) [
    | yes gt ↦
        ground (arith, days_of_months_le (is_leap d.year) (m - 1) (d.month - 1) (omega (arith, gt)))
    | no le ↦ let e : m ≡ d.month = omega arith in rw e (ground arith)
  ]
]

-- A date is before the first of a month exactly if its year and month are.
pub first_of_month-before_month :
    (d : Date) (y m : ℕ)
    → IsDate d
    → 1 ≤ m
    → m ≤ 12
    → ltb (midnight d) (first_of_month y m) ≡ before_month d y m
unfolding before_month first_of_month
first_of_month-before_month d y m v low high = elim (dec_lt d.year y) [
  | yes lt ↦ ground (
    arith,
    days_of_years_le d.year y lt,
    midnight-first_of_month_lt d 13 v (omega (arith, v.month_high)) (omega arith),
  )
  | no ge ↦ elim (dec_lt y d.year) [
    | yes gt ↦
        unfold midnight in
        ground (
          arith,
          days_of_years_le y d.year gt,
          days_of_months_le (is_leap y) (m - 1) 12 (omega arith),
        )
    | no le ↦
        let e : y ≡ d.year = omega arith in
        rw e (same_year-before_month d m v low high ∙ ground arith)
  ]
]
