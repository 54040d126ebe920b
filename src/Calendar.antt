-- ===== src/Calendar.antt =====
-- The parts of Python's `datetime.date` that app/ uses: proleptic Gregorian dates of the years 1 to
-- 9999, and their order. A moment of a clock (`datetime`) is a number of microseconds.
use blanco_financas_api.Prelude.{
  ℕ, ◌+◌, ◌*◌, ◌%◌, ◌≤◌, Bool, true, false, not, ◌&&◌, ◌||◌, ltb, leb, ◌==◌, if◌then◌else◌,
}
use blanco_financas_api.Errors.{Result, ok, err, value_error}

pub record Date : Type 0 where
  pub year : ℕ
  pub month : ℕ
  pub day : ℕ

abbrev pub date : ℕ → ℕ → ℕ → Date
date in_year in_month on_day = record { year = in_year; month = in_month; day = on_day }

unfoldable pub is_leap : ℕ → Bool
is_leap y = y % 4 == 0 && (not (y % 100 == 0) || y % 400 == 0)

unfoldable pub days_in_month : ℕ → ℕ → ℕ
days_in_month y m =
    if m == 2
    then (if is_leap y then 29 else 28)
    else if m == 4 || m == 6 || m == 9 || m == 11
    then 30
    else 31

abbrev pub max_year : ℕ
max_year = 9999

-- A date that the constructor accepts.
pub record IsValid (t : Date) : Type 0 where
  pub year_from : 1 ≤ t.year
  pub year_to : t.year ≤ max_year
  pub month_from : 1 ≤ t.month
  pub month_to : t.month ≤ 12
  pub day_from : 1 ≤ t.day
  pub day_to : t.day ≤ days_in_month t.year t.month

-- `date(y, m, d)`
unfoldable pub make_date : ℕ → ℕ → ℕ → Result Date
make_date y m d =
    if leb 1 y && leb y max_year && leb 1 m && leb m 12 && leb 1 d && leb d (days_in_month y m)
    then ok (date y m d)
    else err value_error

-- `a < b`
unfoldable pub ltb_date : Date → Date → Bool
ltb_date a b =
    if ltb a.year b.year
    then true
    else if ltb b.year a.year
    then false
    else if ltb a.month b.month
    then true
    else if ltb b.month a.month
    then false
    else ltb a.day b.day

-- Month and day as one number in which `<` is the order of the dates.
abbrev pub serial : Date → ℕ
serial t = t.year * 372 + t.month * 31 + t.day
