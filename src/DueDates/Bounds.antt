-- ===== src/DueDates/Bounds.antt =====
-- app/domain/services/due_date_service.py: the due dates as calendar dates.
use blanco_financas_api.Prelude.{
  ℕ, ◌+◌, ◌*◌, ◌≤◌, ◌<◌, ◌≡◌, arith, leb, if◌then◌else◌, Bool-cases, inl, inr, ◌==◌,
}
use blanco_financas_api.Errors.{ok}
use blanco_financas_api.Calendar.{Date, date, IsValid, make_date, days_in_month, max_year, serial}
use blanco_financas_api.DueDates.{compute_next_due_date, advance_due_date, next_month}

-- A day of the month that every month has.
pub record IsSafeDay (d : ℕ) : Type 0 where
  pub from_one : 1 ≤ d
  pub to_28 : d ≤ 28

pub days_in_month_least : (y m : ℕ) → 28 ≤ days_in_month y m
unfolding days_in_month
days_in_month_least y m = ground arith

pub days_in_month_most : (y m : ℕ) → days_in_month y m ≤ 31
unfolding days_in_month
days_in_month_most y m = ground arith

pub make_date_lem : (t : Date) → IsValid t → make_date t.year t.month t.day ≡ ok t
unfolding make_date
make_date_lem t v = ground arith

-- The month after, and the same day.
abbrev pub month_after : Date → ℕ → Date
month_after t d = if t.month == 12 then date (t.year + 1) 1 d else date t.year (t.month + 1) d

pub month_after-IsValid :
    (t : Date) (d : ℕ) → IsValid t → t.year < max_year → IsSafeDay d → IsValid (month_after t d)
month_after-IsValid t d v y s =
    ground (arith, days_in_month_least (t.year + 1) 1, days_in_month_least t.year (t.month + 1))

next_month_lem :
    (t : Date) (d : ℕ)
    → IsValid t
    → t.year < max_year
    → IsSafeDay d
    → next_month t d ≡ ok (month_after t d)
unfolding next_month
next_month_lem t d v y s =
    let valid = month_after-IsValid t d v y s in
    elim (Bool-cases (t.month == 12)) [
      | inl last ↦ rw last (make_date_lem (date (t.year + 1) 1 d) (rw last at valid))
      | inr other ↦ rw other (make_date_lem (date t.year (t.month + 1) d) (rw other at valid))
    ]

-- The due date of a given day of the month, as a function.
abbrev pub due_on : ℕ → Date → Date
due_on d t = if leb t.day d then date t.year t.month d else month_after t d

this_month-IsValid : (t : Date) (d : ℕ) → IsValid t → IsSafeDay d → IsValid (date t.year t.month d)
this_month-IsValid t d v s = ground (arith, days_in_month_least t.year t.month)

compute_next_due_date_lem :
    (d : ℕ) (t : Date)
    → IsValid t
    → t.year < max_year
    → IsSafeDay d
    → compute_next_due_date d t ≡ ok (due_on d t)
unfolding compute_next_due_date
compute_next_due_date_lem d t v y s = elim (Bool-cases (leb t.day d)) [
  | inl now ↦ rw now (make_date_lem (date t.year t.month d) (this_month-IsValid t d v s))
  | inr later ↦ rw later (next_month_lem t d v y s)
]

due_on-IsValid :
    (d : ℕ) (t : Date) → IsValid t → t.year < max_year → IsSafeDay d → IsValid (due_on d t)
due_on-IsValid d t v y s = elim (Bool-cases (leb t.day d)) [
  | inl now ↦ rw now (this_month-IsValid t d v s)
  | inr later ↦ rw later (month_after-IsValid t d v y s)
]

-- A date on or after `t` that falls on day `d` of its month.
pub record IsDue (d : ℕ) (t u : Date) : Type 0 where
  pub on_day : u.day ≡ d
  pub not_before : serial t ≤ serial u

due_on-IsDue : (d : ℕ) (t : Date) → IsValid t → IsDue d t (due_on d t)
due_on-IsDue d t v = ground (arith, days_in_month_most t.year t.month)

due_on_least :
    (d : ℕ) (t u : Date) → IsValid t → IsValid u → IsDue d t u → serial (due_on d t) ≤ serial u
due_on_least d t u v w h =
    ground (arith, days_in_month_most t.year t.month, days_in_month_most u.year u.month)

pub compute_next_due_date-IsDue :
    (d : ℕ) (today : Date)
    → IsValid today
    → today.year < max_year
    → IsSafeDay d
    → (due : Date) × (compute_next_due_date d today ≡ ok due) × IsValid due × IsDue d today due
compute_next_due_date-IsDue d today v y s = (
  due_on d today,
  compute_next_due_date_lem d today v y s,
  due_on-IsValid d today v y s,
  due_on-IsDue d today v,
)

-- For a day from 1 to 28 and a valid date before the last year, the next due date is computed; it
-- is a valid date on the wanted day, not before today, and no later than any other such date `u`.
pub compute_next_due_date_least :
    (d : ℕ) (today u : Date)
    → IsValid today
    → today.year < max_year
    → IsSafeDay d
    → IsValid u
    → IsDue d today u
    → (due : Date) × (compute_next_due_date d today ≡ ok due)
      × IsValid due
      × IsDue d today due
      × (serial due ≤ serial u)
compute_next_due_date_least d today u v y s w h = (
  due_on d today,
  compute_next_due_date_lem d today v y s,
  due_on-IsValid d today v y s,
  due_on-IsDue d today v,
  due_on_least d today u v w h,
)

pub advance_due_date_lem :
    (d : ℕ) (t : Date)
    → IsValid t
    → t.year < max_year
    → IsSafeDay d
    → advance_due_date d t ≡ ok (month_after t d)
unfolding advance_due_date
advance_due_date_lem d t v y s = next_month_lem t d v y s

abbrev pub month_index : Date → ℕ
month_index t = t.year * 12 + t.month

-- For a day from 1 to 28 and a valid date before the last year, the due date moves on to the wanted
-- day of exactly the next calendar month, which is a valid date.
pub advance_due_date_next_month :
    (d : ℕ) (current : Date)
    → IsValid current
    → current.year < max_year
    → IsSafeDay d
    → (due : Date) × (advance_due_date d current ≡ ok due)
      × IsValid due
      × (due.day ≡ d)
      × (month_index due ≡ month_index current + 1)
advance_due_date_next_month d current v y s = (
  month_after current d,
  advance_due_date_lem d current v y s,
  month_after-IsValid current d v y s,
  ground arith,
  ground arith,
)
