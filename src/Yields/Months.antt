-- ===== src/Yields/Months.antt =====
-- `_calculate_complete_months`: the complete months of a deposit and its anniversaries.
use mathlib.Core.Path.{ap₂}
use blanco_financas_api.Prelude.{
  ℕ, ◌+◌, ◌≤◌, ◌<◌, ◌≡◌, refl, arith, min, ◌-◌, Bool-cases, false, if◌then◌else◌, ◌⊎◌, inl, inr,
  ltb,
}
use blanco_financas_api.Errors.{ok}
use blanco_financas_api.Calendar.{
  Date, IsValid, days_in_month, ltb_date, make_date, max_year, serial,
}
use blanco_financas_api.DueDates.Bounds.{month_index, days_in_month_least, days_in_month_most}
use blanco_financas_api.Yields.{complete_months, month_length, months_apart}

-- The `n`-th anniversary of a date: `n` months later, on the same day or the last one of the month.
pub record IsAnniversary (start : Date) (n : ℕ) (t : Date) : Type 0 where
  pub months_later : month_index t ≡ month_index start + n
  pub same_day : t.day ≡ min start.day (days_in_month t.year t.month)

month_length_lem :
    (t : Date)
    → IsValid t
    → t.year < max_year
    → month_length t.year t.month ≡ ok (days_in_month t.year t.month)
unfolding month_length make_date
month_length_lem t v y =
    ground (arith, days_in_month_least (t.year + 1) 1, days_in_month_least t.year (t.month + 1))

same_month :
    (a b : Date)
    → IsValid a
    → IsValid b
    → month_index a ≡ month_index b
    → days_in_month a.year a.month ≡ days_in_month b.year b.month
same_month a b v w h =
    let years : a.year ≡ b.year =
      omega (arith, v.month_from, v.month_to, w.month_from, w.month_to, h) in
    let months : a.month ≡ b.month = omega arith in ap₂ days_in_month years months

-- The complete months as a number.
abbrev months_of : Date → Date → ℕ
months_of start end =
    if ltb end.day (min start.day (days_in_month end.year end.month))
    then months_apart start end - 1
    else months_apart start end

complete_months_lem :
    (start end : Date)
    → IsValid end
    → end.year < max_year
    → ltb_date end start ≡ false
    → complete_months start end ≡ ok (months_of start end)
unfolding complete_months
complete_months_lem start end v y h = rw (h, month_length_lem end v y) refl

not_earlier : (a b : Date) → IsValid a → IsValid b → ltb_date b a ≡ false → serial a ≤ serial b
unfolding ltb_date
not_earlier a b v w h =
    ground (arith, days_in_month_most a.year a.month, days_in_month_most b.year b.month)

reached :
    (start end t : Date) (n : ℕ)
    → IsValid start
    → IsValid end
    → IsValid t
    → serial start ≤ serial end
    → IsAnniversary start n t
    → ((n ≤ months_of start end) × (serial t ≤ serial end))
      ⊎ ((months_of start end < n) × (serial end < serial t))
reached start end t n u v w h a =
    let most_t = days_in_month_most t.year t.month in
    let most_end = days_in_month_most end.year end.month in
    elim (Bool-cases (ltb (month_index t) (month_index end))) [
      | inl before ↦ inl (ground arith, ground arith)
      | inr not_before ↦ elim (Bool-cases (ltb (month_index end) (month_index t))) [
        | inl after ↦ inr (ground arith, ground arith)
        | inr not_after ↦
            let e : month_index t ≡ month_index end = ground arith in
            let d = same_month t end w v e in ground arith
      ]
    ]

-- For valid dates and an end before the last year, not before the start, the complete months are
-- computed, and they count the anniversaries that were reached: the `n`-th anniversary `t` of the
-- start is on or before the end where `n` is at most that number, and after the end where it is more.
pub complete_months_count :
    (start end t : Date) (n : ℕ)
    → IsValid start
    → IsValid end
    → IsValid t
    → end.year < max_year
    → ltb_date end start ≡ false
    → IsAnniversary start n t
    → (months : ℕ) × (complete_months start end ≡ ok months)
      × (((n ≤ months) × (serial t ≤ serial end)) ⊎ ((months < n) × (serial end < serial t)))
complete_months_count start end t n u v w y h a = (
  months_of start end,
  complete_months_lem start end v y h,
  reached start end t n u v w (not_earlier start end u v h) a,
)
