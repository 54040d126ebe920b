-- ===== src/Examples/Calculators.antt =====
-- Calculators at concrete inputs.
use blanco_financas_api.Yields.{complete_months}
use blanco_financas_api.Yields.Months.{IsAnniversary, complete_months_count}
use blanco_financas_api.Prelude.{ℕ, ◌+◌, ◌*◌, ◌≤◌, ◌<◌, ◌≡◌, refl, arith, pos, ◌⊎◌}
use blanco_financas_api.Errors.{ok}
use blanco_financas_api.Decimal.{decimal}
use blanco_financas_api.Money.{money, calculate_pix_fee}
use blanco_financas_api.Money.PixFee.{calculate_pix_fee_nearest}
use blanco_financas_api.Installments.{FirstInstallmentBreakdown, calculate_first_installment}
use blanco_financas_api.Installments.Shares.{IsFundoPercentage}
use blanco_financas_api.Installments.Split.{
  plain_calculator, first_sum, calculate_first_installment_conserves,
}
use blanco_financas_api.Calendar
use blanco_financas_api.Calendar.{Date, date, IsValid, serial}
use blanco_financas_api.DueDates.{compute_next_due_date}
use blanco_financas_api.DueDates.Bounds.{IsSafeDay, IsDue, compute_next_due_date_least}

calculate_pix_fee_nearest_example :
    (fee : ℕ) × (calculate_pix_fee (pos 10000) ≡ ok fee)
    × (10000 * fee ≤ 99 * 10000 + 5000)
    × (99 * 10000 < 10000 * fee + 5000)
calculate_pix_fee_nearest_example = calculate_pix_fee_nearest 10000 (omega arith)

-- 1.1 %
fundo_percentage : IsFundoPercentage (decimal 11 1)
fundo_percentage = record { at_least = omega arith; at_most = omega arith; digits = omega arith }

calculate_first_installment_conserves_example :
    (b : FirstInstallmentBreakdown) × (calculate_first_installment
        (plain_calculator (decimal 11 1))
        (money 1)
      ≡ ok b)
    × (first_sum b ≡ 1)
calculate_first_installment_conserves_example =
    calculate_first_installment_conserves (decimal 11 1) 1 fundo_percentage (omega arith)

day_10 : IsSafeDay 10
day_10 = record { from_one = omega arith; to_28 = omega arith }

dates-IsValid : IsValid (date 2024 3 12) × IsValid (date 2024 4 10)
unfolding Calendar.days_in_month
dates-IsValid = (
  record {
    year_from = omega arith;
    year_to = omega arith;
    month_from = omega arith;
    month_to = omega arith;
    day_from = omega arith;
    day_to = omega arith;
  },
  record {
    year_from = omega arith;
    year_to = omega arith;
    month_from = omega arith;
    month_to = omega arith;
    day_from = omega arith;
    day_to = omega arith;
  },
)

compute_next_due_date_least_example :
    (due : Date) × (compute_next_due_date 10 (date 2024 3 12) ≡ ok due)
    × IsValid due
    × IsDue 10 (date 2024 3 12) due
    × (serial due ≤ serial (date 2024 4 10))
compute_next_due_date_least_example =
    compute_next_due_date_least 10 (date 2024 3 12) (date 2024 4 10) dates-IsValid.0 (omega arith)
      day_10 dates-IsValid.1 (record { on_day = refl; not_before = omega arith })

january_31 : IsValid (date 2024 1 31)
unfolding Calendar.days_in_month
january_31 = record {
  year_from = omega arith;
  year_to = omega arith;
  month_from = omega arith;
  month_to = omega arith;
  day_from = omega arith;
  day_to = omega arith;
}

february_29 : IsValid (date 2024 2 29)
unfolding Calendar.days_in_month Calendar.is_leap
february_29 = record {
  year_from = omega arith;
  year_to = omega arith;
  month_from = omega arith;
  month_to = omega arith;
  day_from = omega arith;
  day_to = omega arith;
}

one_month : IsAnniversary (date 2024 1 31) 1 (date 2024 2 29)
unfolding Calendar.days_in_month Calendar.is_leap
one_month = record { months_later = refl; same_day = refl }

complete_months_count_example :
    (months : ℕ) × (complete_months (date 2024 1 31) (date 2024 2 29) ≡ ok months)
    × (((1 ≤ months) × (serial (date 2024 2 29) ≤ serial (date 2024 2 29)))
        ⊎ ((months < 1) × (serial (date 2024 2 29) < serial (date 2024 2 29))))
unfolding Calendar.ltb_date
complete_months_count_example =
    complete_months_count (date 2024 1 31) (date 2024 2 29) (date 2024 2 29) 1 january_31
      february_29 february_29 (omega arith) refl one_month
