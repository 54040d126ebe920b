-- ===== src/Contracts/Ends.antt =====
-- The end of an accepted contract.
use blanco_financas_api.Prelude.{
  ℕ, ◌/◌, ◌%◌, min, ◌+◌, ◌-◌, ◌<◌, ◌≡◌, refl, arith, true, String, some, pos,
}
use blanco_financas_api.Errors.{ok}
use blanco_financas_api.Calendar.{Date, IsValid, date, make_date, max_year}
use blanco_financas_api.DueDates.Bounds.{month_index, days_in_month_least}
use blanco_financas_api.Contracts.{Contract, Moment, accept, end_of, is_pending, active, is_active}

-- The end of a contract that starts on a date and lasts so many months.
pub record IsEnd (start : Date) (months : ℕ) (ends : Date) : Type 0 where
  pub valid : IsValid ends
  pub months_later : month_index ends ≡ month_index start + months
  pub same_day : ends.day ≡ min start.day 28

end_date : Date → ℕ → Date
end_date start d =
    date (start.year + (start.month + d - 1) / 12) ((start.month + d - 1) % 12 + 1)
      (min start.day 28)

end_of_lem :
    (start : Date) (d : ℕ)
    → IsValid start
    → start.year + (start.month + d) / 12 < max_year
    → end_of start (pos d) ≡ ok (end_date start d)
unfolding end_of make_date end_date
end_of_lem start d v h = ground (
  arith,
  v.month_from,
  days_in_month_least (start.year + (start.month + d - 1) / 12) ((start.month + d - 1) % 12 + 1),
)

end_date-IsEnd :
    (start : Date) (d : ℕ)
    → IsValid start
    → start.year + (start.month + d) / 12 < max_year
    → IsEnd start d (end_date start d)
unfolding end_date
end_date-IsEnd start d v h =
    let least =
      days_in_month_least (start.year + (start.month + d - 1) / 12)
        ((start.month + d - 1) % 12 + 1) in
    record {
      valid = record {
        year_from = omega (arith, v.year_from);
        year_to = omega (arith, v.year_from);
        month_from = omega arith;
        month_to = omega arith;
        day_from = omega (arith, v.day_from);
        day_to = omega (arith, least);
      };
      months_later = omega (arith, v.month_from);
      same_day = refl;
    }

-- The acceptance of a pending contract on a valid date goes through, where it ends before the last
-- year: the contract is active from then on and ends on a date, as many months later as the plan
-- lasts, on the same day of the month or on the 28th where that is earlier.
pub accept_ends :
    (path : String) (d : ℕ) (now : Moment) (c : Contract)
    → is_pending c.status ≡ true
    → IsValid now.day
    → now.day.year + (now.day.month + d) / 12 < max_year
    → (c' : Contract) × (ends : Date) × (accept path (pos d) now c ≡ ok c')
      × (is_active c'.status ≡ true)
      × (c'.start_date ≡ some now)
      × (c'.end_date ≡ some ends)
      × IsEnd now.day d ends
unfolding accept
accept_ends path d now c p v h = (
  record c {
    status = active;
    pdf_storage_path = some path;
    accepted_at = some now;
    start_date = some now;
    end_date = some (end_date now.day d);
    updated_at = now.micros;
  },
  end_date now.day d,
  rw (p, end_of_lem now.day d v h) refl,
  refl,
  refl,
  refl,
  end_date-IsEnd now.day d v h,
)
