-- ===== src/DueDates.antt =====
-- app/domain/services/due_date_service.py.
pub mod Bounds
use blanco_financas_api.Prelude.{ℕ, ◌+◌, leb, ◌==◌, if◌then◌else◌}
use blanco_financas_api.Errors.{Result}
use blanco_financas_api.Calendar.{Date, make_date}

-- `_next_month`
unfoldable pub next_month : Date → ℕ → Result Date
next_month ref day =
    if ref.month == 12
    then make_date (ref.year + 1) 1 day
    else make_date ref.year (ref.month + 1) day

-- `today.replace(day=day_of_month)` builds the date anew.
unfoldable pub compute_next_due_date : ℕ → Date → Result Date
unfolding next_month
compute_next_due_date day_of_month today =
    if leb today.day day_of_month
    then make_date today.year today.month day_of_month
    else next_month today day_of_month

unfoldable pub advance_due_date : ℕ → Date → Result Date
unfolding next_month
advance_due_date day_of_month current_due = next_month current_due day_of_month
