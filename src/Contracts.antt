-- ===== src/Contracts.antt =====
-- app/domain/entities/contract.py. The date of a moment is kept beside it, and the end of a
-- contract, a midnight, is a date.
pub mod Ends
use blanco_financas_api.Prelude.{
  ℕ, suc, ◌+◌, ◌-◌, ◌*◌, ◌/◌, ◌%◌, min, Bool, true, false, not, Option, none, some, String, ℤ, pos,
  negsuc,
}
use blanco_financas_api.Errors.{Result, ok, err, ◌>>=◌, ◌>>◌, raise_if, value_error}
use blanco_financas_api.Calendar.{Date, make_date}

pub data ContractStatus : Type 0 where
  pending active completed cancelled : ContractStatus

abbrev pub is_pending : ContractStatus → Bool
is_pending pending = true
is_pending _ = false

abbrev pub is_active : ContractStatus → Bool
is_active active = true
is_active _ = false

abbrev pub is_completed : ContractStatus → Bool
is_completed completed = true
is_completed _ = false

-- A reading of `utcnow`, with its date.
pub record Moment : Type 0 where
  pub micros : ℕ
  pub day : Date

pub record Contract : Type 0 where
  pub id : ℕ
  pub user_id : ℕ
  pub plan_id : ℕ
  pub status : ContractStatus
  pub pdf_storage_path : Option String
  pub accepted_at : Option Moment
  pub start_date : Option Moment
  pub end_date : Option Date
  pub created_at : ℕ
  pub updated_at : ℕ

-- `Contract.create`
unfoldable pub create_contract : ℕ → ℕ → ℕ → ℕ → Contract
create_contract new_id user_id plan_id now = record {
  id = new_id;
  user_id = user_id;
  plan_id = plan_id;
  status = pending;
  pdf_storage_path = none;
  accepted_at = none;
  start_date = none;
  end_date = none;
  created_at = now;
  updated_at = now;
}

-- The date of `end_date`. Python's `//` and `%` round down: for a negative duration, of
-- `negsuc n`, the years are counted down from `n + 2` years before.
unfoldable pub end_of : Date → ℤ → Result Date
end_of start (pos duration) =
    let months = start.month + duration - 1 in
    make_date (start.year + months / 12) (months % 12 + 1) (min start.day 28)
end_of start (negsuc n) =
    let months = start.month + 12 * (n + 2) - (n + 2) in
    make_date (start.year + months / 12 - (n + 2)) (months % 12 + 1) (min start.day 28)

unfoldable pub accept : String → ℤ → Moment → Contract → Result Contract
unfolding end_of
accept pdf_storage_path duration_months now c = do
  raise_if (not (is_pending c.status)) value_error
  ends ← end_of now.day duration_months
  ok (record c {
    status = active;
    pdf_storage_path = some pdf_storage_path;
    accepted_at = some now;
    start_date = some now;
    end_date = some ends;
    updated_at = now.micros;
  })

-- `Contract.complete`
unfoldable pub complete_contract : ℕ → Contract → Result Contract
complete_contract now c = do
  raise_if (not (is_active c.status)) value_error
  ok (record c { status = completed; updated_at = now })

-- `Contract.cancel`
unfoldable pub cancel_contract : ℕ → Contract → Result Contract
cancel_contract now c = do
  raise_if (is_completed c.status) value_error
  ok (record c { status = cancelled; updated_at = now })
