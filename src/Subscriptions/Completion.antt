-- ===== src/Subscriptions/Completion.antt =====
-- `record_deposit_paid`, one deposit after another.
use blanco_financas_api.Prelude.{
  ℕ, zero, suc, ◌+◌, ◌-◌, ◌≤◌, ◌≡◌, refl, arith, true, false, none, some, ℤ, pos,
}
use mathlib.Core.Path.{subst}
use blanco_financas_api.Errors.{Result, ok, ◌>>=◌}
use blanco_financas_api.Calendar.{Date, IsValid, max_year}
use blanco_financas_api.DueDates.Bounds.{
  IsSafeDay, month_after, month_after-IsValid, advance_due_date_lem,
}
use blanco_financas_api.Subscriptions.{
  Subscription, active, completed, is_allowed_day, complete_if_paid, record_deposit_paid,
}

allowed-IsSafeDay : (d : ℕ) → is_allowed_day d ≡ true → IsSafeDay d
unfolding is_allowed_day
allowed-IsSafeDay d h = ground arith

-- An active subscription with `left` deposits to go, due on `t`.
pub record IsPaying (left : ℕ) (t : Date) (s : Subscription) : Type 0 where
  pub is_active : s.status ≡ active
  pub count : s.deposit_count ≡ pos (s.deposits_paid + left)
  pub due : s.next_due_date ≡ some t
  pub due_valid : IsValid t
  pub years : t.year + left ≤ max_year
  pub day : is_allowed_day s.deposit_day_of_month ≡ true

-- The entity after one more deposit, the status aside.
abbrev pub paid_once : ℕ → Date → Subscription → Subscription
paid_once now t s = record s {
  deposits_paid = s.deposits_paid + 1;
  has_overdue_deposit = false;
  overdue_marked_at = none;
  next_due_date = some (month_after t s.deposit_day_of_month);
  updated_at = now;
}

record_deposit_paid_lem :
    (now left : ℕ) (t : Date) (s : Subscription)
    → IsPaying (suc left) t s
    → record_deposit_paid now s ≡ ok (complete_if_paid now (paid_once now t s))
unfolding record_deposit_paid
record_deposit_paid_lem now left t s v =
    let safe = allowed-IsSafeDay s.deposit_day_of_month v.day in
    let next = advance_due_date_lem s.deposit_day_of_month t v.due_valid (omega arith) safe in
    ground arith

paid_once-IsPaying :
    (now left : ℕ) (t : Date) (s : Subscription)
    → IsPaying (suc left) t s
    → IsPaying left (month_after t s.deposit_day_of_month) (paid_once now t s)
paid_once-IsPaying now left t s v =
    let safe = allowed-IsSafeDay s.deposit_day_of_month v.day in
    let valid = month_after-IsValid t s.deposit_day_of_month v.due_valid (omega arith) safe in
    ground arith

complete_if_paid_early :
    (now left : ℕ) (t : Date) (s : Subscription)
    → IsPaying (suc left) t s
    → complete_if_paid now s ≡ s
unfolding complete_if_paid
complete_if_paid_early now left t s v = ground arith

complete_if_paid_last :
    (now : ℕ) (t : Date) (s : Subscription)
    → IsPaying 0 t s
    → complete_if_paid now s ≡ record s { status = completed; updated_at = now }
unfolding complete_if_paid
complete_if_paid_last now t s v = ground arith

-- `times` deposits, one after another.
pub pay_times : ℕ → ℕ → Subscription → Result Subscription
pay_times zero now s = ok s
pay_times (suc times) now s = record_deposit_paid now s >>= λ s'. pay_times times now s'

-- A subscription that is being paid, found at the end of a run.
pub record StillPaying (left : ℕ) (r : Result Subscription) : Type 0 where
  pub due_on : Date
  pub reached : Subscription
  pub returned : r ≡ ok reached
  pub paying : IsPaying left due_on reached

pay_times-StillPaying :
    (times now left total : ℕ) (t : Date) (s : Subscription)
    → total ≡ times + suc left
    → IsPaying total t s
    → StillPaying (suc left) (pay_times times now s)
unfolding pay_times
pay_times-StillPaying zero now left total t s e v =
    let e' : total ≡ suc left = omega arith in
    record { due_on = t; reached = s; returned = refl; paying = subst (λ n. IsPaying n t s) e' v }
pay_times-StillPaying (suc times) now left total t s e v =
    let rest : ℕ = times + left in
    let e' : total ≡ suc (suc rest) = omega arith in
    let v' : IsPaying (suc (suc rest)) t s = subst (λ n. IsPaying n t s) e' v in
    let w = paid_once-IsPaying now (suc rest) t s v' in
    rw
      (
        record_deposit_paid_lem now (suc rest) t s v',
        complete_if_paid_early now rest (month_after t s.deposit_day_of_month) (paid_once now t s)
            w,
      )
      (pay_times-StillPaying times now left (suc rest) (month_after t s.deposit_day_of_month)
        (paid_once now t s) (omega arith) w)

-- How a run of payments ends.
pub record IsCompleted (count : ℤ) (r : Result Subscription) : Type 0 where
  pub final : Subscription
  pub returned : r ≡ ok final
  pub status_completed : final.status ≡ completed
  pub all_paid : pos final.deposits_paid ≡ count

last_payment :
    (now : ℕ) (t : Date) (s : Subscription)
    → IsPaying 1 t s
    → IsCompleted s.deposit_count (pay_times 1 now s)
unfolding pay_times
last_payment now t s v =
    let u : Date = month_after t s.deposit_day_of_month in
    let w = paid_once-IsPaying now 0 t s v in
    rw (record_deposit_paid_lem now 0 t s v, complete_if_paid_last now u (paid_once now t s) w)
      (record {
        final = record (paid_once now t s) { status = completed; updated_at = now };
        returned = refl;
        status_completed = refl;
        all_paid = ground arith;
      })

all_payments :
    (left now : ℕ) (t : Date) (s : Subscription)
    → IsPaying (suc left) t s
    → IsCompleted s.deposit_count (pay_times (suc left) now s)
unfolding pay_times
all_payments zero now t s v = last_payment now t s v
all_payments (suc left) now t s v =
    let u : Date = month_after t s.deposit_day_of_month in
    let w = paid_once-IsPaying now (suc left) t s v in
    rw
      (
        record_deposit_paid_lem now (suc left) t s v,
        complete_if_paid_early now left u (paid_once now t s) w,
      )
      (all_payments left now u (paid_once now t s) w)

-- An active subscription with `left` deposits to go and one more, whose due date stays below the
-- last year: after `done` payments, at most `left`, each has succeeded and it is active with
-- `left - done` to go and one more; after all of them it is completed, with all deposits paid.
pub deposits_complete :
    (left done now : ℕ) (t : Date) (s : Subscription)
    → IsPaying (suc left) t s
    → done ≤ left
    → StillPaying (suc (left - done)) (pay_times done now s)
      × IsCompleted s.deposit_count (pay_times (suc left) now s)
deposits_complete left done now t s v h = (
  pay_times-StillPaying done now (left - done) (suc left) t s (omega arith) v,
  all_payments left now t s v,
)
