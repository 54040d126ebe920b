-- ===== src/Subscriptions.antt =====
-- app/domain/entities/subscription.py. A method that mutates the entity returns the new one, or the
-- exception; the clock reading of `utcnow` is its argument `now`. A percentage is a `Decimal`, which
-- is never negative here, so the two checks for a negative percentage have nothing to refuse.
pub mod Invariant
pub mod Lifecycle
pub mod Completion
use blanco_financas_api.Prelude.{
  ℕ, ◌+◌, ◌==◌, leb, if◌then◌else◌, Bool, true, false, not, ◌&&◌, ◌||◌, Option, none, some, String,
  ℤ, pos, ltb_ℤ, leb_ℤ, ◌*ℤ◌,
}
use blanco_financas_api.Errors.{
  Result, ok, err, ◌>>=◌, ◌>>◌, raise_if, or_raise, value_error, attribute_error,
}
use blanco_financas_api.Decimal.{Decimal}
use blanco_financas_api.Calendar.{Date}
use blanco_financas_api.DueDates.{compute_next_due_date, advance_due_date}

-- `ALLOWED_DEPOSIT_DAYS`
unfoldable pub is_allowed_day : ℕ → Bool
is_allowed_day d = d == 1 || d == 5 || d == 10 || d == 15 || d == 20 || d == 25

pub data SubscriptionStatus : Type 0 where
  inactive active completed cancelled : SubscriptionStatus

abbrev pub is_inactive_status : SubscriptionStatus → Bool
is_inactive_status inactive = true
is_inactive_status _ = false

abbrev pub is_active_status : SubscriptionStatus → Bool
is_active_status active = true
is_active_status _ = false

abbrev pub is_completed_status : SubscriptionStatus → Bool
is_completed_status completed = true
is_completed_status _ = false

-- `UserPlanSubscription`
pub record Subscription : Type 0 where
  pub id : ℕ
  pub user_id : ℕ
  pub plan_id : ℕ
  pub name : String
  pub target_amount_cents : ℤ
  pub deposit_count : ℤ
  pub monthly_amount_cents : ℤ
  pub admin_tax_value_cents : ℤ
  pub insurance_percent : Decimal
  pub guarantee_fund_percent : Decimal
  pub total_cost_cents : ℤ
  pub deposits_paid : ℕ
  pub deposit_day_of_month : ℕ
  pub next_due_date : Option Date
  pub has_overdue_deposit : Bool
  pub overdue_marked_at : Option ℕ
  pub covers_activation_fees : Bool
  pub status : SubscriptionStatus
  pub created_at : ℕ
  pub updated_at : ℕ

-- `_validate_invariants`, which the constructor runs
unfoldable pub validate : Subscription → Result Subscription
validate s = do
  raise_if (leb_ℤ s.target_amount_cents (pos 0)) value_error
  raise_if (ltb_ℤ s.deposit_count (pos 1)) value_error
  raise_if (leb_ℤ s.monthly_amount_cents (pos 0)) value_error
  raise_if (ltb_ℤ s.admin_tax_value_cents (pos 0)) value_error
  raise_if (ltb_ℤ s.total_cost_cents (pos 0)) value_error
  raise_if (not (is_allowed_day s.deposit_day_of_month)) value_error
  ok s

-- The arguments of `UserPlanSubscription.create`.
pub record NewSubscription : Type 0 where
  pub user_id : ℕ
  pub plan_id : ℕ
  pub target_amount_cents : ℤ
  pub deposit_count : ℤ
  pub monthly_amount_cents : ℤ
  pub admin_tax_value_cents : ℤ
  pub insurance_percent : Decimal
  pub guarantee_fund_percent : Decimal
  pub total_cost_cents : ℤ
  pub name : String
  pub deposit_day_of_month : ℕ

-- `create`, with the fresh identifier of `uuid4` as an argument
unfoldable pub create_subscription : ℕ → NewSubscription → ℕ → Result Subscription
unfolding validate
create_subscription new_id n now = validate (record {
  id = new_id;
  user_id = n.user_id;
  plan_id = n.plan_id;
  name = n.name;
  target_amount_cents = n.target_amount_cents;
  deposit_count = n.deposit_count;
  monthly_amount_cents = n.monthly_amount_cents;
  admin_tax_value_cents = n.admin_tax_value_cents;
  insurance_percent = n.insurance_percent;
  guarantee_fund_percent = n.guarantee_fund_percent;
  total_cost_cents = n.total_cost_cents;
  deposits_paid = 0;
  deposit_day_of_month = n.deposit_day_of_month;
  next_due_date = none;
  has_overdue_deposit = false;
  overdue_marked_at = none;
  covers_activation_fees = true;
  status = inactive;
  created_at = now;
  updated_at = now;
})

unfoldable pub activate : ℕ → Date → ℕ → Subscription → Result Subscription
activate deposit_day_of_month today_local now s = do
  raise_if (not (is_inactive_status s.status)) value_error
  due ← compute_next_due_date deposit_day_of_month today_local
  ok (record s {
    deposit_day_of_month = deposit_day_of_month;
    next_due_date = some due;
    status = active;
    updated_at = now;
  })

unfoldable pub set_deposit_day : ℕ → Date → ℕ → Subscription → Result Subscription
set_deposit_day day today_local now s = do
  raise_if (not (is_allowed_day day)) value_error
  due ← compute_next_due_date day today_local
  ok (record s { deposit_day_of_month = day; next_due_date = some due; updated_at = now })

-- The entity, and whether the flag was changed. `now_utc` is the caller's reading, if it has one.
unfoldable pub mark_overdue : Option ℕ → ℕ → Subscription → Subscription × Bool
mark_overdue now_utc now s = if s.has_overdue_deposit then (s, false) else (
  record s {
    has_overdue_deposit = true;
    overdue_marked_at = some (elim now_utc [ none ↦ now | some t ↦ t ]);
    updated_at = now;
  },
  true,
)

-- A subscription with no due date has no month to advance: `None.month` raises.
unfoldable pub clear_overdue_and_advance : ℕ → Subscription → Result Subscription
clear_overdue_and_advance now s = do
  current ← or_raise s.next_due_date attribute_error
  due ← advance_due_date s.deposit_day_of_month current
  ok (record s {
    has_overdue_deposit = false;
    overdue_marked_at = none;
    next_due_date = some due;
    updated_at = now;
  })

unfoldable pub is_fully_paid : Subscription → Bool
is_fully_paid s = leb_ℤ s.deposit_count (pos s.deposits_paid)

-- The last assignments of `record_deposit_paid`.
unfoldable pub complete_if_paid : ℕ → Subscription → Subscription
unfolding is_fully_paid
complete_if_paid now s =
    if is_fully_paid s then record s { status = completed; updated_at = now } else s

unfoldable pub record_deposit_paid : ℕ → Subscription → Result Subscription
unfolding is_fully_paid complete_if_paid clear_overdue_and_advance
record_deposit_paid now s = do
  raise_if (not (is_active_status s.status)) value_error
  raise_if (is_fully_paid s) value_error
  advanced ← clear_overdue_and_advance now (record s { deposits_paid = s.deposits_paid + 1 })
  ok (complete_if_paid now advanced)

unfoldable pub current_installment_number : Subscription → ℕ
current_installment_number s = s.deposits_paid + 1

unfoldable pub total_deposited_cents : Subscription → ℤ
total_deposited_cents s = pos s.deposits_paid *ℤ s.monthly_amount_cents

unfoldable pub cancel_subscription : ℕ → Subscription → Result Subscription
cancel_subscription now s = do
  raise_if (not (is_active_status s.status || is_inactive_status s.status)) value_error
  ok (record s { status = cancelled; updated_at = now })

unfoldable pub complete_subscription : ℕ → Subscription → Result Subscription
complete_subscription now s = do
  raise_if (not (is_active_status s.status)) value_error
  ok (record s { status = completed; updated_at = now })
