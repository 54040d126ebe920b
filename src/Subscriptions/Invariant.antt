-- ===== src/Subscriptions/Invariant.antt =====
-- What holds of every subscription that the entity's own operations build.
use blanco_financas_api.Prelude.{ℕ, ◌≡◌, arith, true, Option, is_some, pos, ◌≤ℤ◌, ◌<ℤ◌}
use blanco_financas_api.Errors.{ok}
use blanco_financas_api.Calendar.{Date}
use blanco_financas_api.Subscriptions.{
  Subscription, inactive, active, NewSubscription, is_allowed_day, create_subscription, activate,
  set_deposit_day, mark_overdue, clear_overdue_and_advance, record_deposit_paid,
  cancel_subscription, complete_subscription,
}

pub record IsSound (s : Subscription) : Type 0 where
  pub target_positive : pos 0 <ℤ s.target_amount_cents
  pub count_positive : pos 1 ≤ℤ s.deposit_count
  pub monthly_positive : pos 0 <ℤ s.monthly_amount_cents
  pub admin_tax_nonneg : pos 0 ≤ℤ s.admin_tax_value_cents
  pub total_cost_nonneg : pos 0 ≤ℤ s.total_cost_cents
  pub day_allowed : is_allowed_day s.deposit_day_of_month ≡ true
  pub paid_within : pos s.deposits_paid ≤ℤ s.deposit_count
  pub unpaid_when_inactive : s.status ≡ inactive → s.deposits_paid ≡ 0
  pub due_when_active : s.status ≡ active → is_some s.next_due_date ≡ true
  pub marked_exactly : is_some s.overdue_marked_at ≡ s.has_overdue_deposit

pub create_subscription-IsSound :
    (new_id now : ℕ) (n : NewSubscription) {s : Subscription}
    → create_subscription new_id n now ≡ ok s
    → IsSound s
unfolding create_subscription
create_subscription-IsSound new_id now n {s} h = ground arith

pub activate-IsSound :
    (day now : ℕ) (today : Date) (s : Subscription) {s' : Subscription}
    → IsSound s
    → is_allowed_day day ≡ true
    → activate day today now s ≡ ok s'
    → IsSound s'
unfolding activate
activate-IsSound day now today s {s'} v a h = ground arith

pub set_deposit_day-IsSound :
    (day now : ℕ) (today : Date) (s : Subscription) {s' : Subscription}
    → IsSound s
    → set_deposit_day day today now s ≡ ok s'
    → IsSound s'
unfolding set_deposit_day
set_deposit_day-IsSound day now today s {s'} v h = ground arith

pub mark_overdue-IsSound :
    (now_utc : Option ℕ) (now : ℕ) (s : Subscription)
    → IsSound s
    → IsSound (mark_overdue now_utc now s).0
unfolding mark_overdue
mark_overdue-IsSound now_utc now s v = ground arith

pub clear_overdue_and_advance-IsSound :
    (now : ℕ) (s : Subscription) {s' : Subscription}
    → IsSound s
    → clear_overdue_and_advance now s ≡ ok s'
    → IsSound s'
unfolding clear_overdue_and_advance
clear_overdue_and_advance-IsSound now s {s'} v h = ground arith

pub record_deposit_paid-IsSound :
    (now : ℕ) (s : Subscription) {s' : Subscription}
    → IsSound s
    → record_deposit_paid now s ≡ ok s'
    → IsSound s'
unfolding record_deposit_paid
record_deposit_paid-IsSound now s {s'} v h = ground arith

pub cancel_subscription-IsSound :
    (now : ℕ) (s : Subscription) {s' : Subscription}
    → IsSound s
    → cancel_subscription now s ≡ ok s'
    → IsSound s'
unfolding cancel_subscription
cancel_subscription-IsSound now s {s'} v h = ground arith

pub complete_subscription-IsSound :
    (now : ℕ) (s : Subscription) {s' : Subscription}
    → IsSound s
    → complete_subscription now s ≡ ok s'
    → IsSound s'
unfolding complete_subscription
complete_subscription-IsSound now s {s'} v h = ground arith
