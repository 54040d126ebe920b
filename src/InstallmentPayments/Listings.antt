-- ===== src/InstallmentPayments/Listings.antt =====
-- What a client is shown before paying or closing a plan: `get_payable_installments` and
-- `get_withdrawable_subscriptions` of app/application/services/installment_payment_service.py.
pub mod Agreement
use blanco_financas_api.Prelude.{
  ℕ, ltb, ◌==◌, if◌then◌else◌, Bool, true, false, not, ◌&&◌, ◌||◌, Option, none, some, List, [],
  ◌∷◌, map, filter_by, sort_by, String, ℤ,
}
use blanco_financas_api.Errors.{attribute_error}
use blanco_financas_api.Calendar.{Date, ltb_date}
use blanco_financas_api.Subscriptions.{
  Subscription, SubscriptionStatus, is_active_status, is_fully_paid, current_installment_number,
  total_deposited_cents,
}
use blanco_financas_api.Transactions.{Transaction, subscription_installment_payment}
use blanco_financas_api.Store.{Store, find_plan, pending_for_subscription}
use blanco_financas_api.Store.SubscriptionQueries.{subscriptions_of}
use blanco_financas_api.Session.{Action, Clock, ◌>>=◌, ◌>>◌, gets, or_raise, pure}
use blanco_financas_api.PixPayments.{expire_stale_payments, commit_if_any}
use blanco_financas_api.InstallmentPayments.Closure.{is_withdrawable}
use blanco_financas_api.InstallmentPayments.Creation.{name_or, title_of}

-- `_expire_stale_user_payments`
unfoldable pub expire_stale_user_payments : Clock → ℕ → Action ℕ
unfolding expire_stale_payments commit_if_any
expire_stale_user_payments clock user = do
  count ← expire_stale_payments clock.now user subscription_installment_payment
  commit_if_any count
  pure count

pub data DueStatus : Type 0 where
  overdue due_today upcoming : DueStatus

-- `PayableInstallmentDTO`
pub record PayableInstallment : Type 0 where
  pub subscription_id : ℕ
  pub subscription_name : String
  pub plan_title : String
  pub installment_number : ℕ
  pub total_installments : ℤ
  pub amount_cents : ℤ
  pub due_date : Date
  pub is_overdue : Bool
  pub status : DueStatus
  pub pending_payment_id : Option ℕ

unfoldable pub due_status : Date → Date → DueStatus
due_status due today =
    if ltb_date due today then overdue else if ltb_date today due then upcoming else due_today

abbrev priority : DueStatus → ℕ
priority overdue = 0
priority due_today = 1
priority upcoming = 2

-- The order of the pairs of priority and due date.
abbrev before : PayableInstallment → PayableInstallment → Bool
before a b =
    ltb (priority a.status) (priority b.status)
    || (priority a.status == priority b.status && ltb_date a.due_date b.due_date)

abbrev first_id : List Transaction → Option ℕ
first_id [] = none
first_id (t ∷ ts) = some t.id

unfoldable pub payable_entry : Date → Subscription → String → Date → Option ℕ → PayableInstallment
unfolding due_status
payable_entry today s title due pending_id = record {
  subscription_id = s.id;
  subscription_name = name_or s.name title;
  plan_title = title;
  installment_number = current_installment_number s;
  total_installments = s.deposit_count;
  amount_cents = s.monthly_amount_cents;
  due_date = due;
  is_overdue = ltb_date due today;
  status = due_status due today;
  pending_payment_id = pending_id;
}

-- The loop over the subscriptions that are not fully paid. A due date that is `None` would raise.
unfoldable pub payable_entries : Date → List Subscription → Action (List PayableInstallment)
unfolding payable_entry
payable_entries today [] = pure []
payable_entries today (s ∷ ss) = do
  plan ← gets (find_plan s.plan_id)
  due ← or_raise s.next_due_date attribute_error
  pending ← gets (pending_for_subscription s.id subscription_installment_payment)
  rest ← payable_entries today ss
  pure (payable_entry today s (title_of plan) due (first_id pending) ∷ rest)

-- `get_active_by_user_id`, less those that are fully paid
unfoldable pub payable_subscriptions : ℕ → Store → List Subscription
payable_subscriptions user db =
    filter_by (λ s. is_active_status s.status && not (is_fully_paid s)) (subscriptions_of user db)

unfoldable pub get_payable_installments : Clock → ℕ → Action (List PayableInstallment)
unfolding expire_stale_user_payments payable_entries
get_payable_installments clock user = do
  expire_stale_user_payments clock user
  subscriptions ← gets (payable_subscriptions user)
  installments ← payable_entries clock.today subscriptions
  pure (sort_by before installments)

-- `WithdrawableSubscriptionDTO`
pub record WithdrawableSubscription : Type 0 where
  pub subscription_id : ℕ
  pub subscription_name : String
  pub plan_title : String
  pub status : SubscriptionStatus
  pub is_early_termination : Bool
  pub withdrawable_amount_cents : ℤ
  pub deposits_paid : ℕ
  pub deposit_count : ℤ
  pub created_at : ℕ

unfoldable pub withdrawable_entry : Store → Subscription → WithdrawableSubscription
withdrawable_entry db s = record {
  subscription_id = s.id;
  subscription_name = name_or s.name (title_of (find_plan s.plan_id db));
  plan_title = title_of (find_plan s.plan_id db);
  status = s.status;
  is_early_termination = is_active_status s.status;
  withdrawable_amount_cents = total_deposited_cents s;
  deposits_paid = s.deposits_paid;
  deposit_count = s.deposit_count;
  created_at = s.created_at;
}

unfoldable pub get_withdrawable_subscriptions : ℕ → Action (List WithdrawableSubscription)
unfolding withdrawable_entry is_withdrawable subscriptions_of
get_withdrawable_subscriptions user =
    gets (λ db. map (withdrawable_entry db) (filter_by is_withdrawable (subscriptions_of user db)))
