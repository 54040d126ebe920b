-- ===== src/SubscriptionService.antt =====
-- app/application/services/subscription_service.py, but its recommendation of a plan. A
-- `SubscriptionResult` copies the entity's fields, which are one field here.
pub mod Creation
pub mod Dashboard
pub mod Ownership
pub mod Advice
use blanco_financas_api.Prelude.{
  ℕ, if◌then◌else◌, ◌==◌, Bool, true, false, not, Option, none, some, is_some, List, [], ◌∷◌,
  String, ℤ, pos,
}
use blanco_financas_api.Errors.{
  plan_not_found, invalid_subscription, subscription_not_found, attribute_error,
}
use blanco_financas_api.Calendar.{Date, ltb_date}
use blanco_financas_api.Subscriptions.{
  Subscription, is_allowed_day, is_active_status, is_inactive_status, set_deposit_day,
  clear_overdue_and_advance, total_deposited_cents,
}
use blanco_financas_api.Subscriptions
use blanco_financas_api.Plans.{Plan, is_active_plan}
use blanco_financas_api.Recommendation.{CostBreakdown, calculate_cost, validate_params_against_plan}
use blanco_financas_api.Store.{
  find_subscription, find_plan, find_live_plan, put_subscription, subscription_created,
  subscription_cancelled,
}
use blanco_financas_api.Store.SubscriptionQueries.{
  subscriptions_of, yield_sum_of, active_due_or_overdue, bulk_mark_overdue,
}
use blanco_financas_api.Session.{
  Action, Clock, ◌>>=◌, ◌>>◌, fresh_id, gets, lift, modify, or_raise, pure, raise_if, commit,
}
use blanco_financas_api.InstallmentPayments.Closure.{owned_by}
use blanco_financas_api.InstallmentPayments.Creation.{title_of, is_empty}
use blanco_financas_api.Withdrawals.{log}

pub record SubscriptionResult : Type 0 where
  pub subscription : Subscription
  pub plan_title : String
  pub accumulated_cents : ℤ
  pub yield_cents : ℤ

pub record CreateSubscriptionInput : Type 0 where
  pub user_id : ℕ
  pub plan_id : ℕ
  pub target_amount_cents : ℤ
  pub deposit_count : ℤ
  pub monthly_amount_cents : ℤ
  pub name : String
  pub deposit_day_of_month : ℕ

pub record CalculateCostInput : Type 0 where
  pub plan_id : ℕ
  pub target_amount_cents : ℤ
  pub deposit_count : ℤ
  pub monthly_amount_cents : ℤ

unfoldable pub to_result : Subscription → String → ℤ → SubscriptionResult
unfolding total_deposited_cents
to_result s plan_title yield_cents = record {
  subscription = s;
  plan_title = plan_title;
  accumulated_cents = total_deposited_cents s;
  yield_cents = yield_cents;
}

-- The result for a subscription, with its plan's title and its yields as stored.
unfoldable pub described : Subscription → Action SubscriptionResult
unfolding to_result
described s = do
  plan ← gets (find_plan s.plan_id)
  yield_cents ← gets (yield_sum_of s.id)
  pure (to_result s (title_of plan) yield_cents)

-- The loop of `list_user_subscriptions`.
unfoldable pub describe_all : List Subscription → Action (List SubscriptionResult)
unfolding described
describe_all [] = pure []
describe_all (s ∷ ss) = do result ← described s; results ← describe_all ss; pure (result ∷ results)

unfoldable pub list_user_subscriptions : ℕ → Action (List SubscriptionResult)
unfolding describe_all
list_user_subscriptions user = do
  subscriptions ← gets (subscriptions_of user)
  describe_all subscriptions

-- `calculate_cost` of the service; its result's fields are those of the breakdown.
unfoldable pub quote_cost : CalculateCostInput → Action CostBreakdown
quote_cost input = do
  found ← gets (find_live_plan input.plan_id)
  plan ← or_raise found plan_not_found
  raise_if
      (is_some (validate_params_against_plan plan input.target_amount_cents input.deposit_count))
      invalid_subscription
  lift (calculate_cost plan input.deposit_count input.monthly_amount_cents)

-- The arguments that the service passes to `UserPlanSubscription.create`.
abbrev pub new_subscription :
    CreateSubscriptionInput → Plan → CostBreakdown → Subscriptions.NewSubscription
new_subscription input plan cost = record {
  user_id = input.user_id;
  plan_id = input.plan_id;
  target_amount_cents = input.target_amount_cents;
  deposit_count = input.deposit_count;
  monthly_amount_cents = input.monthly_amount_cents;
  admin_tax_value_cents = cost.admin_tax_value_cents;
  insurance_percent = plan.insurance_percent;
  guarantee_fund_percent = cost.guarantee_fund_percent;
  total_cost_cents = cost.total_cost_cents;
  name = input.name;
  deposit_day_of_month = input.deposit_day_of_month;
}

unfoldable pub create_subscription : Clock → CreateSubscriptionInput → Action SubscriptionResult
unfolding to_result
create_subscription clock input = do
  found ← gets (find_live_plan input.plan_id)
  plan ← or_raise found plan_not_found
  raise_if (not (is_active_plan plan)) invalid_subscription
  raise_if
      (is_some (validate_params_against_plan plan input.target_amount_cents input.deposit_count))
      invalid_subscription
  cost ← lift (calculate_cost plan input.deposit_count input.monthly_amount_cents)
  new_id ← fresh_id
  subscription ←
      lift (Subscriptions.create_subscription new_id (new_subscription input plan cost) clock.now)
  modify (put_subscription subscription)
  log subscription_created input.user_id subscription.id
  commit
  pure (to_result subscription plan.title (pos 0))

-- A changed subscription is saved, described and committed.
unfoldable pub save_described : Subscription → Action SubscriptionResult
unfolding described
save_described s = do modify (put_subscription s); result ← described s; commit; pure result

unfoldable pub update_deposit_day : Clock → ℕ → ℕ → ℕ → Action SubscriptionResult
unfolding owned_by save_described
update_deposit_day clock user_id subscription_id day = do
  found ← gets (find_subscription subscription_id)
  subscription ← or_raise (owned_by user_id found) subscription_not_found
  raise_if (not (is_active_status subscription.status)) invalid_subscription
  raise_if (not (is_allowed_day day)) invalid_subscription
  moved ← lift (set_deposit_day day clock.today clock.now subscription)
  save_described moved

unfoldable pub update_name : ℕ → ℕ → String → Action SubscriptionResult
unfolding owned_by save_described
update_name user_id subscription_id name = do
  found ← gets (find_subscription subscription_id)
  subscription ← or_raise (owned_by user_id found) subscription_not_found
  save_described (record subscription { name = name })

-- `DuePlanInfo`
pub record DuePlanInfo : Type 0 where
  pub subscription_id : ℕ
  pub plan_title : String
  pub name : String
  pub next_due_date : Date

pub record DashboardDueStatus : Type 0 where
  pub overdue_plans : List DuePlanInfo
  pub due_today_plans : List DuePlanInfo

-- One subscription goes into one of the two lists.
unfoldable pub file_due :
    Date → Subscription → String → Date → DashboardDueStatus → DashboardDueStatus
file_due today s plan_title due status =
    let info : DuePlanInfo = record {
      subscription_id = s.id;
      plan_title = plan_title;
      name = s.name;
      next_due_date = due;
    } in
    if ltb_date due today
    then record status { overdue_plans = info ∷ status.overdue_plans }
    else record status { due_today_plans = info ∷ status.due_today_plans }

-- The loop over the subscriptions that are due. A date that is `None` would raise.
unfoldable pub partition_due : Date → List Subscription → Action DashboardDueStatus
unfolding file_due
partition_due today [] = pure (record { overdue_plans = []; due_today_plans = [] })
partition_due today (s ∷ ss) = do
  plan ← gets (find_plan s.plan_id)
  due ← or_raise s.next_due_date attribute_error
  rest ← partition_due today ss
  pure (file_due today s (title_of plan) due rest)

unfoldable pub get_dashboard_due_status : Clock → ℕ → Action DashboardDueStatus
unfolding partition_due
get_dashboard_due_status clock user = do
  subs ← gets (active_due_or_overdue user clock.today)
  status ← partition_due clock.today subs
  if is_empty status.overdue_plans
      then pure status
      else (do modify (bulk_mark_overdue user clock.today clock.now); pure status)

unfoldable pub cancel_subscription : Clock → ℕ → ℕ → Action SubscriptionResult
unfolding owned_by described
cancel_subscription clock subscription_id user_id = do
  found ← gets (find_subscription subscription_id)
  subscription ← or_raise (owned_by user_id found) subscription_not_found
  raise_if (not (is_inactive_status subscription.status)) invalid_subscription
  closed ← lift (Subscriptions.cancel_subscription clock.now subscription)
  modify (put_subscription closed)
  log subscription_cancelled user_id closed.id
  commit
  described closed

unfoldable pub record_payment_for_subscription : Clock → ℕ → ℕ → Action SubscriptionResult
unfolding owned_by save_described
record_payment_for_subscription clock subscription_id user_id = do
  found ← gets (find_subscription subscription_id)
  subscription ← or_raise (owned_by user_id found) subscription_not_found
  advanced ← lift (clear_overdue_and_advance clock.now subscription)
  save_described advanced
