-- ===== src/Examples/Entities.antt =====
-- Entities and plans at concrete inputs.
use blanco_financas_api.Recommendation.{select_guarantee_fund_percent}
use blanco_financas_api.Prelude.{
  ◌^◌, ◌<◌, ◌≡◌, refl, arith, true, pos, ◌+ℤ◌, sum_by, none, some, List, [], ◌∷◌, ◌⊎◌,
}
use blanco_financas_api.Errors.{ok, err, value_error}
use blanco_financas_api.Decimal.{decimal}
use blanco_financas_api.Money.{money}
use blanco_financas_api.Calendar
use blanco_financas_api.Calendar.{Date, date, IsValid, serial}
use blanco_financas_api.Subscriptions
use blanco_financas_api.Subscriptions.{
  Subscription, NewSubscription, create_subscription, active, completed, inactive,
}
use blanco_financas_api.Subscriptions.Invariant.{IsSound}
use blanco_financas_api.Subscriptions.Lifecycle
use blanco_financas_api.Subscriptions.Lifecycle.{created-IsSound, perform-may_move, may_move}
use blanco_financas_api.Subscriptions.Completion.{
  IsPaying, StillPaying, IsCompleted, pay_times, deposits_complete,
}
use blanco_financas_api.Wallets.Balance.{
  Movement, invest, withdraw, retain, move_all, paid_out_all, credited, balance-move_all,
}
use blanco_financas_api.Transactions.{Transaction, confirmed}
use blanco_financas_api.Plans
use blanco_financas_api.Plans.{Plan, PlanConfig, configure, update_plan}
use blanco_financas_api.Plans.Update.{IsValidPlan, update_plan_all_or_nothing}
use blanco_financas_api.Examples.Data.{clock, house, purse, cash}

-- One deposit is left.
abbrev last_due : Subscription
last_due = record house { deposits_paid = 11 }

paying : IsPaying 1 (date 2024 3 10) last_due
unfolding Subscriptions.is_allowed_day Calendar.days_in_month
paying = record {
  is_active = refl;
  count = refl;
  due = refl;
  due_valid = record {
    year_from = omega arith;
    year_to = omega arith;
    month_from = omega arith;
    month_to = omega arith;
    day_from = omega arith;
    day_to = omega arith;
  };
  years = omega arith;
  day = refl;
}

deposits_complete_example :
    StillPaying 1 (pay_times 0 1000 last_due) × IsCompleted (pos 12) (pay_times 1 1000 last_due)
deposits_complete_example =
    deposits_complete 0 0 1000 (date 2024 3 10) last_due paying (omega arith)

abbrev order : NewSubscription
order = record {
  user_id = 7;
  plan_id = 2;
  target_amount_cents = pos 120000;
  deposit_count = pos 12;
  monthly_amount_cents = pos 10000;
  admin_tax_value_cents = pos 500;
  insurance_percent = decimal 10 1;
  guarantee_fund_percent = decimal 11 1;
  total_cost_cents = pos 2000;
  name = "Casa";
  deposit_day_of_month = 10;
}

abbrev fresh : Subscription
fresh = record house {
  deposits_paid = 0;
  next_due_date = none;
  status = inactive;
  created_at = 5;
  updated_at = 5;
}

created : create_subscription 3 order 5 ≡ ok fresh
unfolding create_subscription Subscriptions.validate Subscriptions.is_allowed_day
created = refl

created-IsSound_example : IsSound (
    Lifecycle.perform_all
      (Lifecycle.activating 15 clock.today 1000 ∷ Lifecycle.recording_deposit 2000 ∷ [])
      fresh)
unfolding Subscriptions.is_allowed_day
created-IsSound_example =
    created-IsSound 3 5 order
      (Lifecycle.activating 15 clock.today 1000 ∷ Lifecycle.recording_deposit 2000 ∷ [])
      (refl, (tt, tt)) created

abbrev shut : Subscription
shut = record house { status = Subscriptions.cancelled; updated_at = 1000 }

shut_down : Lifecycle.perform (Lifecycle.cancelling 1000) house ≡ ok shut
unfolding Lifecycle.perform Subscriptions.cancel_subscription
shut_down = refl

abbrev movements : List Movement
movements = invest (money 500) ∷ retain (money 6) ∷ withdraw (money 900) ∷ withdraw (money 200) ∷ []

balance-move_all_example :
    (move_all movements 5 purse).balance_cents +ℤ pos (paid_out_all movements 5 purse)
    ≡ pos 5000 +ℤ pos (sum_by credited movements)
balance-move_all_example = balance-move_all movements 5 purse

abbrev cash_done : Transaction
cash_done = record cash { status = confirmed }

abbrev plan : Plan
plan = record {
  id = 2;
  title = "Casa";
  description = "";
  min_value_cents = pos 100000;
  max_value_cents = none;
  min_duration_months = pos 6;
  max_duration_months = some (pos 24);
  admin_tax_value_cents = pos 500;
  insurance_percent = decimal 10 1;
  guarantee_fund_percent_1 = decimal 11 1;
  guarantee_fund_percent_2 = decimal 13 1;
  guarantee_fund_threshold_cents = pos 50000;
  active = true;
  created_at = 0;
  updated_at = 0;
  deleted_at = none;
}

-- A configuration with an empty title.
abbrev untitled : PlanConfig
untitled = record {
  title = " ";
  description = "";
  min_value_cents = pos 100000;
  max_value_cents = none;
  min_duration_months = pos 6;
  max_duration_months = none;
  admin_tax_value_cents = pos 0;
  insurance_percent = decimal 10 1;
  guarantee_fund_percent_1 = decimal 11 1;
  guarantee_fund_percent_2 = decimal 13 1;
  guarantee_fund_threshold_cents = pos 50000;
  active = true;
}

plan_valid : IsValidPlan plan
unfolding Plans.validate_plan Plans.is_blank Plans.is_space
plan_valid = refl

update_plan_all_or_nothing_example :
    IsValidPlan (update_plan untitled 9 plan).0
    × (((update_plan untitled 9 plan).1 ≡ ok tt)
          × ((update_plan untitled 9 plan).0 ≡ record (configure untitled plan) { updated_at = 9 })
        ⊎ ((update_plan untitled 9 plan).1 ≡ err value_error)
          × ((update_plan untitled 9 plan).0 ≡ plan))
update_plan_all_or_nothing_example = update_plan_all_or_nothing untitled 9 plan plan_valid

percent_short : (select_guarantee_fund_percent plan (pos 10000)).coef < 10 ^ 6
unfolding select_guarantee_fund_percent
percent_short = omega arith
