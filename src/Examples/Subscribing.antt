-- ===== src/Examples/Subscribing.antt =====
-- The subscription service at concrete inputs.
use blanco_financas_api.Prelude.{◌≡◌, refl, none, [], ◌∷◌, pos, map, ◌+ℤ◌, ◌*ℤ◌}
use blanco_financas_api.Errors.{ok}
use blanco_financas_api.Decimal
use blanco_financas_api.Decimal.{decimal}
use blanco_financas_api.Money
use blanco_financas_api.Calendar.{date}
use blanco_financas_api.Subscriptions
use blanco_financas_api.Subscriptions.{Subscription, cancelled, is_inactive_status}
use blanco_financas_api.Plans
use blanco_financas_api.Plans.{Plan}
use blanco_financas_api.Recommendation
use blanco_financas_api.Store
use blanco_financas_api.Store.{Store, find_subscription}
use blanco_financas_api.Session.{run_request}
use blanco_financas_api.SubscriptionService
use blanco_financas_api.SubscriptionService.{
  SubscriptionResult, CreateSubscriptionInput, DashboardDueStatus, create_subscription,
  cancel_subscription, update_deposit_day, update_name, record_payment_for_subscription,
  get_dashboard_due_status,
}
use blanco_financas_api.SubscriptionService.Creation.{Creation, create_subscription_stores}
use blanco_financas_api.SubscriptionService.Dashboard.{marked, dashboard_marks_overdue}
use blanco_financas_api.Examples.Data.{clock, db, car, house, plan_db, wanted}

dashboard_marks_overdue_example :
    (status : DashboardDueStatus) × (run_request (get_dashboard_due_status clock 7) db 100 ≡ (
      ok status,
      record db { subscriptions = map (marked 7 (date 2024 3 12) 1000) (house ∷ car ∷ []) },
    ))
dashboard_marks_overdue_example = dashboard_marks_overdue clock 7 db 100

abbrev new_house : SubscriptionResult
new_house = record {
  subscription = record house {
    id = 100;
    total_cost_cents = pos 1920;
    deposits_paid = 0;
    next_due_date = none;
    status = Subscriptions.inactive;
    created_at = 1000;
    updated_at = 1000;
  };
  plan_title = "Casa";
  accumulated_cents = pos 0;
  yield_cents = pos 0;
}

create_subscription_stores_example :
    Creation clock wanted plan_db
      (run_request (create_subscription clock wanted) plan_db 100).1
      new_house
unfolding run_request create_subscription SubscriptionService.to_result Store.find_live_plan
    Plans.is_active_plan Recommendation.validate_params_against_plan Recommendation.calculate_cost
    Recommendation.select_guarantee_fund_percent Subscriptions.create_subscription
    Subscriptions.validate Subscriptions.is_allowed_day Subscriptions.total_deposited_cents
    Money.from_cents Money.percentage Decimal.quantize Decimal.mul Decimal.div_hundred
    Decimal.to_int ◌+ℤ◌ ◌*ℤ◌
create_subscription_stores_example =
    create_subscription_stores clock wanted plan_db 100 {r = new_house} refl
