-- ===== src/SubscriptionService/Creation.antt =====
-- What a created subscription is.
use blanco_financas_api.Prelude.{
  ℕ, ◌≡◌, refl, sym, ap, ◌∙◌, arith, true, Bool-cases, Option-cases, inl, inr, some, none, pos,
}
use blanco_financas_api.Errors.{ok, Result-cases, ok_injective}
use blanco_financas_api.Subscriptions
use blanco_financas_api.Subscriptions.{Subscription, inactive, is_inactive_status}
use blanco_financas_api.Subscriptions.Invariant.{IsSound, create_subscription-IsSound}
use blanco_financas_api.Plans.{Plan, is_active_plan}
use blanco_financas_api.Recommendation.{CostBreakdown, calculate_cost, validate_params_against_plan}
use blanco_financas_api.Store.{
  Store, find_live_plan, find_subscription, put_subscription, put_audit, AuditLog,
  subscription_created,
}
use blanco_financas_api.Session.{Clock, run_request}
use blanco_financas_api.Store.Tables.{find_subscription-put, find_subscription-put_audit}
use blanco_financas_api.SubscriptionService.{
  SubscriptionResult, CreateSubscriptionInput, create_subscription, new_subscription, to_result,
}

-- What a successful creation checked, and what it stored.
pub record Creation (clock : Clock) (input : CreateSubscriptionInput) (db after : Store)
    (r : SubscriptionResult) : Type 0 where
  pub plan : Plan
  pub cost : CostBreakdown
  pub plan_found : find_live_plan input.plan_id db ≡ some plan
  pub plan_active : is_active_plan plan ≡ true
  pub within_limits :
      validate_params_against_plan plan input.target_amount_cents input.deposit_count ≡ none
  pub cost_of_plan : calculate_cost plan input.deposit_count input.monthly_amount_cents ≡ ok cost
  pub sound : IsSound r.subscription
  pub owner : r.subscription.user_id ≡ input.user_id
  pub starts_inactive : is_inactive_status r.subscription.status ≡ true
  pub total_cost : r.subscription.total_cost_cents ≡ cost.total_cost_cents
  pub stored : find_subscription r.subscription.id after ≡ some r.subscription

created_fields :
    (new_id now : ℕ) (n : Subscriptions.NewSubscription) {s : Subscription}
    → Subscriptions.create_subscription new_id n now ≡ ok s
    → (s.user_id ≡ n.user_id)
      × (is_inactive_status s.status ≡ true)
      × (s.total_cost_cents ≡ n.total_cost_cents)
unfolding Subscriptions.create_subscription
created_fields new_id now n {s} h = ground arith

abbrev creation_log : CreateSubscriptionInput → Subscription → AuditLog
creation_log input s = record {
  action = subscription_created;
  actor_id = input.user_id;
  target_id = some s.id;
}

create_subscription_run :
    (clock : Clock) (input : CreateSubscriptionInput) (db : Store) (next_id : ℕ) {plan : Plan}
    {cost : CostBreakdown} {s : Subscription}
    → find_live_plan input.plan_id db ≡ some plan
    → is_active_plan plan ≡ true
    → validate_params_against_plan plan input.target_amount_cents input.deposit_count ≡ none
    → calculate_cost plan input.deposit_count input.monthly_amount_cents ≡ ok cost
    → Subscriptions.create_subscription next_id (new_subscription input plan cost) clock.now ≡ ok s
    → run_request (create_subscription clock input) db next_id ≡ (
      ok (to_result s plan.title (pos 0)),
      put_audit (creation_log input s) (put_subscription s db),
    )
unfolding create_subscription run_request
create_subscription_run clock input db next_id f a v c g = rw (f, a, v, c, g) refl

-- A request to create a subscription that succeeds had an active plan that was not deleted and
-- parameters within the plan's limits; the subscription that it answers with is stored, belongs to
-- the client, satisfies the invariants of a subscription, is not yet active, and costs what the
-- plan's cost calculation says.
pub create_subscription_stores :
    (clock : Clock) (input : CreateSubscriptionInput) (db : Store) (next_id : ℕ)
    {r : SubscriptionResult}
    → (run_request (create_subscription clock input) db next_id).0 ≡ ok r
    → Creation clock input db (run_request (create_subscription clock input) db next_id).1 r
unfolding create_subscription run_request to_result
create_subscription_stores clock input db next_id {r} h =
    elim (Option-cases (find_live_plan input.plan_id db)) [
      | inl f ↦ absurd (let k = rw f at h in cc)
      | inr (plan, f) ↦ elim (Bool-cases (is_active_plan plan)) [
        | inr a ↦ absurd (let k = rw (f, a) at h in cc)
        | inl a ↦
            elim (Option-cases
              (validate_params_against_plan plan input.target_amount_cents input.deposit_count)) [
                | inr (x, v) ↦ absurd (let k = rw (f, a, v) at h in cc)
                | inl v ↦
                    elim (Result-cases
                      (calculate_cost plan input.deposit_count input.monthly_amount_cents)) [
                        | inr (x, c) ↦ absurd (let k = rw (f, a, v, c) at h in cc)
                        | inl (cost, c) ↦
                            elim (Result-cases (
                              Subscriptions.create_subscription next_id
                                (new_subscription input plan cost) clock.now)) [
                                  | inr (x, g) ↦ absurd (let k = rw (f, a, v, c, g) at h in cc)
                                  | inl (s, g) ↦
                                      let run =
                                        create_subscription_run clock input db next_id f a v c g in
                                      let same : r ≡ to_result s plan.title (pos 0) =
                                        ok_injective (sym h ∙ ap (λ x. x.0) run) in
                                      let fields =
                                        created_fields next_id clock.now
                                          (new_subscription input plan cost) g in
                                      rw (run, same)
                                        (record {
                                          plan = plan;
                                          cost = cost;
                                          plan_found = f;
                                          plan_active = a;
                                          within_limits = v;
                                          cost_of_plan = c;
                                          sound =
                                              create_subscription-IsSound next_id clock.now
                                                (new_subscription input plan cost) g;
                                          owner = fields.0;
                                          starts_inactive = fields.1;
                                          total_cost = fields.2;
                                          stored =
                                              find_subscription-put_audit s.id
                                                (creation_log input s) (put_subscription s db)
                                              ∙ find_subscription-put s db;
                                        })
                                ]
                      ]
              ]
      ]
    ]
