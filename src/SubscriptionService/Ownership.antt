-- ===== src/SubscriptionService/Ownership.antt =====
-- Who may change a subscription, and when.
use mathlib.Core.Path.{subst}
use blanco_financas_api.Prelude.{
  ℕ, ◌≡◌, refl, ◌∙◌, true, false, Bool-cases, inl, inr, ◌⊎◌, String, some, none,
}
use blanco_financas_api.Errors.{Result, ok, err, subscription_not_found, invalid_subscription}
use blanco_financas_api.Subscriptions.{
  Subscription, is_inactive_status, cancelled, is_active_status,
}
use blanco_financas_api.Subscriptions
use blanco_financas_api.Store.{
  Store, find_subscription, put_subscription, put_audit, find_plan, AuditLog,
  subscription_cancelled,
}
use blanco_financas_api.Store.SubscriptionQueries.{yield_sum_of}
use blanco_financas_api.InstallmentPayments.Creation.{title_of}
use blanco_financas_api.Session.{Clock, run_request}
use blanco_financas_api.InstallmentPayments.Closure.{owned_by}
use blanco_financas_api.Store.Tables.{
  find_subscription-put, find_subscription-id, find_subscription-put_audit,
}
use blanco_financas_api.SubscriptionService.{
  SubscriptionResult, update_deposit_day, update_name, cancel_subscription,
  record_payment_for_subscription, described, to_result,
}

abbrev not_found : {A : Type 0} → Store → Result A × Store
not_found db = (err subscription_not_found, db)

-- A client changes no subscription of another, and none that does not exist: the update of its day,
-- of its name, its cancellation and the record of a payment answer that it was not found, and
-- leave the store as it is.
pub not_owned_unchanged :
    (clock : Clock) (user_id subscription_id day : ℕ) (name : String) (db : Store) (next_id : ℕ)
    → owned_by user_id (find_subscription subscription_id db) ≡ none
    → (run_request (update_deposit_day clock user_id subscription_id day) db next_id ≡ not_found db)
      × (run_request (update_name user_id subscription_id name) db next_id ≡ not_found db)
      × (run_request (cancel_subscription clock subscription_id user_id) db next_id ≡ not_found db)
      × (run_request (record_payment_for_subscription clock subscription_id user_id) db next_id
          ≡ not_found db)
unfolding run_request update_deposit_day update_name cancel_subscription
    record_payment_for_subscription
not_owned_unchanged clock user_id subscription_id day name db next_id h =
    (rw h refl, rw h refl, rw h refl, rw h refl)

-- The subscription as a cancellation stores it.
abbrev closed : ℕ → Subscription → Subscription
closed now s = record s { status = cancelled; updated_at = now }

abbrev cancel_log : ℕ → Subscription → AuditLog
cancel_log user_id s = record {
  action = subscription_cancelled;
  actor_id = user_id;
  target_id = some s.id;
}

abbrev closed_store : ℕ → ℕ → Subscription → Store → Store
closed_store user_id now s db =
    put_audit (cancel_log user_id (closed now s)) (put_subscription (closed now s) db)

-- The answer for the cancelled subscription, read from the store that the request leaves.
abbrev closed_result : ℕ → ℕ → Subscription → Store → SubscriptionResult
closed_result user_id now s db =
    let after = closed_store user_id now s db in
    to_result (closed now s) (title_of (find_plan s.plan_id after)) (yield_sum_of s.id after)

cancel_subscription_run :
    (clock : Clock) (user_id subscription_id : ℕ) (db : Store) (next_id : ℕ) {s : Subscription}
    → owned_by user_id (find_subscription subscription_id db) ≡ some s
    → is_inactive_status s.status ≡ true
    → run_request (cancel_subscription clock subscription_id user_id) db next_id
      ≡ (ok (closed_result user_id clock.now s db), closed_store user_id clock.now s db)
unfolding run_request cancel_subscription Subscriptions.cancel_subscription described
cancel_subscription_run clock user_id subscription_id db next_id {s} h i =
    elim (Bool-cases (is_active_status s.status)) [
      | inl a ↦ rw (h, i, a) refl
      | inr a ↦ rw (h, i, a) refl
    ]

-- The owner's cancellation goes through exactly where the subscription was never activated: it is
-- then stored as cancelled; in any other state the request is refused and changes nothing.
pub cancel_subscription_decides :
    (clock : Clock) (user_id subscription_id : ℕ) (db : Store) (next_id : ℕ) {s : Subscription}
    → owned_by user_id (find_subscription subscription_id db) ≡ some s
    → find_subscription subscription_id db ≡ some s
    → let run = run_request (cancel_subscription clock subscription_id user_id) db next_id in
      ((is_inactive_status s.status ≡ true)
        × (r : SubscriptionResult) × (run.0 ≡ ok r)
        × (r.subscription ≡ closed clock.now s)
        × (find_subscription subscription_id run.1 ≡ some (closed clock.now s)))
      ⊎ ((is_inactive_status s.status ≡ false) × (run ≡ (err invalid_subscription, db)))
unfolding run_request cancel_subscription Subscriptions.cancel_subscription to_result
cancel_subscription_decides clock user_id subscription_id db next_id {s} h f =
    let own = find_subscription-id subscription_id db f in
    let after = closed_store user_id clock.now s db in
    let stored : find_subscription s.id after ≡ some (closed clock.now s) =
      find_subscription-put_audit s.id (cancel_log user_id (closed clock.now s))
        (put_subscription (closed clock.now s) db)
      ∙ find_subscription-put (closed clock.now s) db in
    elim (Bool-cases (is_inactive_status s.status)) [
      | inl inactive ↦ inl (
          rw (cancel_subscription_run clock user_id subscription_id db next_id h inactive) (
            inactive,
            closed_result user_id clock.now s db,
            refl,
            refl,
            subst (λ i. find_subscription i after ≡ some (closed clock.now s)) own stored,
          ))
      | inr other ↦ inr (other, rw (h, other) refl)
    ]
