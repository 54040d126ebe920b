-- ===== src/Withdrawals/Reinstatement.antt =====
-- A plan withdrawal, requested by InstallmentPayments.Closure and rejected by Withdrawals.
use mathlib.Core.Path.{subst}
use blanco_financas_api.Prelude.{
  ℕ, ◌≡◌, refl, ap, ◌∙◌, arith, ◌==◌, Bool, true, false, if◌then◌else◌, Option, some, String,
}
use blanco_financas_api.Errors.{Result, ok, err}
use blanco_financas_api.Subscriptions.{
  Subscription, is_active_status, is_completed_status, is_fully_paid, cancelled,
  cancel_subscription,
}
use blanco_financas_api.Transactions.{
  Transaction, is_pending_status, create_withdrawal, reject_with_reason, cancel,
}
use blanco_financas_api.Users.{User, is_admin}
use blanco_financas_api.Store.{
  Store, find_subscription, find_transaction, find_user, put_audit, put_notification,
  put_subscription, by_key, put_transaction, stored_items,
}
use blanco_financas_api.Store.Tables.{
  find_transaction-put, find_subscription-put, find_subscription-id,
}
use blanco_financas_api.Session.{Clock, run_request}
use blanco_financas_api.InstallmentPayments.Closure.{
  RequestPlanWithdrawalInput, request_plan_withdrawal, close_early, is_withdrawable, owned_by,
  plan_withdrawal, announce_closure,
}
use blanco_financas_api.Withdrawals.{
  may_decide, reinstate, reinstate_found, reinstated, reject_withdrawal,
}

-- The subscription as the request leaves it.
abbrev closed : ℕ → Subscription → Subscription
closed now s =
    if is_active_status s.status then record s { status = cancelled; updated_at = now } else s

close_early_lem : (now : ℕ) (s : Subscription) → close_early now s ≡ ok (closed now s)
unfolding close_early cancel_subscription
close_early_lem now s = ground arith

closed-id : (now : ℕ) (s : Subscription) → (closed now s).id ≡ s.id
closed-id now s = ground arith

-- A rejection gives back the status that the request took, if completed is what is fully paid.
reinstated-closed :
    (now : ℕ) (s : Subscription)
    → is_withdrawable s ≡ true
    → is_fully_paid s ≡ is_completed_status s.status
    → reinstated (closed now s) ≡ record s { updated_at = (closed now s).updated_at }
unfolding is_withdrawable is_fully_paid reinstated
reinstated-closed now s h p = ground arith

-- A plan can be closed by its owner, it is completed just when it is fully paid, and an
-- administrator is there to decide.
pub record Closable (input : RequestPlanWithdrawalInput) (admin_id : ℕ) (db : Store) : Type 0 where
  pub sub : Subscription
  pub admin : User
  pub sub_found : find_subscription input.subscription_id db ≡ some sub
  pub owned : (sub.user_id == input.user_id) ≡ true
  pub withdrawable : is_withdrawable sub ≡ true
  pub paid_up : is_fully_paid sub ≡ is_completed_status sub.status
  pub admin_found : find_user admin_id db ≡ some admin
  pub admin_role : is_admin admin ≡ true

abbrev pub succeeds : {A : Type 0} → Result A → Bool
succeeds (ok a) = true
succeeds (err e) = false

-- What a request leaves that the rejection reads.
record Requested (withdrawal_id admin_id : ℕ) (before after : Store) (c : Subscription)
    (admin : User) : Type 0 where
  sub_stored : find_subscription c.id after ≡ some c
  withdrawal : Transaction
  stored : find_transaction withdrawal_id after ≡ some withdrawal
  awaits : is_pending_status withdrawal.status ≡ true
  for_sub : withdrawal.subscription_id ≡ some c.id
  same_wallets : after.wallets ≡ before.wallets
  admin_found : find_user admin_id after ≡ some admin

request-Requested :
    (clock : Clock) (description : Option String) (input : RequestPlanWithdrawalInput)
    (admin_id : ℕ) (db : Store) (next_id : ℕ) (h : Closable input admin_id db)
    → Requested next_id admin_id db
        (run_request (request_plan_withdrawal clock description input) db next_id).1
        (closed clock.now h.sub)
        h.admin
unfolding run_request request_plan_withdrawal owned_by announce_closure put_notification put_audit
    find_user plan_withdrawal create_withdrawal put_transaction find_subscription put_subscription
    find_transaction by_key
request-Requested clock description input admin_id db next_id h =
    let c = closed clock.now h.sub in
    let t = plan_withdrawal next_id input c description clock.now in
    rw (h.sub_found, h.owned, h.withdrawable, close_early_lem clock.now h.sub)
      (record {
        sub_stored = find_subscription-put c db;
        withdrawal = record t {
          items = stored_items (find_transaction next_id (put_subscription c db));
        };
        stored = find_transaction-put t (put_subscription c db);
        awaits = refl;
        for_sub = refl;
        same_wallets = refl;
        admin_found = h.admin_found;
      })

request_succeeds :
    (clock : Clock) (description : Option String) (input : RequestPlanWithdrawalInput)
    (admin_id : ℕ) (db : Store) (next_id : ℕ) (h : Closable input admin_id db)
    → succeeds (run_request (request_plan_withdrawal clock description input) db next_id).0 ≡ true
unfolding run_request request_plan_withdrawal owned_by announce_closure
request_succeeds clock description input admin_id db next_id h =
    rw (h.sub_found, h.owned, h.withdrawable, close_early_lem clock.now h.sub) refl

reinstated-id : (s : Subscription) → (reinstated s).id ≡ s.id
unfolding reinstated
reinstated-id s = ground arith

reject_withdrawal_run :
    (clock : Clock) (withdrawal_id admin_id : ℕ) (reason : String) (before after : Store)
    (next_id : ℕ) (c : Subscription) (admin : User)
    → is_admin admin ≡ true
    → (r : Requested withdrawal_id admin_id before after c admin)
    → let run = run_request (reject_withdrawal clock withdrawal_id admin_id reason) after next_id in
      (succeeds run.0 ≡ true)
      × (find_subscription c.id run.1 ≡ some (reinstated c))
      × (run.1.wallets ≡ before.wallets)
unfolding run_request reject_withdrawal may_decide reject_with_reason cancel reinstate
    reinstate_found put_audit put_transaction put_subscription find_subscription by_key
reject_withdrawal_run clock withdrawal_id admin_id reason before after next_id c admin role r =
    rw (r.admin_found, role, r.stored, r.awaits, r.for_sub, r.sub_stored)
      (
        refl,
        subst
            (λ i. find_subscription i (put_subscription (reinstated c) after) ≡ some (reinstated c))
            (reinstated-id c) (find_subscription-put (reinstated c) after),
        r.same_wallets,
      )

-- The owner of a plan closes it, and an administrator rejects the withdrawal: both requests succeed
-- where the plan can be closed, the subscription is then as it was before but for the time of its
-- last update, and no wallet has changed.
pub closure_rejected :
    (clock clock' : Clock) (description : Option String) (input : RequestPlanWithdrawalInput)
    (admin_id : ℕ) (reason : String) (db : Store) (next_id next_id' : ℕ)
    (h : Closable input admin_id db)
    → let request = run_request (request_plan_withdrawal clock description input) db next_id in
      let rejection =
        run_request (reject_withdrawal clock' next_id admin_id reason) request.1 next_id' in
      (succeeds request.0 ≡ true)
      × (succeeds rejection.0 ≡ true)
      × (find_subscription input.subscription_id rejection.1
          ≡ some (record h.sub { updated_at = (closed clock.now h.sub).updated_at }))
      × (rejection.1.wallets ≡ db.wallets)
closure_rejected clock clock' description input admin_id reason db next_id next_id' h =
    let r = request-Requested clock description input admin_id db next_id h in
    let k =
      reject_withdrawal_run clock' next_id admin_id reason db _ next_id' (closed clock.now h.sub)
        h.admin h.admin_role r in
    let same : (closed clock.now h.sub).id ≡ input.subscription_id =
      closed-id clock.now h.sub ∙ find_subscription-id input.subscription_id db h.sub_found in
    let back = reinstated-closed clock.now h.sub h.withdrawable h.paid_up in
    let request = run_request (request_plan_withdrawal clock description input) db next_id in
    let final = run_request (reject_withdrawal clock' next_id admin_id reason) request.1 next_id' in
    (
      request_succeeds clock description input admin_id db next_id h,
      k.0,
      subst
          (λ i.
            find_subscription i final.1
            ≡ some (record h.sub { updated_at = (closed clock.now h.sub).updated_at }))
          same (k.1 ∙ ap some back),
      k.2,
    )
