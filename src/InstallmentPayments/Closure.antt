-- ===== src/InstallmentPayments/Closure.antt =====
-- `request_plan_withdrawal`: a client closes a plan and asks for what was deposited. The withdrawal
-- waits for an administrator, who approves or rejects it through Withdrawals.
use blanco_financas_api.Prelude.{
  ℕ, ltb, ◌==◌, if◌then◌else◌, Bool, false, not, ◌&&◌, ◌||◌, Option, none, some, String,
}
use blanco_financas_api.Errors.{Result, ok, subscription_not_found, invalid_payment}
use blanco_financas_api.Subscriptions.{
  Subscription, is_active_status, is_completed_status, total_deposited_cents, cancel_subscription,
}
use blanco_financas_api.Transactions.{Transaction, create_withdrawal}
use blanco_financas_api.Plans.{Plan}
use blanco_financas_api.Users.{User}
use blanco_financas_api.Store.{
  find_plan, find_subscription, find_user, plan_withdrawal_requested, put_audit, put_notification,
  put_subscription, put_transaction,
}
use blanco_financas_api.Session.{
  Action, Clock, ◌>>=◌, ◌>>◌, commit, fresh_id, gets, lift, modify, or_raise, pure, raise_if,
}

-- `RequestPlanWithdrawalInput`
pub record RequestPlanWithdrawalInput : Type 0 where
  pub user_id : ℕ
  pub subscription_id : ℕ
  pub owner_name : String
  pub pix_key : String
  pub pix_key_type : String

-- `is_completed or is_active_with_deposits`
unfoldable pub is_withdrawable : Subscription → Bool
is_withdrawable s =
    is_completed_status s.status || (is_active_status s.status && ltb 0 s.deposits_paid)

-- `not sub or sub.user_id != user_id`, negated
unfoldable pub owned_by : ℕ → Option Subscription → Option Subscription
owned_by user none = none
owned_by user (some s) = if s.user_id == user then some s else none

-- `if is_early: sub.cancel()`
unfoldable pub close_early : ℕ → Subscription → Result Subscription
unfolding cancel_subscription
close_early now s = if is_active_status s.status then cancel_subscription now s else ok s

abbrev plan_title : Option Plan → String
plan_title none = "Plano removido"
plan_title (some p) = p.title

abbrev client_name : Option User → String
client_name none = "Cliente"
client_name (some u) = u.name

-- The withdrawal that is requested for a subscription. Its description is a text for the reader.
unfoldable pub plan_withdrawal :
    ℕ → RequestPlanWithdrawalInput → Subscription → Option String → ℕ → Transaction
plan_withdrawal new_id input s description now =
    create_withdrawal new_id input.user_id (total_deposited_cents s)
      (record {
        bank_account = input.owner_name;
        description = description;
        pix_key = some input.pix_key;
        pix_key_type = some input.pix_key_type;
        subscription_id = some s.id;
      })
      now

-- What follows the changes of the subscription and the transaction: log, notification, commit.
unfoldable pub announce_closure : Clock → Subscription → Transaction → Action Transaction
announce_closure clock s t = do
  plan ← gets (find_plan s.plan_id)
  modify (
      put_audit (record {
        action = plan_withdrawal_requested;
        actor_id = t.user_id;
        target_id = some s.id;
      }))
  user ← gets (find_user t.user_id)
  notification_id ← fresh_id
  modify (
      put_notification (record {
        id = notification_id;
        is_read = false;
        created_at = clock.now;
        read_at = none;
        target_id = t.id;
        client_name = client_name user;
        plan_title = plan_title plan;
        amount_cents = t.amount_cents;
      }))
  commit
  pure t

-- `request_plan_withdrawal`, with the text of the description as an argument
unfoldable pub request_plan_withdrawal :
    Clock → Option String → RequestPlanWithdrawalInput → Action Transaction
unfolding owned_by is_withdrawable close_early plan_withdrawal announce_closure
request_plan_withdrawal clock description input = do
  found ← gets (find_subscription input.subscription_id)
  sub ← or_raise (owned_by input.user_id found) subscription_not_found
  raise_if (not (is_withdrawable sub)) invalid_payment
  closed ← lift (close_early clock.now sub)
  modify (put_subscription closed)
  new_id ← fresh_id
  modify (put_transaction (plan_withdrawal new_id input closed description clock.now))
  announce_closure clock closed (plan_withdrawal new_id input closed description clock.now)
