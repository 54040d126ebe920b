-- ===== src/Withdrawals.antt =====
-- app/application/services/withdrawal_service.py, its operations that change state. Both kinds of
-- withdrawal request end here: that of an amount, made here, and that of a plan, made by
-- InstallmentPayments.Closure.
pub mod Decisions
pub mod Reinstatement
pub mod Guards
pub mod Once
pub mod Listings
use blanco_financas_api.Prelude.{ℕ, if◌then◌else◌, Bool, false, not, Option, none, some, String, ℤ}
use blanco_financas_api.Errors.{
  authorization, invalid_withdrawal, insufficient_balance, transaction_not_found, attribute_error,
}
use blanco_financas_api.Money.{from_cents}
use blanco_financas_api.Subscriptions.{Subscription, completed, active, is_fully_paid}
use blanco_financas_api.Wallets.{debit, can_withdraw}
use blanco_financas_api.Transactions.{
  Transaction, is_pending_status, create_withdrawal, confirm, reject_with_reason,
}
use blanco_financas_api.Users.{User, is_admin}
use blanco_financas_api.Store.{
  AuditAction, find_subscription, find_transaction, find_user, find_wallet_of, put_audit,
  put_subscription, put_transaction, put_wallet, withdrawal_approved, withdrawal_rejected,
  withdrawal_requested,
}
use blanco_financas_api.Session.{
  Action, Clock, ◌>>=◌, ◌>>◌, fresh_id, gets, lift, modify, or_raise, pure, raise_if,
}

-- `CreateWithdrawalInput`
pub record CreateWithdrawalInput : Type 0 where
  pub user_id : ℕ
  pub amount_cents : ℤ
  pub bank_account : String
  pub description : Option String

-- `not admin or not admin.is_admin()`, negated
unfoldable pub may_decide : Option User → Bool
unfolding is_admin
may_decide none = false
may_decide (some u) = is_admin u

-- `self._audit_repo.save(AuditLog.create(...))`
abbrev pub log : AuditAction → ℕ → ℕ → Action (Unit {0})
log action actor target =
    modify (put_audit (record { action = action; actor_id = actor; target_id = some target }))

-- A transaction is saved and logged.
unfoldable pub submit : AuditAction → ℕ → Transaction → Action Transaction
submit action actor t = do modify (put_transaction t); log action actor t.id; pure t

unfoldable pub create_withdrawal_request : Clock → CreateWithdrawalInput → Action Transaction
unfolding submit
create_withdrawal_request clock input = do
  found ← gets (find_wallet_of input.user_id)
  wallet ← or_raise found invalid_withdrawal
  withdrawal_amount ← lift (from_cents input.amount_cents)
  raise_if (not (can_withdraw withdrawal_amount wallet)) insufficient_balance
  new_id ← fresh_id
  submit withdrawal_requested input.user_id (
      create_withdrawal new_id input.user_id input.amount_cents
        (record {
          bank_account = input.bank_account;
          description = input.description;
          pix_key = none;
          pix_key_type = none;
          subscription_id = none;
        })
        clock.now)

-- `approve_withdrawal`. A client without a wallet is not looked for: `None.debit` raises.
unfoldable pub approve_withdrawal : Clock → ℕ → ℕ → Action Transaction
unfolding submit may_decide
approve_withdrawal clock admin_id transaction_id = do
  admin ← gets (find_user admin_id)
  raise_if (not (may_decide admin)) authorization
  found ← gets (find_transaction transaction_id)
  transaction ← or_raise found transaction_not_found
  raise_if (not (is_pending_status transaction.status)) invalid_withdrawal
  purse ← gets (find_wallet_of transaction.user_id)
  withdrawal_amount ← lift (from_cents transaction.amount_cents)
  wallet ← or_raise purse attribute_error
  debited ← lift (debit withdrawal_amount clock.now wallet)
  modify (put_wallet debited)
  confirmed ← lift (confirm none clock.now transaction)
  submit withdrawal_approved admin_id confirmed

-- The status that a rejection gives back to the subscription.
unfoldable pub reinstated : Subscription → Subscription
unfolding is_fully_paid
reinstated s =
    if is_fully_paid s then record s { status = completed } else record s { status = active }

-- `if sub:`
unfoldable pub reinstate_found : Option Subscription → Action (Unit {0})
unfolding reinstated
reinstate_found none = pure tt
reinstate_found (some sub) = modify (put_subscription (reinstated sub))

-- `if transaction.subscription_id:`
unfoldable pub reinstate : Option ℕ → Action (Unit {0})
unfolding reinstate_found
reinstate none = pure tt
reinstate (some subscription_id) = do
  sub ← gets (find_subscription subscription_id)
  reinstate_found sub

unfoldable pub reject_withdrawal : Clock → ℕ → ℕ → String → Action Transaction
unfolding may_decide reinstate
reject_withdrawal clock transaction_id admin_id reason = do
  admin ← gets (find_user admin_id)
  raise_if (not (may_decide admin)) authorization
  found ← gets (find_transaction transaction_id)
  transaction ← or_raise found transaction_not_found
  raise_if (not (is_pending_status transaction.status)) invalid_withdrawal
  rejected ← lift (reject_with_reason reason clock.now transaction)
  modify (put_transaction rejected)
  reinstate rejected.subscription_id
  log withdrawal_rejected admin_id rejected.id
  pure rejected
