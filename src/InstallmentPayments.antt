-- ===== src/InstallmentPayments.antt =====
-- app/application/services/installment_payment_service.py: the confirmation of a payment here, its
-- creation and the withdrawal from a plan in the children. What a service returns for display is
-- left at the entities that it shows.
pub mod Confirm
pub mod Repeat
pub mod Holding
pub mod Ready
pub mod Credit
pub mod Closure
pub mod Creation
pub mod Listings
pub mod History
use blanco_financas_api.Prelude.{
  ℕ, ltb, ◌==◌, if◌then◌else◌, Bool, true, false, not, ◌&&◌, Option, none, some, is_some, List, [],
  ◌∷◌, String, ℤ, pos,
}
use blanco_financas_api.Errors.{Result, ok, err, payment_not_found, attribute_error}
use blanco_financas_api.Errors
use blanco_financas_api.Money.{Money, money, from_cents}
use blanco_financas_api.Installments.{
  InstallmentCalculator, new_calculator, calculate_first_installment,
  calculate_subsequent_installment,
}
use blanco_financas_api.Subscriptions.{Subscription, record_deposit_paid}
use blanco_financas_api.Wallets.{Wallet, credit_investment, add_fundo_garantidor}
use blanco_financas_api.Transactions.{Transaction, TransactionItem, confirm_payment_of}
use blanco_financas_api.Store.{
  Store, PrincipalDeposit, AuditLog, installment_payment_confirmed, find_subscription,
  put_subscription, find_transaction, put_transaction, find_wallet_of, put_wallet,
  find_deposit_of_item, put_deposit, put_audit,
}
use blanco_financas_api.Session.{
  Action, Clock, pure, raise, lift, gets, or_raise, ◌>>=◌, ◌>>◌, modify, fresh_id, commit,
}

-- What of an installment goes to the investment and to the guarantee fund.
pub record Shares : Type 0 where
  pub investment_amount : Money
  pub fundo_garantidor_amount : Money

-- `item.installment_number == 1 and not sub.covers_activation_fees`
unfoldable pub pays_fees : Option ℕ → Subscription → Bool
pays_fees none sub = false
pays_fees (some n) sub = n == 1 && not sub.covers_activation_fees

unfoldable pub shares_of : Option ℕ → Subscription → InstallmentCalculator → Money → Result Shares
unfolding pays_fees
shares_of number sub calculator amount =
    if pays_fees number sub
    then Errors.◌>>=◌ (calculate_first_installment calculator amount) (λ b. ok (record {
      investment_amount = b.investment_amount;
      fundo_garantidor_amount = b.fundo_garantidor_amount;
    }))
    else Errors.◌>>=◌ (calculate_subsequent_installment calculator amount) (λ b. ok (record {
      investment_amount = b.investment_amount;
      fundo_garantidor_amount = b.fundo_garantidor_amount;
    }))

-- The principal deposit of an item, unless it has one or nothing was invested.
unfoldable pub deposit_principal : Clock → ℕ → TransactionItem → Money → Action (Unit {0})
deposit_principal clock user item invested = do
  existing ← gets (find_deposit_of_item item.id)
  if not (is_some existing) && ltb 0 invested.cents
      then (do
        new_id ← fresh_id
        modify (
            put_deposit (record {
              id = new_id;
              user_id = user;
              subscription_id = item.subscription_id;
              transaction_item_id = item.id;
              installment_number = item.installment_number;
              principal_cents = pos invested.cents;
              deposited_at = clock.today;
              last_yield_run_date = none;
              created_at = clock.now;
            })))
      else pure tt

-- The part of the loop's body that needs a wallet.
unfoldable pub credit_item : Clock → ℕ → Wallet → Subscription → TransactionItem → Action (Unit {0})
unfolding shares_of deposit_principal
credit_item clock user wallet sub item = do
  amount ← lift (from_cents item.amount_cents)
  calculator ← lift (new_calculator sub.guarantee_fund_percent none none)
  shares ← lift (shares_of item.installment_number sub calculator amount)
  modify (
      put_wallet (
        add_fundo_garantidor shares.fundo_garantidor_amount clock.now
          (credit_investment shares.investment_amount clock.now wallet)))
  deposit_principal clock user item shares.investment_amount

-- `if wallet:`
unfoldable pub credit_if_found :
    Clock → ℕ → Option Wallet → Subscription → TransactionItem → Action (Unit {0})
unfolding credit_item
credit_if_found clock user none sub item = pure tt
credit_if_found clock user (some wallet) sub item = credit_item clock user wallet sub item

-- The loop's body for an item whose subscription was found.
unfoldable pub pay_item : Clock → ℕ → Subscription → TransactionItem → Action (Unit {0})
unfolding credit_if_found
pay_item clock user sub item = do
  paid ← lift (record_deposit_paid clock.now sub)
  modify (put_subscription paid)
  wallet ← gets (find_wallet_of user)
  credit_if_found clock user wallet paid item

-- `if not sub: continue`
unfoldable pub pay_if_found : Clock → ℕ → Option Subscription → TransactionItem → Action (Unit {0})
unfolding pay_item
pay_if_found clock user none item = pure tt
pay_if_found clock user (some sub) item = pay_item clock user sub item

unfoldable pub confirm_item : Clock → ℕ → TransactionItem → Action (Unit {0})
unfolding pay_if_found
confirm_item clock user item = do
  sub ← gets (find_subscription item.subscription_id)
  pay_if_found clock user sub item

-- The loop over the items of a payment.
unfoldable pub confirm_items : Clock → ℕ → List TransactionItem → Action (Unit {0})
unfolding confirm_item
confirm_items clock user [] = pure tt
confirm_items clock user (item ∷ items) =
    confirm_item clock user item >>= λ _. confirm_items clock user items

-- What follows the loop: the payment is saved and loaded again, and the request commits.
unfoldable pub finish_payment : Clock → Transaction → Action Transaction
finish_payment clock payment = do
  modify (put_transaction payment)
  reloaded ← gets (find_transaction payment.id)
  saved ← or_raise reloaded attribute_error
  modify (
      put_audit (record {
        action = installment_payment_confirmed;
        actor_id = payment.user_id;
        target_id = some saved.id;
      }))
  commit
  pure saved

-- What follows a change of status.
unfoldable pub settle_payment : Clock → Transaction → Action Transaction
unfolding confirm_items finish_payment
settle_payment clock payment =
    confirm_items clock payment.user_id payment.items >>= λ _. finish_payment clock payment

-- `confirm_payment`
unfoldable pub confirm_payment : Clock → ℕ → String → Action Transaction
unfolding settle_payment
confirm_payment clock payment_id pix_transaction_id = do
  found ← gets (find_transaction payment_id)
  payment ← or_raise found payment_not_found
  confirmed ← lift (confirm_payment_of pix_transaction_id clock.now payment)
  if confirmed.1 then settle_payment clock confirmed.0 else pure confirmed.0
