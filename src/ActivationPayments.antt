-- ===== src/ActivationPayments.antt =====
-- app/application/services/subscription_activation_payment_service.py: the one Pix payment that
-- activates a subscription.
pub mod Confirm
use blanco_financas_api.Prelude.{
  find_by, filter_by, sort_by, ltb, ◌&&◌, ℕ, if◌then◌else◌, true, not, Option, none, some, List, [],
  ◌∷◌, String, pos, ◌+ℤ◌,
}
use blanco_financas_api.Errors.{
  Result, ok, err, attribute_error, invalid_payment, payment_not_found, subscription_not_found,
}
use blanco_financas_api.Errors
use blanco_financas_api.Money.{calculate_pix_fee, from_cents}
use blanco_financas_api.Installments.{new_calculator, calculate_first_installment}
use blanco_financas_api.Subscriptions.{Subscription, activate, is_inactive_status}
use blanco_financas_api.Transactions.{
  Transaction, TransactionType, confirm_payment_of, create_activation_payment, create_item,
  subscription_activation_payment,
}
use blanco_financas_api.Store.{
  Store, pays_for, find_plan, find_subscription, find_transaction, find_user,
  pending_for_subscription, put_audit, put_subscription, put_transaction,
  put_transaction_with_items, same_type, subscription_activation_payment_confirmed,
  subscription_activation_payment_created,
}
use blanco_financas_api.Session.{
  Action, Clock, ◌>>=◌, ◌>>◌, commit, fresh_id, gets, lift, modify, or_raise, pure, raise_if,
}
use blanco_financas_api.PixPayments.{Gateway, expire_stale_payments, get_payment, with_payload}
use blanco_financas_api.InstallmentPayments.Closure.{owned_by}
use blanco_financas_api.InstallmentPayments.Creation.{name_or, payer_email}

-- What an activation costs.
pub record ActivationCosts : Type 0 where
  pub admin_tax_cents : ℕ
  pub insurance_cents : ℕ
  pub pix_fee_cents : ℕ

-- The fees of a first installment, and the Pix fee on both.
unfoldable pub activation_costs : Subscription → Result ActivationCosts
activation_costs sub = Errors.◌>>=◌ (from_cents sub.monthly_amount_cents) (λ monthly.
    Errors.◌>>=◌ (new_calculator sub.guarantee_fund_percent none none) (λ calculator.
      Errors.◌>>=◌ (calculate_first_installment calculator monthly) (λ breakdown.
        Errors.◌>>=◌
          (calculate_pix_fee
            (pos breakdown.fee_amount.cents +ℤ pos breakdown.insurance_amount.cents))
          (λ pix_fee. ok (record {
            admin_tax_cents = breakdown.fee_amount.cents;
            insurance_cents = breakdown.insurance_amount.cents;
            pix_fee_cents = pix_fee;
          })))))

-- The transaction of the payment, before the gateway is asked.
unfoldable pub draft_activation : ℕ → ℕ → ℕ → ActivationCosts → ℕ → Transaction
draft_activation new_id user sub_id costs now =
    create_activation_payment new_id user sub_id (pos costs.admin_tax_cents)
      (pos costs.insurance_cents) (pos costs.pix_fee_cents) "" 30 none now

module _ (gateway : Gateway) where
  -- What follows the first save.
  unfoldable pub register_activation : ℕ → String → Transaction → Action Transaction
  register_activation user description saved = do
    payer ← gets (find_user user)
    payload ← lift (gateway saved.id saved.amount_cents description (payer_email payer))
    modify (put_transaction (with_payload payload saved))
    modify (
        put_audit (record {
          action = subscription_activation_payment_created;
          actor_id = user;
          target_id = some saved.id;
        }))
    commit
    pure (with_payload payload saved)

  -- A payment for a subscription that has none pending.
  unfoldable pub create_activation : Clock → String → ℕ → Subscription → Action Transaction
  unfolding activation_costs draft_activation register_activation
  create_activation clock description user sub = do
    found ← gets (find_plan sub.plan_id)
    plan ← or_raise found invalid_payment
    costs ← lift (activation_costs sub)
    new_id ← fresh_id
    item_id ← fresh_id
    item ← lift (
        create_item (record {
          id = item_id;
          transaction_id = new_id;
          subscription_id = sub.id;
          subscription_name = name_or sub.name plan.title;
          plan_title = plan.title;
          amount_cents = (draft_activation new_id user sub.id costs clock.now).amount_cents;
          installment_number = none;
        }))
    modify (
        put_transaction_with_items (draft_activation new_id user sub.id costs clock.now)
          (item ∷ []))
    register_activation user description
        (record (draft_activation new_id user sub.id costs clock.now) { items = item ∷ [] })

  -- `if pending:`
  unfoldable pub first_or_create :
      Clock → String → ℕ → Subscription → List Transaction → Action Transaction
  unfolding create_activation
  first_or_create clock description user sub [] = create_activation clock description user sub
  first_or_create clock description user sub (t ∷ ts) = do
    reloaded ← gets (find_transaction t.id)
    or_raise reloaded attribute_error

  -- `create_or_get_pending`, with the text of the description as an argument
  unfoldable pub create_or_get_pending : Clock → String → ℕ → ℕ → Action Transaction
  unfolding first_or_create owned_by
  create_or_get_pending clock description user sub_id = do
    found ← gets (find_subscription sub_id)
    sub ← or_raise (owned_by user found) subscription_not_found
    raise_if (not (is_inactive_status sub.status)) invalid_payment
    expire_stale_payments clock.now user subscription_activation_payment
    pending ← gets (pending_for_subscription sub_id subscription_activation_payment)
    first_or_create clock description user sub pending

-- `get_payment`
abbrev pub get_activation_payment : Clock → ℕ → ℕ → Action Transaction
get_activation_payment = get_payment subscription_activation_payment

-- `get_latest_for_subscription`: the newest of its transactions of the kind
unfoldable pub latest_for_subscription : ℕ → TransactionType → Store → Option Transaction
latest_for_subscription sub_id kind db =
    find_by (λ t. true)
      (sort_by (λ a b. ltb b.created_at a.created_at)
        (filter_by (λ t. pays_for sub_id t && same_type t.transaction_type kind) db.transactions))

abbrev find_first : List Transaction → Store → Option Transaction
find_first [] db = none
find_first (t ∷ ts) db = find_transaction t.id db

abbrev or_else : Option Transaction → Option Transaction → Option Transaction
or_else none latest = latest
or_else (some t) latest = some t

unfoldable pub get_payment_for_subscription : Clock → ℕ → ℕ → Action Transaction
unfolding owned_by latest_for_subscription
get_payment_for_subscription clock sub_id user = do
  found ← gets (find_subscription sub_id)
  or_raise (owned_by user found) subscription_not_found
  expire_stale_payments clock.now user subscription_activation_payment
  pending ← gets (pending_for_subscription sub_id subscription_activation_payment)
  reloaded ← gets (find_first pending)
  latest ← gets (latest_for_subscription sub_id subscription_activation_payment)
  or_raise (or_else reloaded latest) payment_not_found

-- `not tx or tx.transaction_type != ...`, negated
unfoldable pub activation_of : Option Transaction → Option Transaction
activation_of none = none
activation_of (some t) =
    if same_type t.transaction_type subscription_activation_payment then some t else none

-- The subscription once its activation is paid.
unfoldable pub activated : Clock → Subscription → Result Subscription
unfolding activate
activated clock sub =
    Errors.◌>>=◌ (activate sub.deposit_day_of_month clock.today clock.now sub)
      (λ s. ok (record s { covers_activation_fees = true }))

-- `if sub and sub.status == INACTIVE`
unfoldable pub activate_if_inactive : Clock → Option Subscription → Action (Unit {0})
unfolding activated
activate_if_inactive clock none = pure tt
activate_if_inactive clock (some sub) =
    if is_inactive_status sub.status
    then (do s ← lift (activated clock sub); modify (put_subscription s))
    else pure tt

-- `if tx.subscription_id`
unfoldable pub activate_paid : Clock → Option ℕ → Action (Unit {0})
unfolding activate_if_inactive
activate_paid clock none = pure tt
activate_paid clock (some sub_id) = do
  sub ← gets (find_subscription sub_id)
  activate_if_inactive clock sub

-- What follows a change of status.
unfoldable pub settle_activation : Clock → Transaction → Action Transaction
unfolding activate_paid
settle_activation clock t = do
  activate_paid clock t.subscription_id
  modify (put_transaction t)
  modify (
      put_audit (record {
        action = subscription_activation_payment_confirmed;
        actor_id = t.user_id;
        target_id = some t.id;
      }))
  commit
  reloaded ← gets (find_transaction t.id)
  or_raise reloaded attribute_error

-- `confirm_payment`
unfoldable pub confirm_activation : Clock → ℕ → String → Action Transaction
unfolding activation_of settle_activation
confirm_activation clock payment_id pix_transaction_id = do
  found ← gets (find_transaction payment_id)
  payment ← or_raise (activation_of found) payment_not_found
  confirmed ← lift (confirm_payment_of pix_transaction_id clock.now payment)
  if confirmed.1 then settle_activation clock confirmed.0 else pure confirmed.0
