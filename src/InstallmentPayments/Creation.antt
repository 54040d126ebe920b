-- ===== src/InstallmentPayments/Creation.antt =====
-- `create_payment`: one Pix payment for the current installments of several subscriptions. The
-- order in which `list(set(...))` yields the identifiers is a parameter.
pub mod Charge
use blanco_financas_api.Prelude.{
  ℕ, Bool, true, false, not, Option, none, some, List, [], ◌∷◌, String, ℤ, Text, codes, pos, ◌+ℤ◌,
}
use blanco_financas_api.Errors.{invalid_payment, duplicate_payment}
use blanco_financas_api.Money.{calculate_pix_fee}
use blanco_financas_api.Subscriptions.{is_active_status, is_fully_paid, current_installment_number}
use blanco_financas_api.Transactions.{
  Transaction, TransactionItem, create_installment_payment, create_item,
  subscription_installment_payment,
}
use blanco_financas_api.Plans.{Plan}
use blanco_financas_api.Users.{User}
use blanco_financas_api.Store.{
  find_plan, find_subscription, find_user, installment_payment_created, pending_for_subscription,
  put_audit, put_transaction, put_transaction_with_items,
}
use blanco_financas_api.Session.{
  Action, Clock, ◌>>=◌, ◌>>◌, commit, fresh_id, gets, lift, modify, or_raise, pure, raise_if,
}
use blanco_financas_api.PixPayments.{Gateway, PixPayload, with_payload}
use blanco_financas_api.InstallmentPayments.Closure.{owned_by}

-- An entry of `items_data`.
pub record ItemData : Type 0 where
  pub subscription_id : ℕ
  pub subscription_name : String
  pub plan_title : String
  pub amount_cents : ℤ
  pub installment_number : ℕ

abbrev pub title_of : Option Plan → String
title_of none = "Plano removido"
title_of (some p) = p.title

-- `sub.name or plan_title`
abbrev pub name_or : String → String → String
name_or String.[] title = title
name_or name title = name

abbrev pub payer_email : Option User → Text
payer_email none = codes "pagador@testuser.com"
payer_email (some u) = u.email.value

abbrev pub is_empty : {A : Type 0} → List A → Bool
is_empty [] = true
is_empty (x ∷ xs) = false

-- The first loop's body: a subscription is checked, and read.
unfoldable pub payable_item : ℕ → ℕ → Action ItemData
unfolding owned_by is_fully_paid
payable_item user sub_id = do
  found ← gets (find_subscription sub_id)
  sub ← or_raise (owned_by user found) invalid_payment
  raise_if (not (is_active_status sub.status)) invalid_payment
  raise_if (is_fully_paid sub) invalid_payment
  pending ← gets (pending_for_subscription sub_id subscription_installment_payment)
  raise_if (not (is_empty pending)) duplicate_payment
  plan ← gets (find_plan sub.plan_id)
  pure (record {
    subscription_id = sub.id;
    subscription_name = name_or sub.name (title_of plan);
    plan_title = title_of plan;
    amount_cents = sub.monthly_amount_cents;
    installment_number = current_installment_number sub;
  })

-- The first loop.
unfoldable pub payable_items : ℕ → List ℕ → Action (List ItemData)
unfolding payable_item
payable_items user [] = pure []
payable_items user (sub_id ∷ ids) = do
  d ← payable_item user sub_id
  rest ← payable_items user ids
  pure (d ∷ rest)

-- `sum(item["amount_cents"] for item in items_data)`
abbrev pub data_total : List ItemData → ℤ
data_total [] = pos 0
data_total (d ∷ ds) = d.amount_cents +ℤ data_total ds

-- The items of the transaction, each with an identifier of its own.
unfoldable pub make_items : ℕ → List ItemData → Action (List TransactionItem)
make_items transaction_id [] = pure []
make_items transaction_id (d ∷ ds) = do
  new_id ← fresh_id
  item ← lift (
      create_item (record {
        id = new_id;
        transaction_id = transaction_id;
        subscription_id = d.subscription_id;
        subscription_name = d.subscription_name;
        plan_title = d.plan_title;
        amount_cents = d.amount_cents;
        installment_number = some d.installment_number;
      }))
  rest ← make_items transaction_id ds
  pure (item ∷ rest)

-- `transaction`, before the gateway is asked
unfoldable pub draft_payment : ℕ → ℕ → ℤ → ℕ → Transaction
draft_payment new_id user total now =
    create_installment_payment new_id user total "" 30 (pos 0) none now

-- The gateway's answer is stored, and the request commits.
unfoldable pub register_order : ℕ → Transaction → PixPayload → Action Transaction
register_order user saved payload = do
  modify (put_transaction (with_payload payload saved))
  modify (
      put_audit (record {
        action = installment_payment_created;
        actor_id = user;
        target_id = some saved.id;
      }))
  commit
  pure (with_payload payload saved)

module _ (gateway : Gateway) (unique : List ℕ → List ℕ) where
  -- What follows the first save.
  unfoldable pub register_payment : ℕ → String → Transaction → Action Transaction
  unfolding register_order
  register_payment user description saved = do
    payer ← gets (find_user user)
    payload ← lift (gateway saved.id saved.amount_cents description (payer_email payer))
    register_order user saved payload

  -- The transaction and its items are saved, and the gateway is asked.
  unfoldable pub open_payment :
      Clock → String → ℕ → ℤ → ℕ → List TransactionItem → Action Transaction
  unfolding register_payment
  open_payment clock description user total new_id items = do
    modify (put_transaction_with_items (draft_payment new_id user total clock.now) items)
    register_payment user description
        (record (draft_payment new_id user total clock.now) { items = items })

  -- What follows the first loop.
  unfoldable pub assemble_payment : Clock → String → ℕ → List ItemData → Action Transaction
  unfolding open_payment
  assemble_payment clock description user items_data = do
    pix_fee ← lift (calculate_pix_fee (data_total items_data))
    new_id ← fresh_id
    items ← make_items new_id items_data
    open_payment clock description user (data_total items_data +ℤ pos pix_fee) new_id items

  -- `create_payment`, with the text of the description as an argument
  unfoldable pub create_payment : Clock → String → ℕ → List ℕ → Action Transaction
  unfolding assemble_payment
  create_payment clock description user subscription_ids = do
    raise_if (is_empty subscription_ids) invalid_payment
    items_data ← payable_items user (unique subscription_ids)
    assemble_payment clock description user items_data
