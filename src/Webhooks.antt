-- ===== src/Webhooks.antt =====
-- The webhooks of app/api/v1/endpoints/admin.py: `pix_webhook` here and `mercadopago_webhook` in the
-- child MercadoPago. They look up a transaction by what the provider says and call the service of
-- its type.
pub mod Signature
pub mod MercadoPago
pub mod Pix
use blanco_financas_api.Prelude.{
  ℕ, if◌then◌else◌, Bool, true, false, Option, none, some, List, String, filter_by, same_string,
}
use blanco_financas_api.Transactions.{
  Transaction, TransactionType, deposit, withdrawal, yield_credit, fee, fundo_garantidor,
  subscription_installment_payment, subscription_activation_payment, fail,
}
use blanco_financas_api.Store.{Store, put_transaction}
use blanco_financas_api.Session.{Action, Clock, ◌>>=◌, ◌>>◌, commit, gets, lift, modify, pure}
use blanco_financas_api.Accounts.{sole}
use blanco_financas_api.InstallmentPayments.{confirm_payment}
use blanco_financas_api.ActivationPayments.{confirm_activation}
use blanco_financas_api.DepositService.{confirm_deposit}

-- `PixWebhookPayload`, as far as it is read
pub record PixWebhookPayload : Type 0 where
  pub pix_id : String
  pub status : String

abbrev pub has_pix_id : String → Option String → Bool
has_pix_id wanted none = false
has_pix_id wanted (some id) = same_string id wanted

-- `get_by_pix_transaction_id`, which raises where several rows have the identifier
unfoldable pub find_by_pix_id : String → Action (Option Transaction)
unfolding sole
find_by_pix_id pix_id = do
  rows ← gets (λ db. filter_by (λ t. has_pix_id pix_id t.pix_transaction_id) db.transactions)
  lift (sole rows)

-- What a webhook answers.
pub data Answer : Type 0 where
  unknown_transaction ignored acknowledged : Answer
  confirmed failed expired cancelled already_confirmed skipped still_pending : ℕ → Answer
  order_not_found gateway_unavailable invalid_amount amount_mismatch unauthorized : Answer
  mp_api_error : ℕ → Answer

-- The service's confirmation for the type of a transaction, if it has one.
unfoldable pub confirmation : Clock → String → Transaction → String → Option (Action Transaction)
confirmation clock fund_description t pix_id = elim t.transaction_type [
  | deposit ↦ some (confirm_deposit clock fund_description t.id pix_id)
  | subscription_installment_payment ↦ some (confirm_payment clock t.id pix_id)
  | subscription_activation_payment ↦ some (confirm_activation clock t.id pix_id)
  | withdrawal ↦ none
  | yield_credit ↦ none
  | fee ↦ none
  | fundo_garantidor ↦ none
]

-- `transaction.fail()` and what follows it
unfoldable pub fail_transaction : Clock → Transaction → Action Answer
fail_transaction clock t = do
  after ← lift (fail clock.now t)
  modify (put_transaction after)
  commit
  pure (failed t.id)

-- What is done with a transaction whose type has a confirmation, for one status of the payload.
unfoldable pub follow_status :
    Clock → String → Transaction → Option (Action Transaction) → Action Answer
unfolding fail_transaction
follow_status clock status t none = pure ignored
follow_status clock status t (some confirm) =
    if same_string status "confirmed"
    then (do confirm; pure (confirmed t.id))
    else if same_string status "failed"
    then fail_transaction clock t
    else pure ignored

abbrev pub follow_found : Clock → String → PixWebhookPayload → Option Transaction → Action Answer
follow_found clock fund_description payload none = pure unknown_transaction
follow_found clock fund_description payload (some t) =
    follow_status clock payload.status t (confirmation clock fund_description t payload.pix_id)

unfoldable pub pix_webhook : Clock → String → PixWebhookPayload → Action Answer
unfolding find_by_pix_id follow_status confirmation
pix_webhook clock fund_description payload = do
  found ← find_by_pix_id payload.pix_id
  follow_found clock fund_description payload found
