-- ===== src/PixPayments.antt =====
-- What the two services of Pix payments share: the payload of the gateway
-- (app/infrastructure/payment/pix_gateway.py, whose requests go to Mercado Pago and are a parameter
-- of the services), the bulk expiration of the transaction repository, and the look-up of one
-- payment with its owner.
pub mod Expiration
use blanco_financas_api.Prelude.{
  ℕ, ◌==◌, if◌then◌else◌, Bool, ◌&&◌, Option, none, some, String, ℤ, Text, map, length, filter_by,
}
use blanco_financas_api.Errors.{Result, payment_not_found}
use blanco_financas_api.Transactions.{Transaction, TransactionType, expired, is_stale, expire}
use blanco_financas_api.Store.{find_transaction, put_transaction, same_type}
use blanco_financas_api.Session.{
  Action, Clock, ◌>>=◌, ◌>>◌, commit, gets, lift, modify, or_raise, pure,
}

-- `PixPayload`, as far as the services read it
pub record PixPayload : Type 0 where
  pub transaction_id : String
  pub qr_code_data : String
  pub qr_code_base64 : Option String
  pub expiration_minutes : ℕ

-- A request to the gateway: the transaction's identifier, the amount in cents, the description and
-- the payer's e-mail address.
abbrev pub Gateway : Type 0
Gateway = ℕ → ℤ → String → Text → Result PixPayload

-- The payload's fields on the saved transaction.
unfoldable pub with_payload : PixPayload → Transaction → Transaction
with_payload p t = record t {
  pix_transaction_id = some p.transaction_id;
  pix_qr_code_data = some p.qr_code_data;
  pix_qr_code_base64 = p.qr_code_base64;
  expiration_minutes = some p.expiration_minutes;
}

-- The query of `expire_stale_payments` and its test of the time: a stale payment of the user.
unfoldable pub expires_for : ℕ → ℕ → TransactionType → Transaction → Bool
unfolding is_stale
expires_for now user kind t =
    t.user_id == user && (same_type t.transaction_type kind && is_stale now t)

-- The update of one row.
unfoldable pub expire_row : ℕ → ℕ → TransactionType → Transaction → Transaction
unfolding expires_for
expire_row now user kind t =
    if expires_for now user kind t then record t { status = expired; updated_at = now } else t

-- `expire_stale_payments`: the update of the rows, and their number.
unfoldable pub expire_stale_payments : ℕ → ℕ → TransactionType → Action ℕ
unfolding expire_row
expire_stale_payments now user kind = do
  count ← gets (λ db. length (filter_by (expires_for now user kind) db.transactions))
  modify (λ db. record db { transactions = map (expire_row now user kind) db.transactions })
  pure count

-- `if count: await session.commit()`
unfoldable pub commit_if_any : ℕ → Action (Unit {0})
commit_if_any count = if count == 0 then pure tt else commit

-- `not tx or tx.transaction_type != kind or tx.user_id != user_id`, negated
unfoldable pub payment_of : ℕ → TransactionType → Option Transaction → Option Transaction
payment_of user kind none = none
payment_of user kind (some t) =
    if same_type t.transaction_type kind && t.user_id == user then some t else none

-- What is done with a stale payment: it expires, and the request commits.
unfoldable pub refresh : Clock → Transaction → Action Transaction
unfolding is_stale expire
refresh clock t =
    if is_stale clock.now t
    then (do
      expired_payment ← lift (expire clock.now t)
      modify (put_transaction expired_payment)
      commit
      pure expired_payment)
    else pure t

-- `get_payment` of both services
unfoldable pub get_payment : TransactionType → Clock → ℕ → ℕ → Action Transaction
unfolding payment_of refresh
get_payment kind clock payment_id user = do
  found ← gets (find_transaction payment_id)
  payment ← or_raise (payment_of user kind found) payment_not_found
  refresh clock payment
