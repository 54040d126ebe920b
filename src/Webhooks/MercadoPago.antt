-- ===== src/Webhooks/MercadoPago.antt =====
-- `mercadopago_webhook` of app/api/v1/endpoints/admin.py, after the check of the signature. What
-- Mercado Pago answers to the request for the order is a parameter.
pub mod Totals
pub mod Kept
pub mod Guards
pub mod Amounts
use blanco_financas_api.Prelude.{
  ℕ, suc, ◌==◌, if◌then◌else◌, Bool, true, false, not, ◌&&◌, ◌||◌, Option, none, some, List, String,
  same_string, ℤ, pos, negsuc,
}
use blanco_financas_api.Errors.{Error, Result, ok, err, value_error, attribute_error}
use blanco_financas_api.Decimal.{Decimal, decimal, div_hundred, quantize}
use blanco_financas_api.Transactions.{
  Transaction, is_pending_status, is_confirmed_status, fail, expire, cancel,
}
use blanco_financas_api.Store.{
  Store, AuditAction, put_audit, put_transaction, find_transaction, webhook_received,
  webhook_signature_valid, webhook_signature_invalid, webhook_amount_mismatch,
  webhook_payment_confirmed, webhook_payment_failed, webhook_payment_expired,
  webhook_unknown_transaction,
}
use blanco_financas_api.Session.{
  Action, Clock, Outcome, done, raised, ◌>>=◌, ◌>>◌, commit, gets, lift, modify, pure,
}
use blanco_financas_api.Webhooks.MercadoPago.Totals.{
  OrderTotal, order_amount, transaction_amount, both,
}
use blanco_financas_api.Withdrawals.{log}
use blanco_financas_api.Webhooks.{
  Answer, unknown_transaction, ignored, acknowledged, confirmed, failed, expired, cancelled,
  already_confirmed, skipped, still_pending, order_not_found, gateway_unavailable, invalid_amount,
  amount_mismatch, unauthorized, mp_api_error, find_by_pix_id, confirmation,
}
use blanco_financas_api.Webhooks.Signature.{
  Verifier, Notice, Verdict, missing, malformed, invalid_ts, out_of_tolerance, mismatch,
  not_comparable, bypassed, valid, judge,
}

-- `external_reference`, read as an identifier
pub data Reference : Type 0 where
  no_reference malformed_reference : Reference
  reference : ℕ → Reference

-- The order, as far as it is read. A missing text is empty.
pub record Order : Type 0 where
  pub id : Option String
  pub external_reference : Reference
  pub status : String
  pub total_amount : OrderTotal
  pub payment_status : String

-- What `get_order` gives.
pub data OrderReply : Type 0 where
  http_error : ℕ → OrderReply
  no_answer : OrderReply
  found_order : Order → OrderReply

-- `_SYSTEM_ACTOR_ID`
abbrev pub system_actor_id : ℕ
system_actor_id = 1

abbrev pub system_log : AuditAction → Store → Store
system_log action =
    put_audit (record { action = action; actor_id = system_actor_id; target_id = none })

abbrev is_value_error : Error → Bool
is_value_error value_error = true
is_value_error _ = false

-- `try: ... except ValueError: ...`, where nothing is rolled back.
abbrev pub except_value_error : {A B : Type 0} → Action A → Action B → (A → Action B) → Action B
except_value_error body handler rest s = elim (body s) [
  | done a s' ↦ rest a s'
  | raised e s' ↦ if is_value_error e then handler s' else raised e s'
]

-- Step 3: by the order's identifier, then by the reference.
abbrev pub by_reference : Reference → Store → Option Transaction
by_reference no_reference db = none
by_reference malformed_reference db = none
by_reference (reference id) db = find_transaction id db

abbrev pub or_referred : Option Transaction → Option Transaction → Option Transaction
or_referred none referred = referred
or_referred (some t) referred = some t

unfoldable pub locate : String → Reference → Action (Option Transaction)
unfolding find_by_pix_id
locate order_id ref = do
  direct ← find_by_pix_id order_id
  referred ← gets (by_reference ref)
  pure (or_referred direct referred)

abbrev pub has_order_id : String → Option String → Bool
has_order_id order_id none = false
has_order_id order_id (some id) = same_string id order_id

-- The transaction with the order's identifier.
abbrev pub with_order_id : String → Transaction → Transaction
with_order_id order_id t = record t { pix_transaction_id = some order_id }

-- `if transaction.pix_transaction_id != order_id: ...`
unfoldable pub heal : String → Transaction → Action Transaction
heal order_id t =
    if has_order_id order_id t.pix_transaction_id
    then pure t
    else (do modify (put_transaction (with_order_id order_id t)); pure (with_order_id order_id t))

-- The dispatch of a paid order.
unfoldable pub confirm_order : Clock → Transaction → Option (Action Transaction) → Action Answer
confirm_order clock t none = do commit; pure ignored
confirm_order clock t (some confirm) =
    except_value_error confirm
      (do log webhook_payment_confirmed t.user_id t.id; commit; pure (skipped t.id))
      (λ c. do log webhook_payment_confirmed t.user_id t.id; commit; pure (confirmed t.id))

unfoldable pub paid_order : Clock → String → String → Transaction → Action Answer
unfolding confirm_order confirmation
paid_order clock fund_description order_id t =
    if is_confirmed_status t.status
    then (do commit; pure (already_confirmed t.id))
    else confirm_order clock t (confirmation clock fund_description t order_id)

-- `if transaction.status == PENDING: ...`, for what changes its status
unfoldable pub close_pending : Transaction → Result Transaction → Action (Unit {0})
close_pending t after =
    if is_pending_status t.status
    then (do closed ← lift after; modify (put_transaction closed))
    else pure tt

unfoldable pub failed_order : Clock → Transaction → Action Answer
unfolding close_pending
failed_order clock t = do
  close_pending t (fail clock.now t)
  log webhook_payment_failed t.user_id t.id
  commit
  pure (failed t.id)

unfoldable pub expired_order : Clock → Transaction → Action Answer
unfolding close_pending
expired_order clock t = do
  close_pending t (expire clock.now t)
  log webhook_payment_expired t.user_id t.id
  commit
  pure (expired t.id)

unfoldable pub cancelled_order : Clock → Transaction → Action Answer
unfolding close_pending
cancelled_order clock t = do close_pending t (cancel clock.now t); commit; pure (cancelled t.id)

-- Steps 5 and 6.
unfoldable pub dispatch : Clock → String → String → Order → Transaction → Action Answer
unfolding paid_order failed_order expired_order cancelled_order
dispatch clock fund_description order_id order t =
    if same_string order.status "processed" && same_string order.payment_status "processed"
    then paid_order clock fund_description order_id t
    else if same_string order.payment_status "failed"
    then failed_order clock t
    else if same_string order.status "expired"
    then expired_order clock t
    else if same_string order.status "canceled"
    then cancelled_order clock t
    else (do commit; pure (still_pending t.id))

-- Step 4: the amounts, and what follows where they are equal.
unfoldable pub check_amount : Clock → String → String → Order → Transaction → Action Answer
unfolding dispatch order_amount transaction_amount
check_amount clock fund_description order_id order t =
    elim (both (order_amount order.total_amount) (transaction_amount t.amount_cents)) [
      | err e ↦ (do commit; pure invalid_amount)
      | ok true ↦ dispatch clock fund_description order_id order t
      | ok false ↦ (do log webhook_amount_mismatch t.user_id t.id; commit; pure amount_mismatch)
    ]

unfoldable pub reconcile : Clock → String → String → Order → Option Transaction → Action Answer
unfolding heal check_amount
reconcile clock fund_description order_id order none = do
  modify (system_log webhook_unknown_transaction)
  commit
  pure unknown_transaction
reconcile clock fund_description order_id order (some t) = do
  healed ← heal order_id t
  check_amount clock fund_description order_id order healed

abbrev pub order_id_of : Option String → Option String → String
order_id_of (some id) data_id = id
order_id_of none (some data_id) = data_id
order_id_of none none = ""

-- Steps 2 to 6.
unfoldable pub follow_order : Clock → String → Option String → OrderReply → Action Answer
unfolding locate reconcile
follow_order clock fund_description data_id no_answer = pure gateway_unavailable
follow_order clock fund_description data_id (http_error code) =
    if code == 404 then pure order_not_found else pure (mp_api_error code)
follow_order clock fund_description data_id (found_order order) = do
  t ← locate (order_id_of order.id data_id) order.external_reference
  reconcile clock fund_description (order_id_of order.id data_id) order t

-- From the early answer on.
unfoldable pub work_on : Clock → String → Option String → Option String → OrderReply → Action Answer
unfolding follow_order
work_on clock fund_description action data_id reply =
    if has_order_id "order.action_required" action
    then (do commit; pure acknowledged)
    else follow_order clock fund_description data_id reply

abbrev refuse : Action Answer
refuse = do modify (system_log webhook_signature_invalid); commit; pure unauthorized

-- What follows the verdict on the signature. The answer 401 is an exception behind a commit.
unfoldable pub follow_verdict : Verdict → Action Answer → Action Answer
follow_verdict missing work = refuse
follow_verdict malformed work = refuse
follow_verdict invalid_ts work = refuse
follow_verdict out_of_tolerance work = refuse
follow_verdict mismatch work = refuse
follow_verdict not_comparable work = lift (err attribute_error)
follow_verdict bypassed work = do modify (system_log webhook_signature_valid); work
follow_verdict valid work = do modify (system_log webhook_signature_valid); work

-- The whole handler. `action` is the body's, and `reply` what the request for the order gives.
unfoldable pub mercadopago_webhook :
    Verifier → Clock → String → Notice → Option String → OrderReply → Action Answer
unfolding follow_verdict work_on judge
mercadopago_webhook verifier clock fund_description notice action reply = do
  modify (system_log webhook_received)
  commit
  follow_verdict (judge verifier clock.now notice)
      (work_on clock fund_description action notice.data_id reply)
