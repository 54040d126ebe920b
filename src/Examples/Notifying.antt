-- ===== src/Examples/Notifying.antt =====
-- The webhooks and the gateway's retries at concrete inputs.
use blanco_financas_api.Prelude.{
  ℕ, ◌≡◌, ◌⊎◌, refl, arith, true, false, if◌then◌else◌, ◌-◌, leb, ◌&&◌, ◌==◌, Option, some, none,
  [], ◌∷◌, pos, ◌+ℤ◌, ◌-ℤ◌, codes,
}
use blanco_financas_api.Errors.{ok}
use blanco_financas_api.Decimal
use blanco_financas_api.Decimal.{Decimal, decimal}
use blanco_financas_api.Money
use blanco_financas_api.Installments
use blanco_financas_api.Calendar
use blanco_financas_api.DueDates
use blanco_financas_api.Wallets
use blanco_financas_api.InstallmentPayments
use blanco_financas_api.Plans
use blanco_financas_api.Transactions.{Transaction, TransactionItem}
use blanco_financas_api.Transactions
use blanco_financas_api.Subscriptions
use blanco_financas_api.Store
use blanco_financas_api.Store.{Store}
use blanco_financas_api.Session.{run_request}
use blanco_financas_api.InstallmentPayments.{confirm_payment}
use blanco_financas_api.InstallmentPayments.Holding.{Holds}
use blanco_financas_api.InstallmentPayments.Ready.{Covers, Ready, item_total}
use blanco_financas_api.PixGateway.{
  Attempt, returned, failed, timed_out, with_retry, retryable_statuses, amount_asked,
}
use blanco_financas_api.PixGateway.Retries.{Went, with_retry-Went}
use blanco_financas_api.Webhooks
use blanco_financas_api.Webhooks.{pix_webhook}
use blanco_financas_api.Webhooks.Pix.{paid, pix_webhook_conserves}
use blanco_financas_api.Webhooks.Signature
use blanco_financas_api.Webhooks.Signature.{Verifier, Notice, judge, valid, accepts}
use blanco_financas_api.Webhooks.Signature.Header.{judge_signed}
use blanco_financas_api.Accounts
use blanco_financas_api.Webhooks.MercadoPago
use blanco_financas_api.Webhooks.MercadoPago.Totals.{total, order_amount, transaction_amount, both}
use blanco_financas_api.Webhooks.MercadoPago.{
  Order, OrderReply, found_order, no_reference, mercadopago_webhook,
}
use blanco_financas_api.Webhooks.MercadoPago.Kept.{money}
use blanco_financas_api.Webhooks.MercadoPago.Guards.{Paid, mercadopago_webhook_guards}
use blanco_financas_api.Webhooks.MercadoPago.Amounts.{amount_asked-check}
use blanco_financas_api.Examples.Data.{clock, db, house_item, house_payment, purse}

-- The second attempt answers.
abbrev second_time : ℕ → Attempt ℕ
second_time n = if n == 0 then failed timed_out else returned 7

with_retry-Went_example :
    Went second_time 3 1 retryable_statuses 0 (with_retry second_time 3 1 retryable_statuses)
with_retry-Went_example = with_retry-Went second_time 3 1 retryable_statuses (omega arith)

amount_asked-check_example :
    (d : Decimal) × (amount_asked 10099 ≡ ok d)
    × (both (order_amount (total false d)) (transaction_amount (pos 10098)) ≡ ok false)
amount_asked-check_example = amount_asked-check 10099 10098 (omega arith) (omega arith)

abbrev ascii_digit : ℕ → Option ℕ
ascii_digit c = if leb 48 c && leb c 57 then some (c - 48) else none

abbrev production : Verifier
production = record {
  digest = λ text. codes "f00d";
  lower = λ text. text;
  digit_value = ascii_digit;
  tolerance_seconds = 300;
  is_development = false;
}

judge_signed_example :
    judge production 1000 (record {
      x_signature = codes "ts=1,v1=f00d";
      x_request_id = codes "r1";
      data_id = some "ORD1";
    })
    ≡ valid
unfolding Signature.read_int Signature.out_of_time Signature.strip Signature.strip_start
    Plans.is_space
judge_signed_example =
    judge_signed production 1000 (codes "r1") "ORD1" (codes "1") {t = pos 1} refl refl refl refl
      ((refl, refl), tt) ((refl, refl), ((refl, refl), ((refl, refl), ((refl, refl), tt)))) refl
      refl

abbrev signed : Notice
signed = record {
  x_signature = codes "ts=1,v1=f00d";
  x_request_id = codes "r1";
  data_id = some "order";
}

abbrev processed : OrderReply
processed = found_order (record {
  id = some "order";
  external_reference = no_reference;
  status = "processed";
  total_amount = total false (decimal 10099 2);
  payment_status = "processed";
})

-- A store in which one payment alone has the order's identifier.
abbrev single_db : Store
single_db = record db { transactions = house_payment ∷ [] }

mercadopago_webhook_guards_example :
    (money
        (run_request
          (mercadopago_webhook production clock "" signed none processed)
          single_db
          100).1
      ≡ money single_db)
    ⊎ ((accepts (judge production 1000 signed) ≡ true) × Paid (some "order") processed single_db)
mercadopago_webhook_guards_example =
    mercadopago_webhook_guards production clock "" signed none processed single_db 100

single_covered : Covers single_db
unfolding Store.find_subscription Store.by_key
single_covered wanted sub h = ground arith

single-Ready : Ready 7 (pos 5060) house_payment.items single_db
unfolding Store.find_subscription Store.by_key Store.find_wallet_of ◌+ℤ◌
single-Ready = record {
  holding = record { wallet = purse; found = refl; holds = refl; distinct = (tt, tt) };
  covers = single_covered;
  known = (refl, tt);
}

abbrev house_order : Transaction
house_order = record house_payment {
  status = Transactions.confirmed;
  pix_transaction_id = some "order";
  confirmed_at = some 1000;
  updated_at = 1000;
}

order_paid : (run_request (confirm_payment clock 5 "order") single_db 100).0 ≡ ok house_order
unfolding run_request confirm_payment InstallmentPayments.settle_payment
    InstallmentPayments.confirm_items InstallmentPayments.confirm_item
    InstallmentPayments.pay_if_found InstallmentPayments.pay_item
    InstallmentPayments.credit_if_found InstallmentPayments.credit_item
    InstallmentPayments.deposit_principal InstallmentPayments.shares_of
    InstallmentPayments.pays_fees InstallmentPayments.finish_payment Store.find_transaction
    Store.by_key Store.merge Store.find_subscription Store.put_subscription Store.put_transaction
    Store.find_wallet_of Store.put_wallet Store.find_deposit_of_item Store.put_deposit
    Store.put_audit Subscriptions.record_deposit_paid Subscriptions.is_fully_paid
    Subscriptions.complete_if_paid Subscriptions.clear_overdue_and_advance DueDates.advance_due_date
    DueDates.next_month Calendar.make_date Calendar.days_in_month Calendar.is_leap Wallets.credit
    Wallets.credit_investment Wallets.add_fundo_garantidor Transactions.confirm_payment_of
    Money.from_cents Money.of_decimal Money.amount Money.multiply Money.percentage Money.subtract
    Money.add_money Installments.calculate Installments.new_fundo_calculator
    Installments.new_calculator Installments.or_default Installments.split_installment
    Installments.calculate_first_installment Installments.calculate_subsequent_installment
    Decimal.mul Decimal.div_hundred Decimal.quantize Decimal.to_int Decimal.fix
    Decimal.round_half_up ◌+ℤ◌ ◌-ℤ◌
order_paid = refl

pix_webhook_conserves_example :
    let run = run_request (pix_webhook clock "" (paid "order")) single_db 100 in
    (run.0 ≡ ok (Webhooks.confirmed 5)) × Holds 7 (pos 5060 +ℤ item_total house_payment.items) run.1
unfolding Store.find_transaction Store.by_key
pix_webhook_conserves_example =
    pix_webhook_conserves clock "" "order" single_db 100 (pos 5060) refl refl refl refl single-Ready
      order_paid

-- A payment for two plans, the second of which was never activated.
abbrev car_item : TransactionItem
car_item = record house_item { id = 10; subscription_id = 4; installment_number = some 1 }

abbrev two_items : Transaction
two_items = record house_payment { items = house_item ∷ car_item ∷ [] }

abbrev two_items_db : Store
two_items_db = record db { transactions = two_items ∷ [] }

-- What is left of a paid order whose confirmation is refused: the first item has been credited, the
-- payment waits as before, and the notification can come again.
half_confirmed :
    let run =
      run_request
        (mercadopago_webhook production clock "" signed none processed)
        two_items_db
        100 in
    (run.0 ≡ ok (Webhooks.skipped 5))
    × (run.1.transactions ≡ two_items ∷ [])
    × (run.1.wallets
        ≡ record purse {
          balance_cents = pos 14890;
          total_invested_cents = pos 14890;
          fundo_garantidor_cents = pos 170;
          updated_at = 1000;
        }
          ∷ [])
unfolding run_request confirm_payment InstallmentPayments.settle_payment
    InstallmentPayments.confirm_items InstallmentPayments.confirm_item
    InstallmentPayments.pay_if_found InstallmentPayments.pay_item
    InstallmentPayments.credit_if_found InstallmentPayments.credit_item
    InstallmentPayments.deposit_principal InstallmentPayments.shares_of
    InstallmentPayments.pays_fees InstallmentPayments.finish_payment Store.find_transaction
    Store.by_key Store.merge Store.find_subscription Store.put_subscription Store.put_transaction
    Store.find_wallet_of Store.put_wallet Store.find_deposit_of_item Store.put_deposit
    Store.put_audit Subscriptions.record_deposit_paid Subscriptions.is_fully_paid
    Subscriptions.complete_if_paid Subscriptions.clear_overdue_and_advance DueDates.advance_due_date
    DueDates.next_month Calendar.make_date Calendar.days_in_month Calendar.is_leap Wallets.credit
    Wallets.credit_investment Wallets.add_fundo_garantidor Transactions.confirm_payment_of
    Money.from_cents Money.of_decimal Money.amount Money.multiply Money.percentage Money.subtract
    Money.add_money Installments.calculate Installments.new_fundo_calculator
    Installments.new_calculator Installments.or_default Installments.split_installment
    Installments.calculate_first_installment Installments.calculate_subsequent_installment
    Decimal.mul Decimal.div_hundred Decimal.quantize Decimal.to_int Decimal.fix
    Decimal.round_half_up ◌+ℤ◌ ◌-ℤ◌ mercadopago_webhook MercadoPago.follow_verdict
    MercadoPago.work_on Signature.parse_signature Signature.read_int Signature.out_of_time
    Signature.strip Signature.strip_start Signature.split_at Signature.partition_at Plans.is_space
    MercadoPago.follow_order MercadoPago.locate Webhooks.find_by_pix_id MercadoPago.reconcile
    MercadoPago.heal MercadoPago.check_amount order_amount transaction_amount MercadoPago.dispatch
    MercadoPago.paid_order MercadoPago.confirm_order Webhooks.confirmation Accounts.sole
half_confirmed = (refl, refl, refl)
