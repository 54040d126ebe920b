-- ===== src/Examples/Payments.antt =====
-- Payments and activations at concrete inputs.
use blanco_financas_api.Prelude.{◌≡◌, refl, arith, pos, ◌+ℤ◌, ◌-ℤ◌, some}
use blanco_financas_api.Errors.{ok, payment_not_found}
use blanco_financas_api.Decimal
use blanco_financas_api.Money
use blanco_financas_api.Installments
use blanco_financas_api.Calendar
use blanco_financas_api.DueDates
use blanco_financas_api.Subscriptions
use blanco_financas_api.Subscriptions.{Subscription}
use blanco_financas_api.Wallets
use blanco_financas_api.Transactions
use blanco_financas_api.Transactions.{Transaction, confirmed}
use blanco_financas_api.Store
use blanco_financas_api.Store.{Store}
use blanco_financas_api.Session.{run_request}
use blanco_financas_api.InstallmentPayments
use blanco_financas_api.InstallmentPayments.{confirm_payment}
use blanco_financas_api.InstallmentPayments.Holding.{Holds}
use blanco_financas_api.InstallmentPayments.Ready.{Covers, Ready, item_total}
use blanco_financas_api.InstallmentPayments.Confirm.{confirm_payment_atomic}
use blanco_financas_api.InstallmentPayments.Repeat.{IsConfirmed, confirm_payment_idempotent}
use blanco_financas_api.InstallmentPayments.Credit.{confirm_payment_conserves}
use blanco_financas_api.Examples.Data.{clock, later, db, house_payment, purse}

covered : Covers db
unfolding Store.find_subscription Store.by_key
covered wanted sub h = ground arith

ready : Ready 7 (pos 5060) house_payment.items db
unfolding Store.find_subscription Store.by_key Store.find_wallet_of ◌+ℤ◌
ready = record {
  holding = record { wallet = purse; found = refl; holds = refl; distinct = (tt, tt) };
  covers = covered;
  known = (refl, tt);
}

abbrev paid : Transaction
paid = record house_payment {
  status = confirmed;
  pix_transaction_id = some "pix";
  confirmed_at = some 1000;
  updated_at = 1000;
}

house_paid : (run_request (confirm_payment clock 5 "pix") db 100).0 ≡ ok paid
unfolding run_request confirm_payment InstallmentPayments.settle_payment
    InstallmentPayments.confirm_items InstallmentPayments.confirm_item
    InstallmentPayments.pay_if_found InstallmentPayments.pay_item
    InstallmentPayments.credit_if_found InstallmentPayments.credit_item
    InstallmentPayments.deposit_principal InstallmentPayments.shares_of
    InstallmentPayments.pays_fees InstallmentPayments.finish_payment Store.find_transaction
    Store.by_key Store.merge Store.find_subscription Store.put_subscription Store.put_transaction
    Store.find_wallet_of Store.put_wallet Store.find_deposit_of_item Store.put_deposit
    Store.put_audit Subscriptions.record_deposit_paid Subscriptions.is_fully_paid
    Subscriptions.complete_if_paid Subscriptions.clear_overdue_and_advance DueDates.advance_due_date
    DueDates.next_month Calendar.make_date Calendar.days_in_month Calendar.is_leap Wallets.credit
    Wallets.credit_investment Wallets.add_fundo_garantidor Transactions.confirm_payment_of
    Money.from_cents Money.of_decimal Money.amount Money.multiply Money.percentage Money.subtract
    Money.add_money Installments.calculate Installments.new_fundo_calculator
    Installments.new_calculator Installments.or_default Installments.split_installment
    Installments.calculate_first_installment Installments.calculate_subsequent_installment
    Decimal.mul Decimal.div_hundred Decimal.quantize Decimal.to_int Decimal.fix
    Decimal.round_half_up ◌+ℤ◌ ◌-ℤ◌
house_paid = refl

confirm_payment_conserves_example :
    Holds 7
      (pos 5060 +ℤ item_total house_payment.items)
      (run_request (confirm_payment clock 5 "pix") db 100).1
unfolding Store.find_transaction Store.by_key
confirm_payment_conserves_example =
    confirm_payment_conserves clock 5 "pix" db 100 (pos 5060) house_payment refl refl ready
      house_paid

confirm_payment_idempotent_example :
    let db' = (run_request (confirm_payment clock 5 "pix") db 100).1 in
    (c : IsConfirmed 5 db') × (run_request (confirm_payment later 5 "other") db' 200
      ≡ (ok c.payment, db'))
confirm_payment_idempotent_example =
    confirm_payment_idempotent clock later 5 "pix" "other" db 100 200 house_paid

confirm_payment_atomic_example : (run_request (confirm_payment clock 99 "pix") db 100).1 ≡ db
unfolding run_request confirm_payment Store.find_transaction Store.by_key
confirm_payment_atomic_example =
    confirm_payment_atomic clock 99 "pix" db 100 {e = payment_not_found} refl
