-- ===== src/Examples/Requests.antt =====
-- Activations, withdrawals and new payments at concrete inputs.
use blanco_financas_api.PixPayments.{expire_stale_payments, expires_for}
use blanco_financas_api.Store.{find_transaction}
use blanco_financas_api.Transactions.{expired, subscription_installment_payment}
use blanco_financas_api.Prelude.{ℕ, ℕ, ◌≡◌, refl, arith, true, pos, ◌+ℤ◌, none, some, [], ◌∷◌}
use blanco_financas_api.Errors.{ok, err, invalid_withdrawal}
use blanco_financas_api.Decimal
use blanco_financas_api.Money.{calculate_pix_fee}
use blanco_financas_api.Calendar
use blanco_financas_api.Calendar.{IsValid}
use blanco_financas_api.DueDates.Bounds.{IsSafeDay}
use blanco_financas_api.Subscriptions
use blanco_financas_api.Transactions
use blanco_financas_api.Transactions.{
  Transaction, TransactionItem, confirmed, pending, create_installment_payment,
  subscription_installment_payment,
}
use blanco_financas_api.Users
use blanco_financas_api.Store
use blanco_financas_api.Store.{Store, find_subscription}
use blanco_financas_api.Session.{run_request}
use blanco_financas_api.PixPayments
use blanco_financas_api.PixPayments.{Gateway}
use blanco_financas_api.InstallmentPayments.Ready.{item_total}
use blanco_financas_api.InstallmentPayments.Closure
use blanco_financas_api.InstallmentPayments.Closure.{
  RequestPlanWithdrawalInput, request_plan_withdrawal,
}
use blanco_financas_api.InstallmentPayments.Creation
use blanco_financas_api.InstallmentPayments.Creation.{create_payment}
use blanco_financas_api.InstallmentPayments.Creation.Charge.{create_payment_charges}
use blanco_financas_api.ActivationPayments.{confirm_activation}
use blanco_financas_api.ActivationPayments.Confirm.{
  Activatable, Activation, confirm_activation_activates,
}
use blanco_financas_api.Withdrawals.{approve_withdrawal, reject_withdrawal}
use blanco_financas_api.Withdrawals.Guards.{approving, decide, rejecting}
use blanco_financas_api.Withdrawals.Once.{decided_once}
use blanco_financas_api.Withdrawals.Decisions.{Approvable, Approval, approve_withdrawal_pays}
use blanco_financas_api.Withdrawals.Reinstatement.{Closable, closure_rejected, succeeds}
use blanco_financas_api.Examples.Data.{
  clock, later, db, quiet_db, house, house_item, house_payment, purse, car, car_payment, cash, boss,
}

day_10 : IsSafeDay 10
day_10 = record { from_one = omega arith; to_28 = omega arith }

march_12 : IsValid clock.today
unfolding Calendar.days_in_month
march_12 = record {
  year_from = omega arith;
  year_to = omega arith;
  month_from = omega arith;
  month_to = omega arith;
  day_from = omega arith;
  day_to = omega arith;
}

activatable : Activatable clock 6 db
unfolding Store.find_transaction Store.find_subscription Store.by_key
activatable = record {
  payment = car_payment;
  sub = car;
  payment_found = refl;
  kind = refl;
  awaits = refl;
  for_sub = refl;
  sub_found = refl;
  sub_inactive = refl;
  safe_day = day_10;
  today_valid = march_12;
  not_last_year = omega arith;
}

confirm_activation_activates_example :
    Activation car clock 6 (run_request (confirm_activation clock 6 "pix") db 100)
unfolding activatable
confirm_activation_activates_example = confirm_activation_activates clock 6 "pix" db 100 activatable

abbrev cash_done : Transaction
cash_done = record cash { status = confirmed; confirmed_at = some 1000; updated_at = 1000 }

approvable : Approvable 1 8 db
unfolding Store.find_transaction Store.find_user Store.find_wallet_of Store.by_key Users.is_admin
approvable = record {
  admin = boss;
  transaction = cash;
  wallet = purse;
  cents = 2000;
  admin_found = refl;
  admin_role = refl;
  transaction_found = refl;
  awaits = refl;
  amount = refl;
  wallet_found = refl;
  covered = refl;
  distinct = (tt, tt);
}

approve_withdrawal_pays_example :
    ((run_request (approve_withdrawal clock 1 8) db 100).0 ≡ ok cash_done)
    × Approval cash purse 2000 (run_request (approve_withdrawal clock 1 8) db 100).1
unfolding approvable
approve_withdrawal_pays_example = approve_withdrawal_pays clock 1 8 db 100 approvable

decided_once_example :
    let after = (run_request (decide (rejecting "late") clock 1 8) db 100).1 in
    run_request (decide approving clock 1 8) after 100 ≡ (err invalid_withdrawal, after)
unfolding run_request reject_withdrawal Store.find_transaction Store.find_user Store.by_key
    Transactions.reject_with_reason
decided_once_example = decided_once (rejecting "late") approving clock clock 1 1 8 db 100 100 refl

abbrev closing : RequestPlanWithdrawalInput
closing = record {
  user_id = 7;
  subscription_id = 3;
  owner_name = "Maria";
  pix_key = "maria@example.com";
  pix_key_type = "email";
}

closable : Closable closing 1 db
unfolding Store.find_subscription Store.find_user Store.by_key Users.is_admin
    Closure.is_withdrawable Subscriptions.is_fully_paid
closable = record {
  sub = house;
  admin = boss;
  sub_found = refl;
  owned = refl;
  withdrawable = refl;
  paid_up = refl;
  admin_found = refl;
  admin_role = refl;
}

closure_rejected_example :
    let request = run_request (request_plan_withdrawal clock none closing) db 100 in
    let rejection = run_request (reject_withdrawal later 100 1 "no") request.1 200 in
    (succeeds request.0 ≡ true)
    × (succeeds rejection.0 ≡ true)
    × (find_subscription 3 rejection.1 ≡ some (record house { updated_at = 1000 }))
    × (rejection.1.wallets ≡ db.wallets)
unfolding closable
closure_rejected_example = closure_rejected clock later none closing 1 "no" db 100 200 closable

-- A gateway that answers every order.
abbrev gateway : Gateway
gateway order amount description email = ok (record {
  transaction_id = "order";
  qr_code_data = "qr";
  qr_code_base64 = none;
  expiration_minutes = 30;
})

abbrev created : Transaction
created = record house_payment {
  id = 100;
  created_at = 1000;
  updated_at = 1000;
  pix_qr_code_data = some "qr";
  items = record house_item { id = 101; transaction_id = 100; plan_title = "Plano removido" } ∷ [];
}

created_payment :
    (run_request (create_payment gateway (λ ids. ids) clock "text" 7 (3 ∷ [])) quiet_db 100).0
    ≡ ok created
unfolding run_request create_payment Creation.assemble_payment Creation.open_payment
    Creation.register_payment Creation.register_order Creation.make_items Creation.payable_items
    Creation.payable_item Creation.draft_payment Closure.owned_by PixPayments.with_payload
    Store.find_subscription Store.find_plan Store.find_user Store.by_key Store.merge
    Store.put_transaction Store.put_transaction_with_items Store.put_audit Store.find_transaction
    Store.pending_for_subscription Subscriptions.is_fully_paid
    Subscriptions.current_installment_number Transactions.create_item create_installment_payment
    calculate_pix_fee Decimal.quantize Decimal.mul Decimal.to_int Decimal.fix Decimal.round_half_up
    ◌+ℤ◌
created_payment = refl

create_payment_charges_example :
    (fee : ℕ) × (calculate_pix_fee (item_total created.items) ≡ ok fee)
    × (created.amount_cents ≡ item_total created.items +ℤ pos fee)
create_payment_charges_example =
    create_payment_charges gateway (λ ids. ids) clock "text" 7 (3 ∷ []) quiet_db 100 created_payment

-- An hour later the payment of the house is stale.
abbrev an_hour : ℕ
an_hour = 3600000000
