-- ===== src/Examples/Contracting.antt =====
-- Contracts, deposits by contract and the plan service at concrete inputs.
use blanco_financas_api.Prelude.{◌≡◌, refl, true, some, none, [], ◌∷◌, pos, ◌+ℤ◌}
use blanco_financas_api.Errors.{ok, err, plan_not_found}
use blanco_financas_api.Decimal
use blanco_financas_api.Decimal.{decimal}
use blanco_financas_api.Money
use blanco_financas_api.Installments
use blanco_financas_api.Calendar.{date}
use blanco_financas_api.Transactions
use blanco_financas_api.Transactions.{
  Transaction, deposit, confirmed, subsequent, is_pending_status, is_confirmed_status,
}
use blanco_financas_api.Plans.{PlanConfig}
use blanco_financas_api.Contracts.{Contract, Moment, active, pending}
use blanco_financas_api.Store
use blanco_financas_api.Store.{Store, find_plan, find_live_plan}
use blanco_financas_api.Session.{run_request}
use blanco_financas_api.InstallmentPayments.Holding.{Holds}
use blanco_financas_api.SubscriptionService.{create_subscription}
use blanco_financas_api.DepositService.{confirm_deposit}
use blanco_financas_api.DepositService.Credit.{confirm_deposit_conserves}
use blanco_financas_api.PlanService.{get_plan, update_plan, delete_plan}
use blanco_financas_api.PlanService.Reach.{delete_plan_closes}
use blanco_financas_api.Examples.Data.{
  clock, later, db, home_plan, house_payment, purse, plan_db, wanted,
}

abbrev agreement : Contract
agreement = record {
  id = 30;
  user_id = 7;
  plan_id = 2;
  status = pending;
  pdf_storage_path = none;
  accepted_at = none;
  start_date = none;
  end_date = none;
  created_at = 0;
  updated_at = 0;
}

-- The 30th of August.
abbrev summer : Moment
summer = record { micros = 1000; day = date 2024 8 30 }

-- The second deposit of the contract, of 100.00.
abbrev second : Transaction
second = record house_payment {
  id = 12;
  contract_id = some 30;
  transaction_type = deposit;
  installment_number = some 2;
  installment_type = some subsequent;
  amount_cents = pos 10000;
  items = [];
}

abbrev second_done : Transaction
second_done = record second {
  status = confirmed;
  pix_transaction_id = some "pix";
  confirmed_at = some 1000;
  updated_at = 1000;
}

abbrev contract_db : Store
contract_db = record db {
  plans = home_plan ∷ [];
  contracts = record agreement { status = active } ∷ [];
  transactions = second ∷ [];
}

second_confirmed :
    (run_request (confirm_deposit clock "Fundo" 12 "pix") contract_db 100).0 ≡ ok second_done
unfolding run_request confirm_deposit Store.find_transaction Store.find_contract
    Store.find_live_plan Installments.new_calculator Money.from_cents
    Installments.calculate_subsequent_installment Money.percentage Decimal.quantize Decimal.mul
    Decimal.div_hundred Money.subtract Decimal.to_int Store.find_wallet_of Transactions.confirm
second_confirmed = refl

confirm_deposit_conserves_example :
    (is_pending_status second.status ≡ true)
    × (is_confirmed_status second_done.status ≡ true)
    × Holds 7
        (pos 5060 +ℤ pos 10000)
        (run_request (confirm_deposit clock "Fundo" 12 "pix") contract_db 100).1
unfolding Store.find_transaction Store.find_wallet_of ◌+ℤ◌
confirm_deposit_conserves_example =
    confirm_deposit_conserves clock "Fundo" 12 "pix" contract_db 100 {t = second} {w = purse}
      {c = second_done} refl refl refl (tt, tt) second_confirmed

-- The plan with a longer title.
abbrev config : PlanConfig
config = record {
  title = "Casa nova";
  description = "Casa própria";
  min_value_cents = pos 10000;
  max_value_cents = none;
  min_duration_months = pos 6;
  max_duration_months = none;
  admin_tax_value_cents = pos 500;
  insurance_percent = decimal 10 1;
  guarantee_fund_percent_1 = decimal 11 1;
  guarantee_fund_percent_2 = decimal 13 1;
  guarantee_fund_threshold_cents = pos 50000;
  active = true;
}

delete_plan_closes_example :
    let run = run_request (delete_plan clock 2 1) plan_db 100 in
    (run.0 ≡ ok (record home_plan { deleted_at = some 1000; updated_at = 1000 }))
    × (find_plan 2 run.1 ≡ some (record home_plan { deleted_at = some 1000; updated_at = 1000 }))
    × (run_request (get_plan 2) run.1 200 ≡ (err plan_not_found, run.1))
    × (run_request (update_plan later 2 config 1) run.1 200 ≡ (err plan_not_found, run.1))
    × (run_request (delete_plan later 2 1) run.1 200 ≡ (err plan_not_found, run.1))
    × (run_request (create_subscription later wanted) run.1 200 ≡ (err plan_not_found, run.1))
unfolding find_live_plan
delete_plan_closes_example =
    delete_plan_closes clock later 2 1 config wanted plan_db 100 200 {p = home_plan} (tt, tt) refl
      refl
