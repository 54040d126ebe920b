-- ===== src/DepositService.antt =====
-- app/application/services/deposit_service.py: the deposits of the older flow, by contract. The
-- descriptions are arguments.
pub mod Credit
use blanco_financas_api.Prelude.{
  ℕ, ◌==◌, if◌then◌else◌, Bool, true, false, Option, none, some, String, ℤ, pos,
}
use blanco_financas_api.Errors.{Result, ok, err, contract_not_found, value_error, attribute_error}
use blanco_financas_api.Money.{Money, from_cents}
use blanco_financas_api.Installments.{
  InstallmentCalculator, new_calculator, calculate_first_installment,
  calculate_subsequent_installment,
}
use blanco_financas_api.Contracts.{Contract}
use blanco_financas_api.Wallets.{Wallet, credit_investment, add_fundo_garantidor}
use blanco_financas_api.Transactions.{
  Transaction, InstallmentType, first, subsequent, create_deposit, create_fundo_garantidor, confirm,
}
use blanco_financas_api.Store.{
  Store, find_contract, find_live_plan, find_transaction, find_user, find_wallet_of,
  put_transaction, put_wallet, deposit_created, deposit_confirmed,
}
use blanco_financas_api.Session.{
  Action, Clock, ◌>>=◌, ◌>>◌, fresh_id, gets, lift, modify, or_raise, pure,
}
use blanco_financas_api.PixPayments.{Gateway}
use blanco_financas_api.InstallmentPayments.{Shares}
use blanco_financas_api.InstallmentPayments.Creation.{payer_email}
use blanco_financas_api.ContractService.{contract_of}
use blanco_financas_api.Withdrawals.{log}

pub record CreateDepositInput : Type 0 where
  pub user_id : ℕ
  pub contract_id : ℕ
  pub amount_cents : ℤ
  pub installment_number : ℕ
  pub description : String
  pub pix_description : String

abbrev is_first : Option InstallmentType → Bool
is_first none = false
is_first (some first) = true
is_first (some subsequent) = false

-- The breakdown's two parts that reach the wallet.
unfoldable pub deposit_shares :
    Option InstallmentType → InstallmentCalculator → Money → Result Shares
deposit_shares kind calculator amount =
    if is_first kind
    then elim (calculate_first_installment calculator amount) [
      | ok b ↦ ok (record {
        investment_amount = b.investment_amount;
        fundo_garantidor_amount = b.fundo_garantidor_amount;
      })
      | err e ↦ err e
    ]
    else elim (calculate_subsequent_installment calculator amount) [
      | ok b ↦ ok (record {
        investment_amount = b.investment_amount;
        fundo_garantidor_amount = b.fundo_garantidor_amount;
      })
      | err e ↦ err e
    ]

-- The deposit as it is first saved.
abbrev pub requested : ℕ → CreateDepositInput → ℕ → Transaction
requested new_id input now =
    create_deposit new_id input.user_id input.contract_id input.amount_cents
      input.installment_number (if input.installment_number == 1 then first else subsequent) none
      (some input.description) now

-- `create_deposit` of the service
unfoldable pub request_deposit : Gateway → Clock → CreateDepositInput → Action Transaction
unfolding contract_of
request_deposit gateway clock input = do
  found ← gets (find_contract input.contract_id)
  contract ← or_raise (contract_of input.user_id found) contract_not_found
  new_id ← fresh_id
  modify (put_transaction (requested new_id input clock.now))
  payer ← gets (find_user input.user_id)
  payload ← lift (gateway new_id input.amount_cents input.pix_description (payer_email payer))
  modify (
      put_transaction (record (requested new_id input clock.now) {
        pix_transaction_id = some payload.transaction_id;
      }))
  log deposit_created input.user_id new_id
  pure (record (requested new_id input clock.now) {
    pix_transaction_id = some payload.transaction_id;
  })

abbrev find_contract_if : Option ℕ → Store → Option Contract
find_contract_if none db = none
find_contract_if (some id) db = find_contract id db

-- The wallet with the two parts of a deposit.
abbrev pub with_deposit : Shares → ℕ → Wallet → Wallet
with_deposit shares now w =
    add_fundo_garantidor shares.fundo_garantidor_amount now
      (credit_investment shares.investment_amount now w)

-- The transaction of the guarantee fund's part. A deposit without a number passes on none.
abbrev pub fund_transaction : ℕ → ℕ → Transaction → Shares → String → ℕ → Transaction
fund_transaction new_id contract_id t shares description now =
    record (create_fundo_garantidor new_id t.user_id contract_id
      (pos shares.fundo_garantidor_amount.cents) 0 description now) {
        installment_number = t.installment_number;
      }

unfoldable pub confirm_deposit : Clock → String → ℕ → String → Action Transaction
unfolding deposit_shares
confirm_deposit clock fund_description transaction_id pix_transaction_id = do
  found ← gets (find_transaction transaction_id)
  transaction ← or_raise found value_error
  agreed ← gets (find_contract_if transaction.contract_id)
  contract ← or_raise agreed attribute_error
  offered ← gets (find_live_plan contract.plan_id)
  plan ← or_raise offered attribute_error
  calculator ← lift (new_calculator plan.guarantee_fund_percent_1 none none)
  amount ← lift (from_cents transaction.amount_cents)
  shares ← lift (deposit_shares transaction.installment_type calculator amount)
  purse ← gets (find_wallet_of transaction.user_id)
  wallet ← or_raise purse attribute_error
  modify (put_wallet (with_deposit shares clock.now wallet))
  new_id ← fresh_id
  modify (
      put_transaction
        (fund_transaction new_id contract.id transaction shares fund_description clock.now))
  confirmed ← lift (confirm (some pix_transaction_id) clock.now transaction)
  modify (put_transaction confirmed)
  log deposit_confirmed transaction.user_id confirmed.id
  pure confirmed
