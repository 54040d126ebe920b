-- ===== src/YieldService/ByContract.antt =====
-- The yields of the older flow, by contract: `calculate_yield_for_contract` and `credit_yield` of
-- app/application/services/yield_service.py. The text of a yield's transaction is an argument.
use blanco_financas_api.Prelude.{
  ℕ, if◌then◌else◌, Option, none, some, List, [], ◌∷◌, String, pos, negsuc, suc, zero,
}
use blanco_financas_api.Errors.{value_error, attribute_error}
use blanco_financas_api.Money.{from_cents}
use blanco_financas_api.Calendar.{Date}
use blanco_financas_api.Contracts.{Contract, Moment, is_active}
use blanco_financas_api.Wallets.{Wallet, credit_yield}
use blanco_financas_api.Transactions.{Transaction, create_yield}
use blanco_financas_api.Yields.{YieldData, YieldCalculationResult, series_for_date, calculate_yield}
use blanco_financas_api.Store.{
  find_contract, find_wallet_of, put_transaction, put_wallet, yield_credited,
}
use blanco_financas_api.Session.{
  Action, Clock, ◌>>=◌, ◌>>◌, fresh_id, gets, lift, modify, or_raise, pure,
}
use blanco_financas_api.Withdrawals.{log}
use blanco_financas_api.Bcb.{get_range}

-- The start date of a contract that is there, active and started.
abbrev started_on : Option Contract → Option Moment
started_on none = none
started_on (some c) = if is_active c.status then c.start_date else none

-- The wallet, unless nothing was invested.
abbrev invested : Option Wallet → Option Wallet
invested none = none
invested (some w) = elim w.total_invested_cents [
  | pos zero ↦ none
  | pos (suc n) ↦ some w
  | negsuc n ↦ some w
]

-- The calculation on the stored rates, if there are any.
unfoldable pub yield_on :
    List YieldData → Wallet → Date → Date → Action (Option YieldCalculationResult)
yield_on [] wallet start calculation_date = pure none
yield_on (e ∷ es) wallet start calculation_date = do
  principal ← lift (from_cents wallet.total_invested_cents)
  result ← lift (calculate_yield (e ∷ es) principal start calculation_date)
  pure (some result)

unfoldable pub yield_from : Option Wallet → Date → Date → Action (Option YieldCalculationResult)
unfolding yield_on
yield_from none start calculation_date = pure none
yield_from (some wallet) start calculation_date = do
  entries ← gets (get_range (series_for_date start) start calculation_date)
  yield_on entries wallet start calculation_date

unfoldable pub yield_since :
    Option Contract → Option Moment → Date → Action (Option YieldCalculationResult)
unfolding yield_from
yield_since none start calculation_date = pure none
yield_since (some contract) none calculation_date = pure none
yield_since (some contract) (some start) calculation_date = do
  wallet ← gets (find_wallet_of contract.user_id)
  yield_from (invested wallet) start.day calculation_date

unfoldable pub calculate_yield_for_contract : ℕ → Date → Action (Option YieldCalculationResult)
unfolding yield_since
calculate_yield_for_contract contract_id calculation_date = do
  contract ← gets (find_contract contract_id)
  yield_since contract (started_on contract) calculation_date

-- `credit_yield` of the service
unfoldable pub credit_contract_yield :
    Clock → String → ℕ → YieldCalculationResult → Action Transaction
credit_contract_yield clock description contract_id result = do
  found ← gets (find_contract contract_id)
  contract ← or_raise found value_error
  new_id ← fresh_id
  modify (
      put_transaction (
        create_yield new_id contract.user_id (pos result.yield_amount.cents) description
          (some contract_id) none clock.now))
  purse ← gets (find_wallet_of contract.user_id)
  wallet ← or_raise purse attribute_error
  modify (put_wallet (credit_yield result.yield_amount clock.now wallet))
  log yield_credited contract.user_id new_id
  pure (
      create_yield new_id contract.user_id (pos result.yield_amount.cents) description
        (some contract_id) none clock.now)
