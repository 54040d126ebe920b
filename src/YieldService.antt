-- ===== src/YieldService.antt =====
-- app/application/services/yield_service.py: the crediting of the savings yield of every principal
-- deposit. The text of a yield's transaction is an argument, `describe`, and so is what the API of
-- the Banco Central answers.
pub mod Credit
pub mod Pending
pub mod Progress
pub mod Run
pub mod ByContract
use blanco_financas_api.Prelude.{
  ℕ, ◌+◌, if◌then◌else◌, Bool, true, false, Option, none, some, List, [], ◌∷◌, ◌++◌, filter_by, not,
  length, String, ℤ, pos, leb_ℤ, ◌-ℤ◌, ◌+ℤ◌,
}
use blanco_financas_api.Errors.{Result, ok, err, value_error}
use blanco_financas_api.Money.{Money, from_cents}
use blanco_financas_api.Calendar.{Date, date, ltb_date}
use blanco_financas_api.Wallets.{credit_yield}
use blanco_financas_api.Transactions.{create_yield}
use blanco_financas_api.Yields.{
  YieldData, SgsSeries, pre_2012, post_2012, YieldCalculationResult, series_for_date,
  calculate_yield,
}
use blanco_financas_api.Store.{
  PrincipalDeposit, Store, find_wallet_of, put_deposit, put_transaction, put_wallet, yield_credited,
}
use blanco_financas_api.Session.{
  Action, Clock, ◌>>=◌, ◌>>◌, fresh_id, gets, lift, modify, or_raise, pure, commit,
}
use blanco_financas_api.Withdrawals.{log}
use blanco_financas_api.Bcb.{BcbApi, fetch_yield_data, get_range, save_yield_batch}

-- `ProcessedDepositResult`
pub record ProcessedDepositResult : Type 0 where
  pub principal_deposit_id : ℕ
  pub user_id : ℕ
  pub subscription_id : ℕ
  pub installment_number : Option ℕ
  pub principal_cents : ℤ
  pub deposited_at : Date
  pub yield_credited_cents : ℤ

pub record ProcessYieldsResult : Type 0 where
  pub calculation_date : Date
  pub deposits_evaluated : ℕ
  pub deposits_credited : ℕ
  pub total_yield_cents : ℤ
  pub credited : List ProcessedDepositResult

abbrev pub min_date : Date → Date → Date
min_date a b = if ltb_date b a then b else a

abbrev pub max_date : Date → Date → Date
max_date a b = if ltb_date a b then b else a

-- The date from which the second series holds.
abbrev pub cutoff_date : Date
cutoff_date = date 2012 5 4

-- One series is fetched and stored.
unfoldable pub fetch_series : BcbApi → SgsSeries → Date → Date → Action (Unit {0})
fetch_series api series start end = do
  points ← lift (fetch_yield_data api series start end)
  modify (save_yield_batch points)

unfoldable pub fetch_if : Bool → BcbApi → SgsSeries → Date → Date → Action (Unit {0})
unfolding fetch_series
fetch_if true api series start end = fetch_series api series start end
fetch_if false api series start end = pure tt

unfoldable pub fetch_and_store_yield_data : BcbApi → Date → Date → Action (Unit {0})
unfolding fetch_if
fetch_and_store_yield_data api start end = do
  fetch_if (ltb_date start cutoff_date) api pre_2012 start (min_date end (date 2012 5 3))
  fetch_if (not (ltb_date end cutoff_date)) api post_2012 (max_date start cutoff_date) end

-- `get_pending_yield_processing`
abbrev pub awaits_yield : Date → PrincipalDeposit → Bool
awaits_yield before d = elim d.last_yield_run_date [
  | none ↦ true
  | some last ↦ ltb_date last before
]

abbrev insert_deposit : PrincipalDeposit → List PrincipalDeposit → List PrincipalDeposit
insert_deposit d [] = d ∷ []
insert_deposit d (x ∷ xs) =
    let rest = insert_deposit d xs in
    if ltb_date x.deposited_at d.deposited_at then x ∷ rest else d ∷ x ∷ xs

abbrev order_by_deposited_at : List PrincipalDeposit → List PrincipalDeposit
order_by_deposited_at [] = []
order_by_deposited_at (d ∷ ds) = insert_deposit d (order_by_deposited_at ds)

unfoldable pub pending_yields : Date → Store → List PrincipalDeposit
pending_yields before db = order_by_deposited_at (filter_by (awaits_yield before) db.deposits)

-- `prev_yield_cents`
unfoldable pub previous_yield : List YieldData → Money → Date → Option Date → Result ℕ
previous_yield entries principal deposited none = ok 0
previous_yield entries principal deposited (some last) =
    elim (calculate_yield entries principal deposited last) [
      | ok r ↦ ok r.yield_amount.cents
      | err e ↦ err e
    ]

abbrev pub evaluated : Date → PrincipalDeposit → PrincipalDeposit
evaluated run_date d = record d { last_yield_run_date = some run_date }

-- A yield of `cents` for one deposit: a transaction, the wallet and the log.
unfoldable pub credit_deposit : Clock → String → PrincipalDeposit → ℤ → Action (Unit {0})
credit_deposit clock description deposit cents = do
  delta_yield ← lift (from_cents cents)
  new_id ← fresh_id
  modify (
      put_transaction (
        create_yield new_id deposit.user_id cents description none (some deposit.subscription_id)
          clock.now))
  purse ← gets (find_wallet_of deposit.user_id)
  wallet ← or_raise purse value_error
  modify (put_wallet (credit_yield delta_yield clock.now wallet))
  log yield_credited deposit.user_id new_id

-- What is left to credit, and the calculation behind it.
unfoldable pub evaluate_deposit : Date → PrincipalDeposit → Action (YieldCalculationResult × ℤ)
evaluate_deposit run_date deposit = do
  principal ← lift (from_cents deposit.principal_cents)
  entries ← gets (get_range (series_for_date deposit.deposited_at) deposit.deposited_at run_date)
  total ← lift (calculate_yield entries principal deposit.deposited_at run_date)
  previous ←
      lift (previous_yield entries principal deposit.deposited_at deposit.last_yield_run_date)
  pure (total, pos total.yield_amount.cents -ℤ pos previous)

module _ (clock : Clock) (describe : PrincipalDeposit → YieldCalculationResult → Date → String)
    (run_date : Date) where
  -- The end of `_process_single_deposit`, from the comparison of `delta_cents` with 0 on.
  unfoldable pub settle_deposit : PrincipalDeposit → YieldCalculationResult → ℤ → Action ℤ
  settle_deposit deposit total delta =
      if leb_ℤ delta (pos 0)
      then (do modify (put_deposit (evaluated run_date deposit)); commit; pure (pos 0))
      else (do
        credit_deposit clock (describe deposit total run_date) deposit delta
        modify (put_deposit (evaluated run_date deposit))
        commit
        pure delta)

  unfoldable pub process_single_deposit : PrincipalDeposit → Action ℤ
  unfolding settle_deposit evaluate_deposit
  process_single_deposit deposit = do
    (total, delta) ← evaluate_deposit run_date deposit
    settle_deposit deposit total delta

  -- The result once a deposit was processed.
  unfoldable pub add_result : PrincipalDeposit → ℤ → ProcessYieldsResult → ProcessYieldsResult
  add_result deposit cents r = if leb_ℤ cents (pos 0) then r else record r {
    deposits_credited = r.deposits_credited + 1;
    total_yield_cents = r.total_yield_cents +ℤ cents;
    credited =
        r.credited
        ++ (record {
          principal_deposit_id = deposit.id;
          user_id = deposit.user_id;
          subscription_id = deposit.subscription_id;
          installment_number = deposit.installment_number;
          principal_cents = deposit.principal_cents;
          deposited_at = deposit.deposited_at;
          yield_credited_cents = cents;
        }
            ∷ []);
  }

  -- The loop over the deposits.
  unfoldable pub process_deposits :
      List PrincipalDeposit → ProcessYieldsResult → Action ProcessYieldsResult
  unfolding process_single_deposit add_result
  process_deposits [] r = pure r
  process_deposits (d ∷ ds) r = do
    cents ← process_single_deposit d
    process_deposits ds (add_result d cents r)

  abbrev pub earliest : PrincipalDeposit → List PrincipalDeposit → Date
  earliest d [] = d.deposited_at
  earliest d (x ∷ xs) = min_date d.deposited_at (earliest x xs)

  -- `process_all_yields` on the deposits that are pending
  unfoldable pub process_pending : BcbApi → List PrincipalDeposit → Action ProcessYieldsResult
  unfolding process_deposits
  process_pending api [] = pure (record {
    calculation_date = run_date;
    deposits_evaluated = 0;
    deposits_credited = 0;
    total_yield_cents = pos 0;
    credited = [];
  })
  process_pending api (d ∷ ds) = do
    fetch_and_store_yield_data api (earliest d ds) run_date
    commit
    process_deposits (d ∷ ds) (record {
      calculation_date = run_date;
      deposits_evaluated = length (d ∷ ds);
      deposits_credited = 0;
      total_yield_cents = pos 0;
      credited = [];
    })

  unfoldable pub process_all_yields : BcbApi → Action ProcessYieldsResult
  unfolding process_pending
  process_all_yields api = do
    deposits ← gets (pending_yields run_date)
    process_pending api deposits
