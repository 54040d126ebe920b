-- ===== src/Examples/Crediting.antt =====
-- A run of the yield crediting at concrete inputs: one deposit of 100.00, two months after it.
use blanco_financas_api.Prelude.{
  ◌≡◌, ◌++◌, refl, List, [], ◌∷◌, none, some, pos, String, ◌-ℤ◌, negsuc,
}
use blanco_financas_api.Errors.{ok, invalid_money}
use blanco_financas_api.Decimal
use blanco_financas_api.Decimal.{decimal}
use blanco_financas_api.Money
use blanco_financas_api.Calendar
use blanco_financas_api.Calendar.{Date, date}
use blanco_financas_api.Yields
use blanco_financas_api.Yields.{YieldCalculationResult, SgsSeries}
use blanco_financas_api.Store
use blanco_financas_api.Store.{Store, PrincipalDeposit}
use blanco_financas_api.Session.{run_request, open_session, Session, done, raised}
use blanco_financas_api.Bcb
use blanco_financas_api.Bcb.{BcbApi, answered, SgsDataPoint}
use blanco_financas_api.YieldService
use blanco_financas_api.YieldService.{
  ProcessYieldsResult, process_all_yields, process_deposits, process_single_deposit,
}
use blanco_financas_api.YieldService.Credit.{Credits}
use blanco_financas_api.YieldService.Run.{
  nothing_credited, process_all_yields_totals, process_all_yields_once,
}
use blanco_financas_api.YieldService.Progress.{process_deposits_progress}
use blanco_financas_api.YieldScheduler.{
  finished, run_yield_job, startup_catchup, run_process_yields,
}
use blanco_financas_api.YieldScheduler.CatchUp.{run_yield_job_once}
use blanco_financas_api.Examples.Data.{clock, later, db}

abbrev january : PrincipalDeposit
january = record {
  id = 40;
  user_id = 7;
  subscription_id = 3;
  transaction_item_id = 9;
  installment_number = some 1;
  principal_cents = pos 10000;
  deposited_at = date 2024 1 10;
  last_yield_run_date = none;
  created_at = 0;
}

-- Half a percent on every date that is asked for first and on the next month's.
abbrev half_percent : BcbApi
half_percent series start end = answered (
    record { reference_date = date 2024 1 10; rate = decimal 5 1 }
    ∷ record { reference_date = date 2024 2 10; rate = decimal 5 1 }
    ∷ [])

abbrev saving_db : Store
saving_db = record db { deposits = january ∷ [] }

abbrev text : PrincipalDeposit → YieldCalculationResult → Date → String
text deposit total run_date = "Rendimento"

abbrev one_credit : ProcessYieldsResult
one_credit = record {
  calculation_date = date 2024 3 12;
  deposits_evaluated = 1;
  deposits_credited = 1;
  total_yield_cents = pos 100;
  credited =
      record {
        principal_deposit_id = 40;
        user_id = 7;
        subscription_id = 3;
        installment_number = some 1;
        principal_cents = pos 10000;
        deposited_at = date 2024 1 10;
        yield_credited_cents = pos 100;
      }
      ∷ [];
}

one_run :
    (run_request (process_all_yields clock text (date 2024 3 12) half_percent) saving_db 100).0
    ≡ ok one_credit
unfolding run_request process_all_yields YieldService.process_pending YieldService.pending_yields
    YieldService.fetch_and_store_yield_data YieldService.fetch_if YieldService.fetch_series
    YieldService.process_deposits YieldService.process_single_deposit YieldService.evaluate_deposit
    YieldService.settle_deposit YieldService.credit_deposit YieldService.previous_yield
    YieldService.add_result Bcb.fetch_yield_data Bcb.read_answer Bcb.get_range Bcb.save_yield_batch
    Bcb.save_yield_data Yields.calculate_yield Yields.yield_of_months Yields.accumulate
    Yields.next_anniversary Yields.monthly_rate Yields.complete_months Yields.month_length
    Yields.series_for_date Calendar.ltb_date Calendar.make_date Calendar.days_in_month
    Calendar.is_leap Money.from_cents Money.amount Money.of_decimal Money.add_money Money.is_zero
    Decimal.mul Decimal.add Decimal.sub Decimal.quantize Decimal.div_hundred Decimal.fix
    Store.find_wallet_of Store.put_transaction Decimal.to_int ◌-ℤ◌
one_run = refl

process_all_yields_totals_example :
    Credits saving_db
      (run_request (process_all_yields clock text (date 2024 3 12) half_percent) saving_db 100).1
      (pos 100)
process_all_yields_totals_example =
    process_all_yields_totals half_percent clock text (date 2024 3 12) saving_db 100 (tt, tt)
      one_run

-- The API answers nothing the second time.
process_all_yields_once_example :
    run_request
      (process_all_yields later text (date 2024 3 12) (λ series start end. Bcb.unavailable))
      (run_request (process_all_yields clock text (date 2024 3 12) half_percent) saving_db 100).1
      500
    ≡ (
      ok (nothing_credited (date 2024 3 12)),
      (run_request (process_all_yields clock text (date 2024 3 12) half_percent) saving_db 100).1,
    )
process_all_yields_once_example =
    process_all_yields_once half_percent clock text (date 2024 3 12) saving_db 100
      (λ series start end. Bcb.unavailable) later 500 (tt, tt) (tt, tt) one_run

-- A deposit of this month, and one that cannot be.
abbrev recent : PrincipalDeposit
recent = record january { id = 41; deposited_at = date 2024 3 1 }

abbrev broken : PrincipalDeposit
broken = record january { id = 42; principal_cents = negsuc 0 }

abbrev two_db : Store
two_db = record db { deposits = recent ∷ broken ∷ [] }

abbrev stopped : Session
stopped = record (open_session two_db 100) {
  committed = record two_db {
    deposits = record recent { last_yield_run_date = some (date 2024 3 12) } ∷ broken ∷ [];
  };
  current = record two_db {
    deposits = record recent { last_yield_run_date = some (date 2024 3 12) } ∷ broken ∷ [];
  };
}

process_deposits_progress_example :
    (before : List PrincipalDeposit) × (failed : PrincipalDeposit) × (after : List PrincipalDeposit)
    × (r1 : ProcessYieldsResult) × (s1 : Session) × (recent ∷ broken ∷ []
        ≡ before ++ (failed ∷ after))
    × (process_deposits clock text
          (date 2024 3 12)
          before
          (nothing_credited (date 2024 3 12))
          (open_session two_db 100)
        ≡ done r1 s1)
    × (process_single_deposit clock text (date 2024 3 12) failed s1 ≡ raised invalid_money stopped)
    × (stopped.committed ≡ s1.current)
unfolding process_deposits process_single_deposit YieldService.evaluate_deposit
    YieldService.settle_deposit YieldService.previous_yield Bcb.get_range Yields.calculate_yield
    Yields.complete_months Yields.month_length Yields.series_for_date Calendar.ltb_date
    Calendar.make_date Calendar.days_in_month Calendar.is_leap Money.from_cents Money.is_zero
    Store.put_deposit Store.merge ◌-ℤ◌ Money.zero_money
process_deposits_progress_example =
    process_deposits_progress clock text (date 2024 3 12) (recent ∷ broken ∷ [])
      (nothing_credited (date 2024 3 12)) (open_session two_db 100) {e = invalid_money}
      {s' = stopped} refl refl

one_job :
    (run_yield_job half_percent clock text (date 2024 3 12) saving_db 100).0 ≡ finished one_credit
unfolding run_request process_all_yields YieldService.process_pending YieldService.pending_yields
    YieldService.fetch_and_store_yield_data YieldService.fetch_if YieldService.fetch_series
    YieldService.process_deposits YieldService.process_single_deposit YieldService.evaluate_deposit
    YieldService.settle_deposit YieldService.credit_deposit YieldService.previous_yield
    YieldService.add_result Bcb.fetch_yield_data Bcb.read_answer Bcb.get_range Bcb.save_yield_batch
    Bcb.save_yield_data Yields.calculate_yield Yields.yield_of_months Yields.accumulate
    Yields.next_anniversary Yields.monthly_rate Yields.complete_months Yields.month_length
    Yields.series_for_date Calendar.ltb_date Calendar.make_date Calendar.days_in_month
    Calendar.is_leap Money.from_cents Money.amount Money.of_decimal Money.add_money Money.is_zero
    Decimal.mul Decimal.add Decimal.sub Decimal.quantize Decimal.div_hundred Decimal.fix
    Store.find_wallet_of Store.put_transaction Decimal.to_int ◌-ℤ◌ run_yield_job
one_job = refl

run_yield_job_once_example :
    let after = (run_yield_job half_percent clock text (date 2024 3 12) saving_db 100).1 in
    (run_yield_job (λ series start end. Bcb.unavailable) later text (date 2024 3 12) after 500
      ≡ (finished (nothing_credited (date 2024 3 12)), after))
    × (run_process_yields
          (λ series start end. Bcb.unavailable)
          later
          text
          (date 2024 3 12)
          after
          500
        ≡ (0, after))
    × (startup_catchup (λ series start end. Bcb.unavailable) later text (date 2024 3 12) after 500
        ≡ after)
run_yield_job_once_example =
    run_yield_job_once half_percent (λ series start end. Bcb.unavailable) clock later text
      (date 2024 3 12) saving_db 100 500 (tt, tt) (tt, tt) one_job
