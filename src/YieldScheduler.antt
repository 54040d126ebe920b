-- ===== src/YieldScheduler.antt =====
-- The runs of the yield crediting: the job and the start-up check of
-- app/infrastructure/scheduler/yield_scheduler.py, and the command line's jobs/process_yields.py.
-- The date of a run, UTC, is an argument, read once.
pub mod CatchUp
use blanco_financas_api.Prelude.{ℕ, String, List, [], ◌∷◌}
use blanco_financas_api.Errors.{Error}
use blanco_financas_api.Calendar.{Date}
use blanco_financas_api.Yields.{YieldCalculationResult}
use blanco_financas_api.Store.{PrincipalDeposit, Store}
use blanco_financas_api.Session.{Clock, Outcome, done, raised, open_session}
use blanco_financas_api.YieldService.{ProcessYieldsResult, pending_yields, process_all_yields}
use blanco_financas_api.Bcb.{BcbApi}

-- What a run logs last. Of an exception it is no more than that.
pub data Report : Type 0 where
  finished : ProcessYieldsResult → Report
  aborted : Error → Report

-- A session that is closed without a commit leaves what was committed.
abbrev pub reported : Outcome ProcessYieldsResult → Report × Store
reported (done r s) = (finished r, s.committed)
reported (raised e s) = (aborted e, s.committed)

-- The code that the process exits with.
abbrev pub exit_code : Report → ℕ
exit_code (finished r) = 0
exit_code (aborted e) = 1

module _ (api : BcbApi) (clock : Clock)
    (describe : PrincipalDeposit → YieldCalculationResult → Date → String) where
  unfoldable pub run_yield_job : Date → Store → ℕ → Report × Store
  unfolding process_all_yields
  run_yield_job today db next_id =
      reported (process_all_yields clock describe today api (open_session db next_id))

  -- `_startup_catchup`, whose check only reads
  unfoldable pub startup_catchup : Date → Store → ℕ → Store
  unfolding run_yield_job pending_yields
  startup_catchup today db next_id = elim (pending_yields today db) [
    | [] ↦ db
    | d ∷ ds ↦ (run_yield_job today db next_id).1
  ]

  -- `_run` of process_yields
  unfoldable pub run_process_yields : Date → Store → ℕ → ℕ × Store
  unfolding run_yield_job
  run_process_yields calculation_date db next_id =
      let job = run_yield_job calculation_date db next_id in (exit_code job.0, job.1)
