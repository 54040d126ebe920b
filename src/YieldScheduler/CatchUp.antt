-- ===== src/YieldScheduler/CatchUp.antt =====
-- What a restart of the server does after a run of the yield job.
use blanco_financas_api.Prelude.{ℕ, ◌≡◌, refl, ap, sym, ◌∙◌, String, List, [], ◌∷◌}
use blanco_financas_api.Errors.{Result, ok, err}
use blanco_financas_api.Calendar.{Date}
use blanco_financas_api.Yields.{YieldCalculationResult}
use blanco_financas_api.Store.{PrincipalDeposit, Store}
use blanco_financas_api.Session.{
  >>=-done, Clock, Outcome, done, raised, Session, open_session, run_request, close_session,
}
use blanco_financas_api.YieldService.{
  ProcessYieldsResult, process_single_deposit, process_deposits, process_pending,
  process_all_yields, add_result, pending_yields, fetch_and_store_yield_data, earliest,
}
use blanco_financas_api.YieldService.Progress.{IsSaved, process_single_deposit-IsSaved}
use blanco_financas_api.YieldService.Run.{nothing_credited, process_all_yields_once}
use blanco_financas_api.Store.Tables.{Distinct}
use blanco_financas_api.YieldService.Credit.{wallet_id}
use blanco_financas_api.YieldService.Pending.{deposit_id}
use blanco_financas_api.YieldScheduler.{
  Report, finished, aborted, reported, run_yield_job, startup_catchup, run_process_yields,
  exit_code,
}
use blanco_financas_api.Bcb.{BcbApi}

module _ (clock : Clock) (describe : PrincipalDeposit → YieldCalculationResult → Date → String)
    (run_date : Date) where
  process_deposits-IsSaved :
      (ds : List PrincipalDeposit) (r : ProcessYieldsResult) (s : Session)
      {r' : ProcessYieldsResult} {s' : Session}
      → IsSaved s
      → process_deposits clock describe run_date ds r s ≡ done r' s'
      → IsSaved s'
  unfolding process_deposits
  process_deposits-IsSaved [] r s {r'} {s'} k h = let q : s ≡ s' = cc in rw q at k
  process_deposits-IsSaved (d ∷ ds) r s k h =
      let (cents, t, first, rest) =
        >>=-done (process_single_deposit clock describe run_date d) _ s h in
      process_deposits-IsSaved ds (add_result clock describe run_date d cents r) t
        (process_single_deposit-IsSaved clock describe run_date d s first) rest

  process_pending-IsSaved :
      (api : BcbApi) (ds : List PrincipalDeposit) (s : Session) {r : ProcessYieldsResult}
      {s' : Session}
      → IsSaved s
      → process_pending clock describe run_date api ds s ≡ done r s'
      → IsSaved s'
  unfolding process_pending
  process_pending-IsSaved api [] s {r} {s'} k h = let q : s ≡ s' = cc in rw q at k
  process_pending-IsSaved api (d ∷ ds) s k h =
      let (u, t, first, rest) =
        >>=-done (fetch_and_store_yield_data api (earliest clock describe run_date d ds) run_date) _
          s h in
      process_deposits-IsSaved (d ∷ ds) _ (record t { committed = t.current }) refl rest

-- The report on the answer of a request.
abbrev as_report : Result ProcessYieldsResult × Store → Report × Store
as_report (ok r, db) = (finished r, db)
as_report (err e, db) = (aborted e, db)

reported_close :
    (o : Outcome ProcessYieldsResult)
    → ((r : ProcessYieldsResult) (s : Session) → o ≡ done r s → IsSaved s)
    → reported o ≡ as_report (close_session o)
reported_close (done r s) k = ap (λ db. (finished r, db)) (k r s refl)
reported_close (raised e s) k = refl

finished_answer :
    (x : Result ProcessYieldsResult × Store) {r : ProcessYieldsResult}
    → (as_report x).0 ≡ finished r
    → x.0 ≡ ok r
finished_answer (ok a, db) {r} h = let q : a ≡ r = cc in rw q refl
finished_answer (err e, db) h = absurd cc

as_report_store : (x : Result ProcessYieldsResult × Store) → (as_report x).1 ≡ x.1
as_report_store (ok a, db) = refl
as_report_store (err e, db) = refl

module _ (describe : PrincipalDeposit → YieldCalculationResult → Date → String) (today : Date) where
  -- The job's session leaves what a request's session would.
  run_yield_job_lem :
      (api : BcbApi) (clock : Clock) (db : Store) (n : ℕ)
      → run_yield_job api clock describe today db n
        ≡ as_report (run_request (process_all_yields clock describe today api) db n)
  unfolding run_yield_job run_request process_all_yields
  run_yield_job_lem api clock db n =
      reported_close (process_all_yields clock describe today api (open_session db n)) (λ r s h.
        process_pending-IsSaved clock describe today api (pending_yields today db)
          (open_session db n) refl h)

  idle_job :
      (api : BcbApi) (clock : Clock) (db : Store) (n : ℕ)
      → pending_yields today db ≡ []
      → (run_yield_job api clock describe today db n).1 ≡ db
  unfolding run_yield_job process_all_yields process_pending
  idle_job api clock db n h = rw h refl

  -- The check before a catch-up decides only whether the job runs: the store that a start leaves is
  -- the one that the job would leave.
  pub startup_catchup-job :
      (api : BcbApi) (clock : Clock) (db : Store) (n : ℕ)
      → startup_catchup api clock describe today db n
        ≡ (run_yield_job api clock describe today db n).1
  unfolding startup_catchup
  startup_catchup-job api clock db n = go (pending_yields today db) refl
    where
      go :
          (ds : List PrincipalDeposit)
          → pending_yields today db ≡ ds
          → elim ds [ [] ↦ db | d ∷ ds ↦ (run_yield_job api clock describe today db n).1 ]
            ≡ (run_yield_job api clock describe today db n).1
      go [] h = sym (idle_job api clock db n h)
      go (d ∷ ds) h = refl

-- After a job that finished, on a store whose wallets and deposits have identifiers of their own,
-- nothing that runs for the same date changes the store, whatever the clock and the API say then: a
-- second job finishes and credits nothing, the command line's run exits with 0, and a start leaves
-- the store as it is.
pub run_yield_job_once :
    (api api' : BcbApi) (clock clock' : Clock)
    (describe : PrincipalDeposit → YieldCalculationResult → Date → String) (today : Date)
    (db : Store) (n n' : ℕ) {r : ProcessYieldsResult}
    → Distinct wallet_id db.wallets
    → Distinct deposit_id db.deposits
    → (run_yield_job api clock describe today db n).0 ≡ finished r
    → let after = (run_yield_job api clock describe today db n).1 in
      (run_yield_job api' clock' describe today after n'
        ≡ (finished (nothing_credited today), after))
      × (run_process_yields api' clock' describe today after n' ≡ (0, after))
      × (startup_catchup api' clock' describe today after n' ≡ after)
unfolding run_process_yields
run_yield_job_once api api' clock clock' describe today db n n' {r} w d h =
    let first = run_yield_job_lem describe today api clock db n in
    let request = run_request (process_all_yields clock describe today api) db n in
    let same = ap (λ (x : Report × Store). x.1) first ∙ as_report_store request in
    let after = (run_yield_job api clock describe today db n).1 in
    let again : run_yield_job api' clock' describe today after n'
        ≡ (finished (nothing_credited today), after) =
      rw same (
        run_yield_job_lem describe today api' clock' request.1 n'
        ∙ ap as_report (
            process_all_yields_once api clock describe today db n api' clock' n' w d
              (finished_answer request (rw first at h)))) in
    (
      again,
      ap (λ (x : Report × Store). (exit_code x.0, x.1)) again,
      startup_catchup-job describe today api' clock' after n'
          ∙ ap (λ (x : Report × Store). x.1) again,
    )
