-- ===== src/YieldService/Progress.antt =====
-- A run of the yield crediting that raises: what it had credited stays, what it was doing does not.
use blanco_financas_api.Prelude.{
  ◌≡◌, refl, ap, ◌∙◌, arith, inl, inr, String, List, [], ◌∷◌, ℤ, ◌++◌,
}
use blanco_financas_api.Errors.{Error}
use blanco_financas_api.Calendar.{Date}
use blanco_financas_api.Yields.{YieldCalculationResult}
use blanco_financas_api.Store.{PrincipalDeposit}
use blanco_financas_api.Session.{>>=-raised, >>=-run, Session, done, raised, Clock}
use blanco_financas_api.YieldService.{
  ProcessYieldsResult, evaluate_deposit, settle_deposit, process_single_deposit, credit_deposit,
  add_result, process_deposits,
}

-- A session whose writes are all committed.
abbrev pub IsSaved : Session → Type 0
IsSaved s = s.committed ≡ s.current

module _ (clock : Clock) (describe : PrincipalDeposit → YieldCalculationResult → Date → String)
    (run_date : Date) where
  process_single_deposit_raises :
      (deposit : PrincipalDeposit) (s : Session) {e : Error} {s' : Session}
      → process_single_deposit clock describe run_date deposit s ≡ raised e s'
      → s'.committed ≡ s.committed
  unfolding process_single_deposit evaluate_deposit settle_deposit credit_deposit
  process_single_deposit_raises deposit s {e} {s'} h = ground arith

  process_deposits_step :
      (d : PrincipalDeposit) (ds : List PrincipalDeposit) (r : ProcessYieldsResult) (s : Session)
      {cents : ℤ} {t : Session}
      → process_single_deposit clock describe run_date d s ≡ done cents t
      → process_deposits clock describe run_date (d ∷ ds) r s
        ≡ process_deposits clock describe run_date ds
            (add_result clock describe run_date d cents r)
            t
  unfolding process_deposits
  process_deposits_step d ds r s h =
      >>=-run (process_single_deposit clock describe run_date d) _ s h

  -- A deposit that was processed is committed.
  pub process_single_deposit-IsSaved :
      (deposit : PrincipalDeposit) (s : Session) {cents : ℤ} {s' : Session}
      → process_single_deposit clock describe run_date deposit s ≡ done cents s'
      → IsSaved s'
  unfolding process_single_deposit evaluate_deposit settle_deposit credit_deposit
  process_single_deposit-IsSaved deposit s {cents} {s'} h = ground arith

  -- Where the processing of the deposits raises, on a session with all its writes committed, it
  -- raises at one of them. The deposits before it were processed as if they were all there is, and
  -- the store with everything that they wrote is what is committed in the end: of the one that
  -- failed nothing stays, and of those before it nothing is lost.
  pub process_deposits_progress :
      (ds : List PrincipalDeposit) (r : ProcessYieldsResult) (s : Session) {e : Error}
      {s' : Session}
      → IsSaved s
      → process_deposits clock describe run_date ds r s ≡ raised e s'
      → (before : List PrincipalDeposit) × (failed : PrincipalDeposit) × (after : List
          PrincipalDeposit)
        × (r1 : ProcessYieldsResult) × (s1 : Session) × (ds ≡ before ++ (failed ∷ after))
        × (process_deposits clock describe run_date before r s ≡ done r1 s1)
        × (process_single_deposit clock describe run_date failed s1 ≡ raised e s')
        × (s'.committed ≡ s1.current)
  unfolding process_deposits
  process_deposits_progress [] r s {e} {s'} v h = absurd cc
  process_deposits_progress (d ∷ ds) r s {e} {s'} v h =
      elim (>>=-raised (process_single_deposit clock describe run_date d) _ s h) [
        | inl here ↦ ([], d, ds, r, s, refl, refl, here, process_single_deposit_raises d s here ∙ v)
        | inr (cents, t, first, rest) ↦
            let (before, failed, after, r1, s1, split, ran, fails, kept) =
              process_deposits_progress ds (add_result clock describe run_date d cents r) t
                (process_single_deposit-IsSaved d s first) rest in
            (
              d ∷ before,
              failed,
              after,
              r1,
              s1,
              ap (λ x. d ∷ x) split,
              process_deposits_step d before r s first ∙ ran,
              fails,
              kept,
            )
      ]
