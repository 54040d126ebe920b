-- ===== src/YieldService/Run.antt =====
-- Whole runs of `process_all_yields`: what a run reports is what it credited, and a second run on
-- the same date has nothing to do.
use blanco_financas_api.Prelude.{
  ℕ, ◌≡◌, refl, ap, ◌∙◌, arith, Bool, true, false, Bool-cases, inl, inr, String, List, [], ◌∷◌,
  filter_by, ℤ, pos, ◌+ℤ◌, ◌≤ℤ◌, leb_ℤ, int_laws, parts_of_eq, eq_of_parts, not, length,
}
use blanco_financas_api.Errors.{ok, Result-cases}
use blanco_financas_api.Calendar.{Date, date, ltb_date}
use blanco_financas_api.Yields.{YieldData, SgsSeries, pre_2012, post_2012, YieldCalculationResult}
use blanco_financas_api.Store.{PrincipalDeposit, Store}
use blanco_financas_api.Store.Tables.{Distinct}
use blanco_financas_api.Store.Totals.{total}
use blanco_financas_api.Session.{
  >>=-done, run_request-ok, Session, done, Clock, run_request, open_session,
}
use blanco_financas_api.Bcb.{BcbApi, fetch_yield_data, save_yield_batch, save_yield_data}
use blanco_financas_api.YieldService.{
  ProcessYieldsResult, pending_yields, process_single_deposit, add_result, process_deposits,
  process_pending, process_all_yields, fetch_and_store_yield_data, fetch_series, fetch_if,
  cutoff_date, min_date, max_date, awaits_yield, order_by_deposited_at, earliest,
}
use blanco_financas_api.YieldService.Pending.{deposit_id, process_deposits_finish}
use blanco_financas_api.YieldService.Credit.{
  Credits, wallet_id, process_single_deposit-Step, +ℤ_zero, none_credited,
}

-- Two stores that differ in the stored rates at most.
abbrev SameRows : Store → Store → Type 0
SameRows a b = (a.wallets ≡ b.wallets) × (a.deposits ≡ b.deposits)

save_yield_batch_same : (ds : List YieldData) (db : Store) → SameRows (save_yield_batch ds db) db
unfolding save_yield_batch save_yield_data
save_yield_batch_same [] db = (refl, refl)
save_yield_batch_same (d ∷ ds) db = save_yield_batch_same ds (save_yield_data d db)

fetch_series_same :
    (api : BcbApi) (series : SgsSeries) (start end : Date) (s : Session) {u : Unit {0}}
    {s' : Session}
    → fetch_series api series start end s ≡ done u s'
    → SameRows s'.current s.current
unfolding fetch_series
fetch_series_same api series start end s {u} {s'} h =
    elim (Result-cases (fetch_yield_data api series start end)) [
      | inl (points, e) ↦
          let k = rw e at h in
          let r : s' ≡ record s { current = save_yield_batch points s.current } = cc in
          rw r (save_yield_batch_same points s.current)
      | inr (x, e) ↦ absurd (let k = rw e at h in cc)
    ]

Credits-trans : {a b d : Store} {x y : ℤ} → Credits a b x → Credits b d y → Credits a d (x +ℤ y)
Credits-trans {a} {b} {d} {x} {y} p q = record {
  balances = omega (int_laws, parts_of_eq p.balances, parts_of_eq q.balances);
  yields = omega (int_laws, parts_of_eq p.yields, parts_of_eq q.yields);
  distinct = q.distinct;
}

fetch_if_same :
    (test : Bool) (api : BcbApi) (series : SgsSeries) (start end : Date) (s : Session)
    {u : Unit {0}} {s' : Session}
    → fetch_if test api series start end s ≡ done u s'
    → SameRows s'.current s.current
unfolding fetch_if
fetch_if_same true api series start end s h = fetch_series_same api series start end s h
fetch_if_same false api series start end s {u} {s'} h = let q : s' ≡ s = cc in rw q (refl, refl)

fetch_and_store_same :
    (api : BcbApi) (start end : Date) (s : Session) {u : Unit {0}} {s' : Session}
    → fetch_and_store_yield_data api start end s ≡ done u s'
    → SameRows s'.current s.current
unfolding fetch_and_store_yield_data
fetch_and_store_same api start end s {u} {s'} h =
    let before = ltb_date start cutoff_date in
    let after = not (ltb_date end cutoff_date) in
    let pre = fetch_if before api pre_2012 start (min_date end (date 2012 5 3)) in
    let post = fetch_if after api post_2012 (max_date start cutoff_date) end in
    let (u1, t, first, rest) = >>=-done pre (λ _. post) s h in
    let a = fetch_if_same before api pre_2012 start (min_date end (date 2012 5 3)) s first in
    let b = fetch_if_same after api post_2012 (max_date start cutoff_date) end t rest in
    (b.0 ∙ a.0, b.1 ∙ a.1)

module _ (clock : Clock) (describe : PrincipalDeposit → YieldCalculationResult → Date → String)
    (run_date : Date) where
  add_result_total :
      (d : PrincipalDeposit) (cents : ℤ) (r : ProcessYieldsResult)
      → pos 0 ≤ℤ cents
      → (add_result clock describe run_date d cents r).total_yield_cents
        ≡ r.total_yield_cents +ℤ cents
  unfolding add_result
  add_result_total d cents r h = elim (Bool-cases (leb_ℤ cents (pos 0))) [
    | inl least ↦
        let zero_cents : cents ≤ℤ pos 0 = ground arith in
        let same : r.total_yield_cents ≡ r.total_yield_cents +ℤ cents = omega int_laws in
        rw least same
    | inr more ↦ rw more refl
  ]

  process_deposits-Credits :
      (ds : List PrincipalDeposit) (r : ProcessYieldsResult) (s : Session)
      {r' : ProcessYieldsResult} {s' : Session}
      → Distinct wallet_id s.current.wallets
      → process_deposits clock describe run_date ds r s ≡ done r' s'
      → (c : ℤ) × (r'.total_yield_cents ≡ r.total_yield_cents +ℤ c) × Credits s.current s'.current c
  unfolding process_deposits
  process_deposits-Credits [] r s {r'} {s'} d h =
      let e : r' ≡ r = cc in
      let q : s' ≡ s = cc in
      (
        pos 0,
        +ℤ_zero r'.total_yield_cents r.total_yield_cents
            (ap (λ (x : ProcessYieldsResult). x.total_yield_cents) e),
        none_credited s.current s'.current (ap (λ (x : Session). x.current.wallets) q) d,
      )
  process_deposits-Credits (x ∷ ds) r s {r'} {s'} d h =
      let (cents, t, first, rest) =
        >>=-done (process_single_deposit clock describe run_date x) _ s h in
      let step = process_single_deposit-Step clock describe run_date x s d first in
      let (c, sum, credits) =
        process_deposits-Credits ds (add_result clock describe run_date x cents r) t
          step.credits.distinct rest in
      let added = add_result_total x cents r step.nonneg in
      (
        cents +ℤ c,
        omega (int_laws, parts_of_eq sum, parts_of_eq added),
        Credits-trans step.credits credits,
      )

-- A run for which no deposit is pending.
abbrev pub nothing_credited : Date → ProcessYieldsResult
nothing_credited run_date = record {
  calculation_date = run_date;
  deposits_evaluated = 0;
  deposits_credited = 0;
  total_yield_cents = pos 0;
  credited = [];
}

module _ (api : BcbApi) (clock : Clock)
    (describe : PrincipalDeposit → YieldCalculationResult → Date → String) (run_date : Date) where
  -- A run that ended processed the deposits that were pending, after the rates were stored.
  process_pending_run :
      (ds : List PrincipalDeposit) (s : Session) {r : ProcessYieldsResult} {s' : Session}
      → process_pending clock describe run_date api ds s ≡ done r s'
      → (t : Session) × (n : ℕ) × SameRows t.current s.current
        × (process_deposits clock describe run_date ds
              (record (nothing_credited run_date) { deposits_evaluated = n })
              t
            ≡ done r s')
  unfolding process_pending process_deposits
  process_pending_run [] s {r} {s'} h = (s, 0, (refl, refl), h)
  process_pending_run (d ∷ ds) s {r} {s'} h =
      let (u, t, first, rest) =
        >>=-done (fetch_and_store_yield_data api (earliest clock describe run_date d ds) run_date) _
          s h in
      (
        record t { committed = t.current },
        length (d ∷ ds),
        fetch_and_store_same api (earliest clock describe run_date d ds) run_date s first,
        rest,
      )

  run_ends :
      (db : Store) (next_id : ℕ) {r : ProcessYieldsResult}
      → (run_request (process_all_yields clock describe run_date api) db next_id).0 ≡ ok r
      → (t : Session) × (n : ℕ) × (s' : Session) × SameRows t.current db
        × (process_deposits clock describe run_date
              (pending_yields run_date db)
              (record (nothing_credited run_date) { deposits_evaluated = n })
              t
            ≡ done r s')
        × ((run_request (process_all_yields clock describe run_date api) db next_id).1 ≡ s'.current)
  unfolding process_all_yields
  run_ends db next_id {r} h =
      let (s', e, q) =
        run_request-ok (process_all_yields clock describe run_date api) db next_id h in
      let (t, n, same, k) =
        process_pending_run (pending_yields run_date db) (open_session db next_id) e in
      (t, n, s', same, k, q)

  -- Where no deposit is pending, a run does nothing.
  idle_run :
      (db : Store) (next_id : ℕ)
      → pending_yields run_date db ≡ []
      → run_request (process_all_yields clock describe run_date api) db next_id
        ≡ (ok (nothing_credited run_date), db)
  unfolding run_request process_all_yields process_pending
  idle_run db next_id h = rw h refl

  -- What a run reports as its total is what it added to the wallets of the clients, to their
  -- balances and to their yields alike, where the wallets have identifiers of their own.
  pub process_all_yields_totals :
      (db : Store) (next_id : ℕ) {r : ProcessYieldsResult}
      → Distinct wallet_id db.wallets
      → (run_request (process_all_yields clock describe run_date api) db next_id).0 ≡ ok r
      → Credits db
          (run_request (process_all_yields clock describe run_date api) db next_id).1
          r.total_yield_cents
  process_all_yields_totals db next_id {r} d h =
      let (t, n, s', same, k, q) = run_ends db next_id h in
      let (c, sum, made) =
        process_deposits-Credits clock describe run_date (pending_yields run_date db) _ t
          (rw same.0 d) k in
      let total_is_c : r.total_yield_cents ≡ c =
        eq_of_parts _ _ (omega (int_laws, parts_of_eq sum)) in
      let wallets = ap (total wallet_id (λ w. w.balance_cents)) same.0 in
      let earned = ap (total wallet_id (λ w. w.total_yield_cents)) same.0 in
      rw (q, total_is_c)
        (record {
          balances = rw wallets at made.balances;
          yields = rw earned at made.yields;
          distinct = made.distinct;
        })

-- A second run on the date of a run that ended, whatever the clock and the API say then, finds no
-- deposit to evaluate: it credits nothing and leaves the store as it is.
pub process_all_yields_once :
    (api : BcbApi) (clock : Clock)
    (describe : PrincipalDeposit → YieldCalculationResult → Date → String) (run_date : Date)
    (db : Store) (next_id : ℕ) {r : ProcessYieldsResult} (api' : BcbApi) (clock' : Clock)
    (next_id' : ℕ)
    → Distinct wallet_id db.wallets
    → Distinct deposit_id db.deposits
    → (run_request (process_all_yields clock describe run_date api) db next_id).0 ≡ ok r
    → let after = (run_request (process_all_yields clock describe run_date api) db next_id).1 in
      run_request (process_all_yields clock' describe run_date api') after next_id'
      ≡ (ok (nothing_credited run_date), after)
unfolding pending_yields
process_all_yields_once api clock describe run_date db next_id {r} api' clock' next_id' d n h =
    let (t, m, s', same, k, q) = run_ends api clock describe run_date db next_id h in
    let again : pending_yields run_date t.current ≡ pending_yields run_date db =
      ap (λ rows. order_by_deposited_at (filter_by (awaits_yield run_date) rows)) same.1 in
    let begun = record (nothing_credited run_date) { deposits_evaluated = m } in
    let ran : process_deposits clock describe run_date (pending_yields run_date t.current) begun t
        ≡ done r s' =
      rw again k in
    let none_left =
      process_deposits_finish clock describe run_date begun t (rw same.0 d) (rw same.1 n) ran in
    idle_run api' clock' describe run_date _ next_id' (rw q none_left)
