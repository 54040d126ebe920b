-- ===== src/YieldService/Pending.antt =====
-- A run of `process_all_yields` leaves no deposit pending for its date.
use blanco_financas_api.Prelude.{
  ℕ, ◌≡◌, ◌≢◌, refl, sym, ap, ◌∙◌, arith, ◌==◌, ==_iff, ==_refl, Bool, true, false, Bool-cases, inl,
  inr, String, List, [], ◌∷◌, filter_by, All, not, ◌&&◌, ◌||◌, any_by,
}
use blanco_financas_api.Calendar.{Date, ltb_date}
use blanco_financas_api.Yields.{YieldCalculationResult}
use blanco_financas_api.Store.{PrincipalDeposit, merge}
use blanco_financas_api.Store.Tables.{Distinct, merge-Distinct, ne_test}
use blanco_financas_api.Session.{>>=-done, Session, done, Clock}
use blanco_financas_api.YieldService.{
  ProcessYieldsResult, pending_yields, evaluated, process_single_deposit, add_result,
  process_deposits, awaits_yield, order_by_deposited_at, insert_deposit,
}
use blanco_financas_api.YieldService.Credit.{wallet_id, process_single_deposit-Step}

abbrev pub deposit_id : PrincipalDeposit → ℕ
deposit_id d = d.id

-- A deposit of the identifier is among the given ones.
abbrev listed : ℕ → List PrincipalDeposit → Bool
listed k ds = any_by (λ d. d.id == k) ds

-- A pending row is among the deposits that are left.
abbrev Covered : Date → List PrincipalDeposit → PrincipalDeposit → Type 0
Covered run_date ds y = (awaits_yield run_date y && not (listed y.id ds)) ≡ false

listed-insert :
    (k : ℕ) (d : PrincipalDeposit) (xs : List PrincipalDeposit)
    → listed k (insert_deposit d xs) ≡ ((d.id == k) || listed k xs)
listed-insert k d [] = refl
listed-insert k d (x ∷ xs) = ground (arith, listed-insert k d xs)

listed-order :
    (k : ℕ) (xs : List PrincipalDeposit) → listed k (order_by_deposited_at xs) ≡ listed k xs
listed-order k [] = refl
listed-order k (x ∷ xs) =
    listed-insert k x (order_by_deposited_at xs) ∙ ap (λ b. (x.id == k) || b) (listed-order k xs)

Covered-at_first :
    (run_date : Date) (ds rows : List PrincipalDeposit)
    → ((k : ℕ) → listed k (filter_by (awaits_yield run_date) rows) ≡ true → listed k ds ≡ true)
    → All (Covered run_date ds) rows
Covered-at_first run_date ds [] h = tt
Covered-at_first run_date ds (x ∷ xs) h = elim (Bool-cases (awaits_yield run_date x)) [
  | inl waits ↦ (
    rw (waits, h x.id (rw (waits, ==_refl x.id) refl)) refl,
    Covered-at_first run_date ds xs (λ k q. h k (rw (waits, q) (ground arith))),
  )
  | inr seen ↦ (rw seen refl, Covered-at_first run_date ds xs (λ k q. h k (rw seen q)))
]

ltb_date_irrefl : (t : Date) → ltb_date t t ≡ false
unfolding ltb_date
ltb_date_irrefl t = ground arith

Covered-others :
    (run_date : Date) (d : PrincipalDeposit) (ds rows : List PrincipalDeposit)
    → All (λ y. y.id ≢ d.id) rows
    → All (Covered run_date (d ∷ ds)) rows
    → All (Covered run_date ds) rows
Covered-others run_date d ds [] n c = tt
Covered-others run_date d ds (x ∷ xs) n c =
    let other : (d.id == x.id) ≡ false = ne_test d.id x.id (λ q. n.0 (sym q)) in
    ((rw other at c.0), Covered-others run_date d ds xs n.1 c.1)

-- Marking the first of them covers the rows by the others.
Covered-merge :
    (run_date : Date) (d : PrincipalDeposit) (ds rows : List PrincipalDeposit)
    → Distinct deposit_id rows
    → All (Covered run_date (d ∷ ds)) rows
    → All (Covered run_date ds) (merge deposit_id (evaluated run_date d) rows)
unfolding merge
Covered-merge run_date d ds [] n c = (rw (ltb_date_irrefl run_date) refl, tt)
Covered-merge run_date d ds (x ∷ xs) n c = elim (Bool-cases (x.id == d.id)) [
  | inl same ↦
      let e : x.id ≡ d.id = (==_iff x.id d.id).0 same in
      rw same
        (rw (ltb_date_irrefl run_date) refl, Covered-others run_date d ds xs (rw e at n.0) c.1)
  | inr other ↦
      let swapped : (d.id == x.id) ≡ false = ground arith in
      rw other (rw swapped at c.0, Covered-merge run_date d ds xs n.1 c.1)
]

none_pending :
    (run_date : Date) (rows : List PrincipalDeposit)
    → All (Covered run_date []) rows
    → filter_by (awaits_yield run_date) rows ≡ []
none_pending run_date [] c = refl
none_pending run_date (x ∷ xs) c =
    let seen : awaits_yield run_date x ≡ false = ground arith in
    rw seen (none_pending run_date xs c.1)

module _ (clock : Clock) (describe : PrincipalDeposit → YieldCalculationResult → Date → String)
    (run_date : Date) where
  process_deposits_cover :
      (ds : List PrincipalDeposit) (r : ProcessYieldsResult) (s : Session)
      {r' : ProcessYieldsResult} {s' : Session}
      → Distinct wallet_id s.current.wallets
      → Distinct deposit_id s.current.deposits
      → All (Covered run_date ds) s.current.deposits
      → process_deposits clock describe run_date ds r s ≡ done r' s'
      → pending_yields run_date s'.current ≡ []
  unfolding process_deposits pending_yields
  process_deposits_cover [] r s {r'} {s'} d n c h =
      let q : s ≡ s' = cc in rw (none_pending run_date s'.current.deposits (rw q at c)) refl
  process_deposits_cover (x ∷ ds) r s {r'} {s'} d n c h =
      let (cents, t, first, rest) =
        >>=-done (process_single_deposit clock describe run_date x) _ s h in
      let step = process_single_deposit-Step clock describe run_date x s d first in
      let row = evaluated run_date x in
      process_deposits_cover ds (add_result clock describe run_date x cents r) t
        step.credits.distinct (rw step.marked (merge-Distinct deposit_id row s.current.deposits n))
        (rw step.marked (Covered-merge run_date x ds s.current.deposits n c)) rest

  pub process_deposits_finish :
      (r : ProcessYieldsResult) (s : Session) {r' : ProcessYieldsResult} {s' : Session}
      → Distinct wallet_id s.current.wallets
      → Distinct deposit_id s.current.deposits
      → process_deposits clock describe run_date (pending_yields run_date s.current) r s
        ≡ done r' s'
      → pending_yields run_date s'.current ≡ []
  unfolding pending_yields
  process_deposits_finish r s {r'} {s'} d n h =
      let ds = pending_yields run_date s.current in
      process_deposits_cover ds r s d n
        (Covered-at_first run_date ds s.current.deposits
          (λ k q. listed-order k (filter_by (awaits_yield run_date) s.current.deposits) ∙ q))
        h
