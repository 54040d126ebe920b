-- ===== src/YieldService/Credit.antt =====
-- What a run of the yield crediting does to the wallets.
use blanco_financas_api.Prelude.{
  ℕ, ◌+◌, ◌≡◌, refl, ap, arith, ◌==◌, Bool-cases, Option-cases, inl, inr, String, some, none, ℤ,
  pos, ◌+ℤ◌, ◌≤ℤ◌, leb_ℤ, int_laws, parts_of_eq,
}
use blanco_financas_api.Errors.{ok, Result-cases}
use blanco_financas_api.Money.{Money, from_cents}
use blanco_financas_api.Calendar.{Date}
use blanco_financas_api.Wallets.{Wallet, credit_yield, credit}
use blanco_financas_api.Transactions.{create_yield}
use blanco_financas_api.Yields.{YieldCalculationResult}
use blanco_financas_api.Store.{
  PrincipalDeposit, Store, find_wallet_of, put_deposit, put_transaction, put_wallet, yield_credited,
  put_audit, merge,
}
use blanco_financas_api.Store.Tables.{Distinct, merge-Distinct}
use blanco_financas_api.Store.Totals.{total, total-merge}
use blanco_financas_api.Session.{>>=-done, Session, done, Clock}
use blanco_financas_api.YieldService.{
  evaluated, credit_deposit, evaluate_deposit, settle_deposit, process_single_deposit,
}

abbrev pub wallet_id : Wallet → ℕ
wallet_id w = w.id

-- The sums over all wallets of what can be drawn and of what was earned.
abbrev pub total_balance : Store → ℤ
total_balance db = total wallet_id (λ w. w.balance_cents) db.wallets

abbrev pub total_yield : Store → ℤ
total_yield db = total wallet_id (λ w. w.total_yield_cents) db.wallets

-- What one step of a run may do to the tables: it adds `cents` to one wallet, of balance and of
-- yield, and keeps every other.
pub record Credits (before after : Store) (cents : ℤ) : Type 0 where
  pub balances : total_balance after ≡ total_balance before +ℤ cents
  pub yields : total_yield after ≡ total_yield before +ℤ cents
  pub distinct : Distinct wallet_id after.wallets

pub +ℤ_zero : (a b : ℤ) → a ≡ b → a ≡ b +ℤ pos 0
+ℤ_zero a b h = omega (int_laws, parts_of_eq h)

pub none_credited :
    (before after : Store)
    → after.wallets ≡ before.wallets
    → Distinct wallet_id before.wallets
    → Credits before after (pos 0)
none_credited before after h d = record {
  balances = +ℤ_zero _ _ (ap (total wallet_id (λ w. w.balance_cents)) h);
  yields = +ℤ_zero _ _ (ap (total wallet_id (λ w. w.total_yield_cents)) h);
  distinct = rw h d;
}

from_cents_value : (c : ℤ) {m : Money} → from_cents c ≡ ok m → pos m.cents ≡ c
unfolding from_cents
from_cents_value c {m} h = ground arith

put_wallet-Credits :
    (m : Money) (now user : ℕ) (db : Store) {w : Wallet}
    → Distinct wallet_id db.wallets
    → find_wallet_of user db ≡ some w
    → Credits db (put_wallet (credit_yield m now w) db) (pos m.cents)
unfolding find_wallet_of put_wallet credit_yield credit
put_wallet-Credits m now user db {w} d f =
    let owner = λ (x : Wallet). x.user_id == user in
    record {
      balances =
          total-merge wallet_id (λ x. x.balance_cents) owner (credit_yield m now w) (pos m.cents)
            db.wallets d f refl refl;
      yields =
          total-merge wallet_id (λ x. x.total_yield_cents) owner (credit_yield m now w)
            (pos m.cents) db.wallets d f refl refl;
      distinct = merge-Distinct wallet_id (credit_yield m now w) db.wallets d;
    }

-- The store after the yield of a deposit was credited to a wallet.
abbrev credited_store : ℕ → String → PrincipalDeposit → ℤ → ℕ → Money → Wallet → Store → Store
credited_store now text deposit cents new_id m w db =
    put_audit
      (record { action = yield_credited; actor_id = deposit.user_id; target_id = some new_id })
      (put_wallet (credit_yield m now w) (
        put_transaction
          (create_yield new_id deposit.user_id cents text none (some deposit.subscription_id) now)
          db))

credit_deposit_run :
    (clock : Clock) (text : String) (deposit : PrincipalDeposit) (cents : ℤ) (s : Session)
    {u : Unit {0}} {s' : Session}
    → credit_deposit clock text deposit cents s ≡ done u s'
    → (m : Money) × (w : Wallet) × (from_cents cents ≡ ok m)
      × (find_wallet_of deposit.user_id s.current ≡ some w)
      × (s' ≡ record s {
        current = credited_store clock.now text deposit cents s.next_id m w s.current;
        next_id = s.next_id + 1;
      })
unfolding credit_deposit find_wallet_of put_transaction
credit_deposit_run clock text deposit cents s {u} {s'} h = elim (Result-cases (from_cents cents)) [
  | inl (m, e) ↦ elim (Option-cases (find_wallet_of deposit.user_id s.current)) [
    | inl f ↦ absurd (let k = rw (e, f) at h in cc)
    | inr (w, f) ↦ (m, w, e, f, let k = rw (e, f) at h in cc)
  ]
  | inr (x, e) ↦ absurd (let k = rw e at h in cc)
]

credit_deposit-Credits :
    (clock : Clock) (text : String) (deposit : PrincipalDeposit) (cents : ℤ) (s : Session)
    {u : Unit {0}} {s' : Session}
    → Distinct wallet_id s.current.wallets
    → credit_deposit clock text deposit cents s ≡ done u s'
    → Credits s.current s'.current cents
unfolding put_transaction put_audit put_wallet find_wallet_of
credit_deposit-Credits clock text deposit cents s {u} {s'} d h =
    let (m, w, e, f, r) = credit_deposit_run clock text deposit cents s h in
    let c = put_wallet-Credits m clock.now deposit.user_id s.current d f in
    let c' : Credits s.current (put_wallet (credit_yield m clock.now w) s.current) cents =
      rw (from_cents_value cents e) at c in
    rw r (record { balances = c'.balances; yields = c'.yields; distinct = c'.distinct })

-- What a step for one deposit leaves: the credits, the deposit marked, and all of it committed.
pub record Step (run_date : Date) (deposit : PrincipalDeposit) (s s' : Session) (cents : ℤ)
    : Type 0 where
  pub credits : Credits s.current s'.current cents
  pub marked :
      s'.current.deposits ≡ merge (λ x. x.id) (evaluated run_date deposit) s.current.deposits
  pub saved : s'.committed ≡ s'.current
  pub same_rates : s'.current.yield_data ≡ s.current.yield_data
  pub nonneg : pos 0 ≤ℤ cents

evaluate_deposit_keeps :
    (run_date : Date) (deposit : PrincipalDeposit) (s : Session) {x : YieldCalculationResult × ℤ}
    {s' : Session}
    → evaluate_deposit run_date deposit s ≡ done x s'
    → s' ≡ s
unfolding evaluate_deposit
evaluate_deposit_keeps run_date deposit s {x} {s'} h = ground arith

module _ (clock : Clock) (describe : PrincipalDeposit → YieldCalculationResult → Date → String)
    (run_date : Date) where
  -- The deposit is marked and all is committed.
  abbrev marked_session : PrincipalDeposit → Session → Session
  marked_session deposit s = record s {
    committed = put_deposit (evaluated run_date deposit) s.current;
    current = put_deposit (evaluated run_date deposit) s.current;
  }

  marked_session-Step :
      (deposit : PrincipalDeposit) (s mid : Session) (delta : ℤ) {cents : ℤ} {s' : Session}
      → Credits s.current mid.current delta
      → mid.current.deposits ≡ s.current.deposits
      → mid.current.yield_data ≡ s.current.yield_data
      → pos 0 ≤ℤ delta
      → done delta (marked_session deposit mid) ≡ done cents s'
      → Step run_date deposit s s' cents
  unfolding put_deposit
  marked_session-Step deposit s mid delta {cents} {s'} made same rates least h =
      let c : cents ≡ delta = cc in
      let r : s' ≡ marked_session deposit mid = cc in
      rw (r, c)
        (record {
          credits = record {
            balances = made.balances;
            yields = made.yields;
            distinct = made.distinct;
          };
          marked = rw same refl;
          saved = refl;
          same_rates = rates;
          nonneg = least;
        })

  settle_deposit-Step :
      (deposit : PrincipalDeposit) (t : YieldCalculationResult) (delta : ℤ) (s : Session)
      {cents : ℤ} {s' : Session}
      → Distinct wallet_id s.current.wallets
      → settle_deposit clock describe run_date deposit t delta s ≡ done cents s'
      → Step run_date deposit s s' cents
  unfolding settle_deposit put_transaction put_wallet put_audit
  settle_deposit-Step deposit t delta s {cents} {s'} d h = elim (Bool-cases (leb_ℤ delta (pos 0))) [
    | inl least ↦
        marked_session-Step deposit s s (pos 0) (none_credited s.current s.current refl d) refl refl
          (omega arith) (rw least at h)
    | inr more ↦
        let text = describe deposit t run_date in
        let (u, mid, first, rest) =
          >>=-done (credit_deposit clock text deposit delta) _ s (rw more at h) in
        let (m, w, e, f, q) = credit_deposit_run clock text deposit delta s first in
        marked_session-Step deposit s mid delta
          (credit_deposit-Credits clock text deposit delta s d first) (rw q refl) (rw q refl)
          (ground arith) rest
  ]

  pub process_single_deposit-Step :
      (deposit : PrincipalDeposit) (s : Session) {cents : ℤ} {s' : Session}
      → Distinct wallet_id s.current.wallets
      → process_single_deposit clock describe run_date deposit s ≡ done cents s'
      → Step run_date deposit s s' cents
  unfolding process_single_deposit
  process_single_deposit-Step deposit s {cents} {s'} d h =
      let (x, t, first, rest) = >>=-done (evaluate_deposit run_date deposit) _ s h in
      let same = evaluate_deposit_keeps run_date deposit s first in
      settle_deposit-Step deposit x.0 x.1 s d (rw same at rest)
