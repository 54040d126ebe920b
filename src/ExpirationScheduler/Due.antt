-- ===== src/ExpirationScheduler/Due.antt =====
-- Which payments the expiration job expires, said without the code of the query.
use blanco_financas_api.Prelude.{
  ℕ, ◌≡◌, refl, arith, ◌+◌, ◌*◌, ◌≤◌, ◌⊎◌, some, Option-cases, true, Bool-cases, inl, inr, List, [],
  ◌∷◌, map,
}
use blanco_financas_api.Transactions.{
  Transaction, TransactionType, TransactionStatus, deposit, withdrawal, yield_credit, fee,
  fundo_garantidor, subscription_installment_payment, subscription_activation_payment, pending,
  expired, is_pending_status, is_stale,
}
use blanco_financas_api.ExpirationScheduler.{expires, sweep_row, is_one_of, payment_types}

-- The two kinds of payment that expire.
abbrev pub IsPayment : TransactionType → Type 0
IsPayment kind =
    (kind ≡ subscription_installment_payment) ⊎ (kind ≡ subscription_activation_payment)

-- A payment that is pending, and whose minutes have passed since it was made; the times are in
-- microseconds.
pub record Due (now : ℕ) (t : Transaction) : Type 0 where
  pub payment : IsPayment t.transaction_type
  pub waiting : t.status ≡ pending
  pub minutes : ℕ
  pub timed : t.expiration_minutes ≡ some minutes
  pub passed : t.created_at + minutes * (60 * 1000000) ≤ now

-- What becomes of a row.
abbrev pub Sweeps : ℕ → Transaction → Transaction → Type 0
Sweeps now t t' =
    (Due now t × (t' ≡ record t { status = expired; updated_at = now }))
    ⊎ ((¬ Due now t) × (t' ≡ t))

abbrev pub AllSweep : ℕ → List Transaction → List Transaction → Type 0
AllSweep now [] [] = Unit
AllSweep now [] (u ∷ us) = ⊥
AllSweep now (t ∷ ts) [] = ⊥
AllSweep now (t ∷ ts) (u ∷ us) = Sweeps now t u × AllSweep now ts us

pub IsPayment-is_one_of :
    (kind : TransactionType) → IsPayment kind → is_one_of payment_types kind ≡ true
IsPayment-is_one_of kind (inl h) = rw h refl
IsPayment-is_one_of kind (inr h) = rw h refl

is_one_of-IsPayment :
    (kind : TransactionType) → is_one_of payment_types kind ≡ true → IsPayment kind
is_one_of-IsPayment subscription_installment_payment h = inl refl
is_one_of-IsPayment subscription_activation_payment h = inr refl
is_one_of-IsPayment deposit h = cc
is_one_of-IsPayment withdrawal h = cc
is_one_of-IsPayment yield_credit h = cc
is_one_of-IsPayment fee h = cc
is_one_of-IsPayment fundo_garantidor h = cc

pending_of : (status : TransactionStatus) → is_pending_status status ≡ true → status ≡ pending
pending_of status h = ground arith

expires-stale :
    (now : ℕ) (t : Transaction)
    → expires now payment_types t ≡ true
    → (is_one_of payment_types t.transaction_type ≡ true) × (is_stale now t ≡ true)
unfolding expires
expires-stale now t h = ground arith

is_stale-minutes :
    (now : ℕ) (t : Transaction)
    → is_stale now t ≡ true
    → (is_pending_status t.status ≡ true)
      × (minutes : ℕ) × (t.expiration_minutes ≡ some minutes)
      × (t.created_at + minutes * (60 * 1000000) ≤ now)
unfolding is_stale
is_stale-minutes now t h = elim (Bool-cases (is_pending_status t.status)) [
  | inr p ↦ absurd (let k = rw p at h in cc)
  | inl p ↦ elim (Option-cases t.expiration_minutes) [
    | inl e ↦ absurd (let k = rw (p, e) at h in cc)
    | inr (minutes, e) ↦ let k = rw (p, e) at h in (p, minutes, e, ground (arith, k))
  ]
]

expires-Due : (now : ℕ) (t : Transaction) → expires now payment_types t ≡ true → Due now t
expires-Due now t h =
    let (kind, stale) = expires-stale now t h in
    let (waits, minutes, timed, passed) = is_stale-minutes now t stale in
    record {
      payment = is_one_of-IsPayment t.transaction_type kind;
      waiting = pending_of t.status waits;
      minutes = minutes;
      timed = timed;
      passed = passed;
    }

Due-expires : (now : ℕ) (t : Transaction) → Due now t → expires now payment_types t ≡ true
unfolding expires is_stale
Due-expires now t d =
    rw (IsPayment-is_one_of t.transaction_type d.payment, d.waiting, d.timed)
      (let p = d.passed in ground (arith, p))

sweep_row-Sweeps : (now : ℕ) (t : Transaction) → Sweeps now t (sweep_row now payment_types t)
unfolding sweep_row
sweep_row-Sweeps now t = elim (Bool-cases (expires now payment_types t)) [
  | inl stale ↦ rw stale (inl (expires-Due now t stale, refl))
  | inr fresh ↦ rw fresh (inr (λ d. let k = Due-expires now t d in absurd cc, refl))
]

pub map-AllSweep :
    (now : ℕ) (ts : List Transaction) → AllSweep now ts (map (sweep_row now payment_types) ts)
map-AllSweep now [] = tt
map-AllSweep now (t ∷ ts) = (sweep_row-Sweeps now t, map-AllSweep now ts)
