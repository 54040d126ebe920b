-- ===== src/ExpirationScheduler/Sweep.antt =====
-- What a run of the expiration job leaves in the store.
use blanco_financas_api.Prelude.{
  ℕ, ◌≡◌, refl, arith, ◌==◌, ==_iff, true, false, Bool-cases, inl, inr, List, [], ◌∷◌, map, length,
  filter_by,
}
use blanco_financas_api.Errors.{ok}
use blanco_financas_api.Transactions.{Transaction, TransactionType, expired, is_stale}
use blanco_financas_api.Store.{Store, same_type}
use blanco_financas_api.Session.{run_request}
use blanco_financas_api.PixPayments.{commit_if_any, expires_for, expire_row, expire_stale_payments}
use blanco_financas_api.ExpirationScheduler.Due.{
  IsPayment, AllSweep, IsPayment-is_one_of, map-AllSweep,
}
use blanco_financas_api.ExpirationScheduler.{
  expires, sweep_row, is_one_of, payment_types, run_expiration_job, expire_all_stale_payments,
}

-- Where nothing is stale, the sweep changes no row.
sweep_fresh :
    (now : ℕ) (kinds : List TransactionType) (ts : List Transaction)
    → length (filter_by (expires now kinds) ts) ≡ 0
    → map (sweep_row now kinds) ts ≡ ts
unfolding sweep_row
sweep_fresh now kinds [] h = refl
sweep_fresh now kinds (t ∷ ts) h = elim (Bool-cases (expires now kinds t)) [
  | inl stale ↦ absurd (let k = rw stale at h in ground (arith, k))
  | inr fresh ↦
      let rest : length (filter_by (expires now kinds) ts) ≡ 0 = rw fresh at h in
      rw (fresh, sweep_fresh now kinds ts rest) refl
]

-- A run of the job leaves every payment swept: the stale installment and activation payments are
-- expired, with the time, whoever's they are, and every other row and table is as it was.
job_run :
    (now : ℕ) (db : Store) (next_id : ℕ)
    → run_expiration_job now db next_id
      ≡ record db { transactions = map (sweep_row now payment_types) db.transactions }
unfolding run_expiration_job expire_all_stale_payments commit_if_any
job_run now db next_id =
    elim (Bool-cases (length (filter_by (expires now payment_types) db.transactions) == 0)) [
      | inl none_stale ↦
          let nothing = sweep_fresh now payment_types db.transactions (
            ground (
              arith,
              ==_iff (length (filter_by (expires now payment_types) db.transactions)) 0,
              none_stale,
            )) in
          rw (none_stale, nothing) refl
      | inr some_stale ↦ rw some_stale refl
    ]

one_of_same :
    (a b : TransactionType)
    → same_type a b ≡ true
    → is_one_of payment_types b ≡ true
    → is_one_of payment_types a ≡ true
one_of_same a b e h = ground arith

settled_fresh :
    (now user : ℕ) (kind : TransactionType) (t : Transaction)
    → is_stale now t ≡ false
    → expires_for now user kind t ≡ false
unfolding expires_for
settled_fresh now user kind t h = ground (arith, h)

not_stale :
    (now : ℕ) (kind : TransactionType) (t : Transaction)
    → is_one_of payment_types kind ≡ true
    → same_type t.transaction_type kind ≡ true
    → expires now payment_types t ≡ false
    → is_stale now t ≡ false
unfolding expires
not_stale now kind t h same fresh = rw (one_of_same t.transaction_type kind same h) at fresh

other_kind :
    (now user : ℕ) (kind : TransactionType) (t : Transaction)
    → same_type t.transaction_type kind ≡ false
    → expires_for now user kind t ≡ false
unfolding expires_for
other_kind now user kind t h = rw h (ground arith)

swept_settled :
    (now user : ℕ) (kind : TransactionType) (t : Transaction)
    → expires_for now user kind (record t { status = expired; updated_at = now }) ≡ false
unfolding expires_for is_stale
swept_settled now user kind t = ground arith

swept_fresh :
    (now user : ℕ) (kind : TransactionType) (t : Transaction)
    → is_one_of payment_types kind ≡ true
    → expires_for now user kind (sweep_row now payment_types t) ≡ false
unfolding sweep_row
swept_fresh now user kind t h = elim (Bool-cases (expires now payment_types t)) [
  | inl stale ↦ rw stale (swept_settled now user kind t)
  | inr fresh ↦ elim (Bool-cases (same_type t.transaction_type kind)) [
    | inl same ↦ rw fresh (settled_fresh now user kind t (not_stale now kind t h same fresh))
    | inr other ↦ rw fresh (other_kind now user kind t other)
  ]
]

none_stale_left :
    (now user : ℕ) (kind : TransactionType) (ts : List Transaction)
    → is_one_of payment_types kind ≡ true
    → filter_by (expires_for now user kind) (map (sweep_row now payment_types) ts) ≡ []
none_stale_left now user kind [] h = refl
none_stale_left now user kind (t ∷ ts) h =
    rw (swept_fresh now user kind t h) (none_stale_left now user kind ts h)

nothing_to_expire :
    (now user : ℕ) (kind : TransactionType) (ts : List Transaction)
    → filter_by (expires_for now user kind) ts ≡ []
    → map (expire_row now user kind) ts ≡ ts
unfolding expire_row
nothing_to_expire now user kind [] h = refl
nothing_to_expire now user kind (t ∷ ts) h = elim (Bool-cases (expires_for now user kind t)) [
  | inl stale ↦ absurd (let k = rw stale at h in cc)
  | inr fresh ↦
      let rest : filter_by (expires_for now user kind) ts ≡ [] = rw fresh at h in
      rw (fresh, nothing_to_expire now user kind ts rest) refl
]

-- A run of the job sets every pending installment or activation payment whose minutes have passed
-- to expired, with the time, whoever's it is, and leaves every other row and table as it was. A
-- user's own expiration of either kind at the same time then finds none and changes nothing.
pub run_expiration_job_sweeps :
    (now user : ℕ) (kind : TransactionType) (db : Store) (n m : ℕ)
    → IsPayment kind
    → let swept = run_expiration_job now db n in
      AllSweep now db.transactions swept.transactions
      × (swept ≡ record db { transactions = swept.transactions })
      × (run_request (expire_stale_payments now user kind) swept m ≡ (ok 0, swept))
unfolding run_request expire_stale_payments
run_expiration_job_sweeps now user kind db n m h =
    let left = none_stale_left now user kind db.transactions (IsPayment-is_one_of kind h) in
    let same =
      nothing_to_expire now user kind (map (sweep_row now payment_types) db.transactions) left in
    rw (job_run now db n) (map-AllSweep now db.transactions, refl, rw (left, same) refl)
