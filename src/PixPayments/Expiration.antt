-- ===== src/PixPayments/Expiration.antt =====
-- `expire_stale_payments` of app/infrastructure/db/repositories/transaction_repository.py.
use blanco_financas_api.Prelude.{
  ℕ, ◌≡◌, ◌∙◌, ap, refl, arith, ◌==◌, true, false, Bool-cases, ◌⊎◌, inl, inr, some, List, [], ◌∷◌,
  map, length, filter_by, find_by,
}
use blanco_financas_api.Errors.{ok}
use blanco_financas_api.Transactions.{Transaction, TransactionType, expired, is_stale}
use blanco_financas_api.Store.{Store, by_key, find_transaction}
use blanco_financas_api.Store.Tables.{some_injective}
use blanco_financas_api.Session.{run_request}
use blanco_financas_api.PixPayments.{expires_for, expire_row, expire_stale_payments}

expire_row-id :
    (now user : ℕ) (kind : TransactionType) (t : Transaction)
    → (expire_row now user kind t).id ≡ t.id
unfolding expire_row
expire_row-id now user kind t = ground arith

expired_for_good :
    (now user : ℕ) (kind : TransactionType) (t : Transaction)
    → expires_for now user kind (expire_row now user kind t) ≡ false
unfolding expire_row expires_for is_stale
expired_for_good now user kind t = ground arith

none_left :
    (now user : ℕ) (kind : TransactionType) (ts : List Transaction)
    → filter_by (expires_for now user kind) (map (expire_row now user kind) ts) ≡ []
none_left now user kind [] = refl
none_left now user kind (t ∷ ts) =
    rw (expired_for_good now user kind t) (none_left now user kind ts)

find-expired :
    (now user : ℕ) (kind : TransactionType) (wanted : ℕ) (ts : List Transaction) {t : Transaction}
    → find_by (λ x. x.id == wanted) ts ≡ some t
    → find_by (λ x. x.id == wanted) (map (expire_row now user kind) ts)
      ≡ some (expire_row now user kind t)
unfolding expire_row
find-expired now user kind wanted [] h = cc
find-expired now user kind wanted (x ∷ xs) {t} h = elim (Bool-cases (x.id == wanted)) [
  | inl here ↦
      let same : x ≡ t = some_injective (rw here at h) in
      rw (expire_row-id now user kind x, here) (ap (λ y. some (expire_row now user kind y)) same)
  | inr later ↦
      let rest : find_by (λ y. y.id == wanted) xs ≡ some t = rw later at h in
      rw (expire_row-id now user kind x, later) (find-expired now user kind wanted xs rest)
]

row_decided :
    (now user : ℕ) (kind : TransactionType) (t : Transaction)
    → ((expires_for now user kind t ≡ true)
        × (expire_row now user kind t ≡ record t { status = expired; updated_at = now }))
      ⊎ ((expires_for now user kind t ≡ false) × (expire_row now user kind t ≡ t))
unfolding expire_row
row_decided now user kind t = elim (Bool-cases (expires_for now user kind t)) [
  | inl stale ↦ inl (stale, rw stale refl)
  | inr fresh ↦ inr (fresh, rw fresh refl)
]

-- The bulk expiration answers the number of the user's stale payments of the kind and leaves none of
-- them; a stored transaction is expired, with the time, just where it was one of them, and is
-- otherwise as it was.
pub expire_stale_payments_decides :
    (now user : ℕ) (kind : TransactionType) (db : Store) (next_id wanted : ℕ) {t : Transaction}
    → find_transaction wanted db ≡ some t
    → let run = run_request (expire_stale_payments now user kind) db next_id in
      (run.0 ≡ ok (length (filter_by (expires_for now user kind) db.transactions)))
      × (filter_by (expires_for now user kind) run.1.transactions ≡ [])
      × (((expires_for now user kind t ≡ true)
            × (find_transaction wanted run.1
                ≡ some (record t { status = expired; updated_at = now })))
          ⊎ ((expires_for now user kind t ≡ false) × (find_transaction wanted run.1 ≡ some t)))
unfolding run_request expire_stale_payments find_transaction by_key
expire_stale_payments_decides now user kind db next_id wanted {t} h =
    let found = find-expired now user kind wanted db.transactions h in
    (
      refl,
      none_left now user kind db.transactions,
      elim (row_decided now user kind t) [
        | inl (stale, e) ↦ inl (stale, found ∙ ap some e)
        | inr (fresh, e) ↦ inr (fresh, found ∙ ap some e)
      ],
    )
