-- ===== src/ExpirationScheduler.antt =====
-- app/infrastructure/scheduler/expiration_scheduler.py, without the timing of the job, and
-- `expire_all_stale_payments` of app/infrastructure/db/repositories/transaction_repository.py.
pub mod Due
pub mod Sweep
use blanco_financas_api.Prelude.{
  ℕ, ◌==◌, if◌then◌else◌, Bool, true, false, ◌&&◌, List, [], ◌∷◌, map, length, filter_by, any_by,
}
use blanco_financas_api.Transactions.{
  Transaction, TransactionType, expired, is_stale, subscription_installment_payment,
  subscription_activation_payment,
}
use blanco_financas_api.Store.{Store, same_type}
use blanco_financas_api.PixPayments.{commit_if_any}
use blanco_financas_api.Session.{
  Action, Outcome, done, raised, ◌>>=◌, ◌>>◌, commit, gets, modify, open_session, pure,
}

-- `if transaction_types: ...`: no types stand for all of them.
abbrev pub is_one_of : List TransactionType → TransactionType → Bool
is_one_of [] kind = true
is_one_of (k ∷ ks) kind = any_by (same_type kind) (k ∷ ks)

-- The query and its test of the time: a stale payment of anyone.
unfoldable pub expires : ℕ → List TransactionType → Transaction → Bool
unfolding is_stale
expires now kinds t = is_one_of kinds t.transaction_type && is_stale now t

unfoldable pub sweep_row : ℕ → List TransactionType → Transaction → Transaction
unfolding expires
sweep_row now kinds t =
    if expires now kinds t then record t { status = expired; updated_at = now } else t

unfoldable pub expire_all_stale_payments : ℕ → List TransactionType → Action ℕ
unfolding sweep_row
expire_all_stale_payments now kinds = do
  count ← gets (λ db. length (filter_by (expires now kinds) db.transactions))
  modify (λ db. record db { transactions = map (sweep_row now kinds) db.transactions })
  pure count

-- `_PAYMENT_TYPES`
abbrev pub payment_types : List TransactionType
payment_types = subscription_installment_payment ∷ subscription_activation_payment ∷ []

-- The store that the job's session leaves: what it committed.
abbrev left : {A : Type 0} → Outcome A → Store
left (done a s) = s.committed
left (raised e s) = s.committed

-- `_run_expiration_job`. An exception is logged, and the session has been closed.
unfoldable pub run_expiration_job : ℕ → Store → ℕ → Store
unfolding expire_all_stale_payments commit_if_any
run_expiration_job now db next_id = left (
    (do count ← expire_all_stale_payments now payment_types; commit_if_any count)
      (open_session db next_id))
