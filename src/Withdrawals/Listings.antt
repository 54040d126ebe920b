-- ===== src/Withdrawals/Listings.antt =====
-- The two listings of app/application/services/withdrawal_service.py, and `get_by_user_id` of
-- app/infrastructure/db/repositories/transaction_repository.py. A status to filter by is the status
-- that its text names.
use blanco_financas_api.Prelude.{
  ℕ, ◌≡◌, refl, ◌==◌, ltb, Bool, true, false, ◌&&◌, Option, none, some, List, [], ◌∷◌, filter_by,
  sort_by, take, drop,
}
use blanco_financas_api.Errors.{ok}
use blanco_financas_api.Transactions.{
  Transaction, TransactionType, TransactionStatus, pending, confirmed, cancelled, failed, expired,
  withdrawal,
}
use blanco_financas_api.Store.{Store, same_type}
use blanco_financas_api.Session.{Action, gets, run_request}

-- `ORDER BY created_at DESC LIMIT ... OFFSET ...`
abbrev page : ℕ → ℕ → List Transaction → List Transaction
page limit offset ts = take limit (drop offset (sort_by (λ a b. ltb b.created_at a.created_at) ts))

abbrev status_code : TransactionStatus → ℕ
status_code pending = 0
status_code confirmed = 1
status_code cancelled = 2
status_code failed = 3
status_code expired = 4

abbrev has_type : Option TransactionType → Transaction → Bool
has_type none t = true
has_type (some kind) t = same_type t.transaction_type kind

abbrev has_status : Option TransactionStatus → Transaction → Bool
has_status none t = true
has_status (some status) t = status_code t.status == status_code status

-- `TransactionModel.user_id == user_id`, which no row passes for `None`: the column is never NULL.
abbrev is_of : Option ℕ → Transaction → Bool
is_of none t = false
is_of (some user) t = t.user_id == user

unfoldable pub transactions_of :
    Option ℕ → Option TransactionType → Option TransactionStatus → ℕ → ℕ → Store → List Transaction
transactions_of user kind status limit offset db =
    page limit offset
      (filter_by (λ t. is_of user t && (has_type kind t && has_status status t)) db.transactions)

-- It asks for the transactions of no user, and not of all.
unfoldable pub get_pending_withdrawals : Action (List Transaction)
unfolding transactions_of
get_pending_withdrawals = gets (transactions_of none (some withdrawal) (some pending) 100 0)

unfoldable pub get_all_withdrawals : Option TransactionStatus → ℕ → ℕ → Action (List Transaction)
get_all_withdrawals status limit offset = gets (λ db. page limit offset (
    filter_by (λ t. same_type t.transaction_type withdrawal && has_status status t)
      db.transactions))

no_rows : (ts : List Transaction) → filter_by (λ t. false) ts ≡ []
no_rows [] = refl
no_rows (t ∷ ts) = no_rows ts

-- The listing of the pending withdrawals is always empty.
get_pending_withdrawals_empty :
    (db : Store) (n : ℕ) → run_request get_pending_withdrawals db n ≡ (ok [], db)
unfolding run_request get_pending_withdrawals transactions_of
get_pending_withdrawals_empty db n = rw (no_rows db.transactions) refl
