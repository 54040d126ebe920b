-- ===== src/Withdrawals/Decisions.antt =====
-- What an administrator's decision on a withdrawal does to the store.
use blanco_financas_api.Prelude.{
  ℕ, ◌≡◌, refl, ◌∙◌, arith, true, false, some, pos, ltb_ℤ, ◌-ℤ◌, find_by-test, ◌==◌,
}
use blanco_financas_api.Errors.{Error, ok, err}
use blanco_financas_api.Money.{from_cents}
use blanco_financas_api.Wallets.{Wallet, debit}
use blanco_financas_api.Transactions.{
  Transaction, is_pending_status, is_confirmed_status, confirm, confirmed,
}
use blanco_financas_api.Users.{User, is_admin}
use blanco_financas_api.Store.{
  AuditLog, AuditLog, Store, withdrawal_approved, find_transaction, find_user, find_wallet_of,
  put_transaction, put_wallet, put_audit, stored_items,
}
use blanco_financas_api.Store.Tables.{
  Distinct, find_by-merge, find_transaction-put, find_transaction-put_audit,
}
use blanco_financas_api.Session.{Clock, run_request}
use blanco_financas_api.Withdrawals.{approve_withdrawal, may_decide, submit}

-- An approval can go through: an administrator decides on a pending transaction of an amount that
-- the client's wallet has.
pub record Approvable (admin_id transaction_id : ℕ) (db : Store) : Type 0 where
  pub admin : User
  pub transaction : Transaction
  pub wallet : Wallet
  pub cents : ℕ
  pub admin_found : find_user admin_id db ≡ some admin
  pub admin_role : is_admin admin ≡ true
  pub transaction_found : find_transaction transaction_id db ≡ some transaction
  pub awaits : is_pending_status transaction.status ≡ true
  pub amount : transaction.amount_cents ≡ pos cents
  pub wallet_found : find_wallet_of transaction.user_id db ≡ some wallet
  pub covered : ltb_ℤ wallet.balance_cents (pos cents) ≡ false
  pub distinct : Distinct (λ (w : Wallet). w.id) db.wallets

-- The transaction once approved, and the wallet once debited.
abbrev approved : ℕ → Transaction → Transaction
approved now t = record t { status = confirmed; confirmed_at = some now; updated_at = now }

abbrev debited : ℕ → ℕ → Wallet → Wallet
debited cents now w = record w { balance_cents = w.balance_cents -ℤ pos cents; updated_at = now }

abbrev approval_log : ℕ → Transaction → AuditLog
approval_log admin_id t = record {
  action = withdrawal_approved;
  actor_id = admin_id;
  target_id = some t.id;
}

-- The store after an approval.
abbrev approved_store :
    ℕ → (admin_id transaction_id : ℕ) (db : Store) → Approvable admin_id transaction_id db → Store
approved_store now admin_id transaction_id db a =
    put_audit (approval_log admin_id a.transaction)
      (put_transaction (approved now a.transaction) (put_wallet (debited a.cents now a.wallet) db))

approve_withdrawal_run :
    (clock : Clock) (admin_id transaction_id : ℕ) (db : Store) (next_id : ℕ)
    (a : Approvable admin_id transaction_id db)
    → run_request (approve_withdrawal clock admin_id transaction_id) db next_id ≡ (
      ok (approved clock.now a.transaction),
      approved_store clock.now admin_id transaction_id db a,
    )
unfolding run_request approve_withdrawal may_decide from_cents debit confirm submit
approve_withdrawal_run clock admin_id transaction_id db next_id a =
    rw
      (
        a.admin_found, a.admin_role, a.transaction_found, a.awaits, a.amount, a.wallet_found,
        a.covered,
      )
      refl

-- What an approval leaves: the transaction is stored as confirmed, and the client's wallet has its
-- amount less.
pub record Approval (transaction : Transaction) (wallet : Wallet) (cents : ℕ) (db : Store)
    : Type 0 where
  pub transaction_after : Transaction
  pub transaction_found : find_transaction transaction.id db ≡ some transaction_after
  pub status_confirmed : is_confirmed_status transaction_after.status ≡ true
  pub wallet_after : Wallet
  pub wallet_found : find_wallet_of transaction.user_id db ≡ some wallet_after
  pub balance : wallet_after.balance_cents ≡ wallet.balance_cents -ℤ pos cents

approved_store-Approval :
    (now admin_id transaction_id : ℕ) (db : Store) (a : Approvable admin_id transaction_id db)
    → Approval a.transaction a.wallet a.cents (approved_store now admin_id transaction_id db a)
unfolding put_audit put_wallet find_wallet_of put_transaction
approved_store-Approval now admin_id transaction_id db a =
    let paid = put_wallet (debited a.cents now a.wallet) db in
    let owner : (a.wallet.user_id == a.transaction.user_id) ≡ true =
      find_by-test (λ (x : Wallet). x.user_id == a.transaction.user_id) db.wallets a.wallet_found in
    record {
      transaction_after = record (approved now a.transaction) {
        items = stored_items (find_transaction a.transaction.id paid);
      };
      transaction_found =
          find_transaction-put_audit a.transaction.id (approval_log admin_id a.transaction)
            (put_transaction (approved now a.transaction) paid)
          ∙ find_transaction-put (approved now a.transaction) paid;
      status_confirmed = refl;
      wallet_after = debited a.cents now a.wallet;
      wallet_found =
          find_by-merge (λ (x : Wallet). x.id) (λ (x : Wallet). x.user_id == a.transaction.user_id)
            (debited a.cents now a.wallet) db.wallets a.distinct a.wallet_found refl owner;
      balance = refl;
    }

-- Where an administrator approves a pending withdrawal that the client's balance covers, the
-- request succeeds: the withdrawal is stored as confirmed, and the client's wallet has exactly its
-- amount less.
pub approve_withdrawal_pays :
    (clock : Clock) (admin_id transaction_id : ℕ) (db : Store) (next_id : ℕ)
    (a : Approvable admin_id transaction_id db)
    → let run = run_request (approve_withdrawal clock admin_id transaction_id) db next_id in
      (run.0 ≡ ok (approved clock.now a.transaction))
      × Approval a.transaction a.wallet a.cents run.1
approve_withdrawal_pays clock admin_id transaction_id db next_id a =
    rw (approve_withdrawal_run clock admin_id transaction_id db next_id a)
      (refl, approved_store-Approval clock.now admin_id transaction_id db a)

-- A request to approve a withdrawal that raises leaves the store as it was, whatever was written
-- before: the wallet is not debited.
pub approve_withdrawal_atomic :
    (clock : Clock) (admin_id transaction_id : ℕ) (db : Store) (next_id : ℕ) {e : Error}
    → (run_request (approve_withdrawal clock admin_id transaction_id) db next_id).0 ≡ err e
    → (run_request (approve_withdrawal clock admin_id transaction_id) db next_id).1 ≡ db
unfolding run_request approve_withdrawal submit
approve_withdrawal_atomic clock admin_id transaction_id db next_id {e} h = ground arith
