-- ===== src/Withdrawals/Guards.antt =====
-- The guards that both decisions on a withdrawal share.
use blanco_financas_api.Prelude.{
  ℕ, ◌≡◌, refl, true, false, Bool-cases, Option-cases, inl, inr, none, some, String,
}
use blanco_financas_api.Errors.{ok, err, invalid_withdrawal, authorization, transaction_not_found}
use blanco_financas_api.Transactions.{Transaction, is_pending_status}
use blanco_financas_api.Store.{Store, find_transaction, find_user}
use blanco_financas_api.Session.{Action, Clock, run_request}
use blanco_financas_api.Withdrawals.{approve_withdrawal, reject_withdrawal, may_decide}

-- What an administrator may decide, a rejection with its reason.
pub data Decision : Type 0 where
  approving : Decision
  rejecting : String → Decision

abbrev pub decide : Decision → Clock → (admin_id transaction_id : ℕ) → Action Transaction
decide approving clock admin_id transaction_id = approve_withdrawal clock admin_id transaction_id
decide (rejecting reason) clock admin_id transaction_id =
    reject_withdrawal clock transaction_id admin_id reason

-- An administrator decides on a transaction that is pending.
pub record IsOpen (admin_id transaction_id : ℕ) (db : Store) : Type 0 where
  pub admin : may_decide (find_user admin_id db) ≡ true
  pub transaction : Transaction
  pub transaction_found : find_transaction transaction_id db ≡ some transaction
  pub awaits : is_pending_status transaction.status ≡ true

module _ (clock : Clock) (admin_id transaction_id : ℕ) (db : Store) (n : ℕ) where
  pub refused_admin :
      (d : Decision)
      → may_decide (find_user admin_id db) ≡ false
      → run_request (decide d clock admin_id transaction_id) db n ≡ (err authorization, db)
  unfolding run_request approve_withdrawal reject_withdrawal
  refused_admin approving h = rw h refl
  refused_admin (rejecting reason) h = rw h refl

  refused_missing :
      (d : Decision)
      → may_decide (find_user admin_id db) ≡ true
      → find_transaction transaction_id db ≡ none
      → run_request (decide d clock admin_id transaction_id) db n ≡ (err transaction_not_found, db)
  unfolding run_request approve_withdrawal reject_withdrawal
  refused_missing approving h g = rw (h, g) refl
  refused_missing (rejecting reason) h g = rw (h, g) refl

  pub refused_settled :
      (d : Decision) {t : Transaction}
      → may_decide (find_user admin_id db) ≡ true
      → find_transaction transaction_id db ≡ some t
      → is_pending_status t.status ≡ false
      → run_request (decide d clock admin_id transaction_id) db n ≡ (err invalid_withdrawal, db)
  unfolding run_request approve_withdrawal reject_withdrawal
  refused_settled approving h g p = rw (h, g, p) refl
  refused_settled (rejecting reason) h g p = rw (h, g, p) refl

  pub decide-IsOpen :
      (d : Decision) {t : Transaction}
      → (run_request (decide d clock admin_id transaction_id) db n).0 ≡ ok t
      → IsOpen admin_id transaction_id db
  decide-IsOpen d h = elim (Bool-cases (may_decide (find_user admin_id db))) [
    | inr may_not ↦ absurd (let k = rw (refused_admin d may_not) at h in cc)
    | inl may ↦ elim (Option-cases (find_transaction transaction_id db)) [
      | inl g ↦ absurd (let k = rw (refused_missing d may g) at h in cc)
      | inr (t, g) ↦ elim (Bool-cases (is_pending_status t.status)) [
        | inr p ↦ absurd (let k = rw (refused_settled d may g p) at h in cc)
        | inl p ↦ record { admin = may; transaction = t; transaction_found = g; awaits = p }
      ]
    ]
  ]
