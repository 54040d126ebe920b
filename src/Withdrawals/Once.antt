-- ===== src/Withdrawals/Once.antt =====
-- A withdrawal that was decided is not decided again.
use blanco_financas_api.Prelude.{
  ℕ, ◌≡◌, refl, sym, ap, ◌∙◌, false, Bool-cases, Option-cases, inl, inr, Option, none, some, String,
  if◌then◌else◌,
}
use blanco_financas_api.Errors.{ok, err, invalid_withdrawal, authorization, Result-cases}
use blanco_financas_api.Money.{from_cents}
use blanco_financas_api.Wallets.{debit}
use blanco_financas_api.Transactions.{
  Transaction, is_pending_status, confirm, confirmed, cancelled, cancel, reject_with_reason,
}
use blanco_financas_api.Store.{
  Store, find_subscription, find_transaction, find_user, find_wallet_of, put_audit,
  put_subscription, put_transaction, put_wallet, stored_items, withdrawal_rejected,
}
use blanco_financas_api.Store.Tables.{find_transaction-put, find_transaction-id}
use blanco_financas_api.Session.{
  Clock, Outcome, Session, done, raised, run_request, open_session, pure, ◌>>=◌, ◌>>◌,
  run_request-ok,
}
use blanco_financas_api.Withdrawals.Guards.{
  Decision, approving, rejecting, decide, IsOpen, decide-IsOpen, refused_settled, refused_admin,
}
use blanco_financas_api.Withdrawals.{
  approve_withdrawal, reject_withdrawal, may_decide, submit, reinstate, reinstate_found, reinstated,
  log,
}

-- The transaction is stored and no longer pending, and the users are those of before.
record IsDecided (transaction_id : ℕ) (before db : Store) : Type 0 where
  transaction : Transaction
  found : find_transaction transaction_id db ≡ some transaction
  settled : is_pending_status transaction.status ≡ false
  users : db.users ≡ before.users

-- Where an action ended well, the transaction is decided.
abbrev Decides : {A : Type 0} → ℕ → Store → Outcome A → Type 0
Decides transaction_id before (done a s') = IsDecided transaction_id before s'.current
Decides transaction_id before (raised e s') = Unit

-- The row of a settled transaction is found, whatever is written to the other tables.
saved-IsDecided :
    (t : Transaction) (wanted : ℕ) (before db db' : Store)
    → is_pending_status t.status ≡ false
    → t.id ≡ wanted
    → db.users ≡ before.users
    → db'.transactions ≡ (put_transaction t db).transactions
    → db'.users ≡ db.users
    → IsDecided wanted before db'
unfolding find_transaction
saved-IsDecided t wanted before db db' p i u q v = record {
  transaction = record t { items = stored_items (find_transaction t.id db) };
  found = rw (sym i, q) (find_transaction-put t db);
  settled = p;
  users = v ∙ u;
}

reinstate-Decides :
    (clock : Clock) (subscription_id : Option ℕ) (s : Session)
    → (s' : Session) × (reinstate subscription_id s ≡ done tt s')
      × (s'.current.transactions ≡ s.current.transactions)
      × (s'.current.users ≡ s.current.users)
unfolding reinstate reinstate_found put_subscription
reinstate-Decides clock none s = (s, refl, refl, refl)
reinstate-Decides clock (some i) s = elim (Option-cases (find_subscription i s.current)) [
  | inl f ↦ (s, rw f refl, refl, refl)
  | inr (sub, f) ↦
      (record s { current = put_subscription (reinstated sub) s.current }, rw f refl, refl, refl)
]

approve_withdrawal-Decides :
    (clock : Clock) (admin_id transaction_id : ℕ) (db : Store) (n : ℕ)
    → IsOpen admin_id transaction_id db
    → Decides transaction_id db
        (approve_withdrawal clock admin_id transaction_id (open_session db n))
unfolding approve_withdrawal submit confirm put_wallet put_audit put_transaction
approve_withdrawal-Decides clock admin_id transaction_id db n o =
    let t = o.transaction in
    rw (o.admin, o.transaction_found)
      (elim (Result-cases (from_cents t.amount_cents)) [
        | inr (e, c) ↦ rw (o.awaits, c) tt
        | inl (m, c) ↦ elim (Option-cases (find_wallet_of t.user_id db)) [
          | inl f ↦ rw (o.awaits, c, f) tt
          | inr (w, f) ↦ elim (Result-cases (debit m clock.now w)) [
            | inr (e, d) ↦ rw (o.awaits, c, f, d) tt
            | inl (w', d) ↦
                rw (o.awaits, c, f, d)
                  (saved-IsDecided
                    (record t {
                      status = confirmed;
                      confirmed_at = some clock.now;
                      updated_at = clock.now;
                    })
                    transaction_id db (put_wallet w' db) _ refl
                    (find_transaction-id transaction_id db o.transaction_found) refl refl refl)
          ]
        ]
      ])

finish_reject :
    (clock : Clock) (admin_id wanted : ℕ) (before db : Store) (s : Session) (t : Transaction)
    → is_pending_status t.status ≡ false
    → t.id ≡ wanted
    → db.users ≡ before.users
    → s.current ≡ put_transaction t db
    → Decides wanted before
        ((reinstate t.subscription_id >> (log withdrawal_rejected admin_id t.id >> pure t)) s)
unfolding put_audit put_transaction
finish_reject clock admin_id wanted before db s t p i u c =
    let (s', e, q, v) = reinstate-Decides clock t.subscription_id s in
    rw (◌>>=◌, e)
      (saved-IsDecided t wanted before db _ p i u (q ∙ ap (λ (x : Store). x.transactions) c)
        (v ∙ ap (λ (x : Store). x.users) c))

reject_withdrawal-Decides :
    (clock : Clock) (admin_id transaction_id : ℕ) (reason : String) (db : Store) (n : ℕ)
    → IsOpen admin_id transaction_id db
    → Decides transaction_id db
        (reject_withdrawal clock transaction_id admin_id reason (open_session db n))
unfolding reject_withdrawal reject_with_reason cancel
reject_withdrawal-Decides clock admin_id transaction_id reason db n o =
    let t = o.transaction in
    let row : Transaction = record t {
      status = cancelled;
      updated_at = clock.now;
      rejection_reason = some reason;
    } in
    rw (o.admin, o.transaction_found, o.awaits)
      (finish_reject clock admin_id transaction_id db db
        (record (open_session db n) { current = put_transaction row db }) row refl
        (find_transaction-id transaction_id db o.transaction_found) refl refl)

decide-Decides :
    (d : Decision) (clock : Clock) (admin_id transaction_id : ℕ) (db : Store) (n : ℕ)
    → IsOpen admin_id transaction_id db
    → Decides transaction_id db (decide d clock admin_id transaction_id (open_session db n))
decide-Decides approving clock admin_id transaction_id db n o =
    approve_withdrawal-Decides clock admin_id transaction_id db n o
decide-Decides (rejecting reason) clock admin_id transaction_id db n o =
    reject_withdrawal-Decides clock admin_id transaction_id reason db n o

find_user-users :
    (wanted : ℕ) (before db : Store)
    → db.users ≡ before.users
    → find_user wanted db ≡ find_user wanted before
unfolding find_user
find_user-users wanted before db h = rw h

-- A decision that went through leaves the transaction decided.
decided :
    (d : Decision) (clock : Clock) (admin_id transaction_id : ℕ) (db : Store) (n : ℕ)
    {t : Transaction}
    → (run_request (decide d clock admin_id transaction_id) db n).0 ≡ ok t
    → IsDecided transaction_id db (run_request (decide d clock admin_id transaction_id) db n).1
decided d clock admin_id transaction_id db n {t} h =
    let (s', e, q) = run_request-ok (decide d clock admin_id transaction_id) db n h in
    let k : IsDecided transaction_id db s'.current = rw e at (
      decide-Decides d clock admin_id transaction_id db n
        (decide-IsOpen clock admin_id transaction_id db n d h)) in
    rw q k

-- A withdrawal is decided once: after an approval or a rejection that went through, every further
-- approval or rejection of the same transaction, by anyone and at any time, is refused and changes
-- nothing. An administrator gets `InvalidWithdrawalError`, anyone else `AuthorizationError`.
pub decided_once :
    (first second : Decision) (clock later : Clock) (admin_id other_id transaction_id : ℕ)
    (db : Store) (n m : ℕ) {t : Transaction}
    → (run_request (decide first clock admin_id transaction_id) db n).0 ≡ ok t
    → let after = (run_request (decide first clock admin_id transaction_id) db n).1 in
      run_request (decide second later other_id transaction_id) after m ≡ (
        err (if may_decide (find_user other_id db) then invalid_withdrawal else authorization),
        after,
      )
decided_once first second clock later admin_id other_id transaction_id db n m h =
    let i = decided first clock admin_id transaction_id db n h in
    let after = (run_request (decide first clock admin_id transaction_id) db n).1 in
    let same : find_user other_id after ≡ find_user other_id db =
      find_user-users other_id db after i.users in
    elim (Bool-cases (may_decide (find_user other_id db))) [
      | inl may ↦ rw may (
          refused_settled later other_id transaction_id after m second (ap may_decide same ∙ may)
            i.found i.settled)
      | inr no_one ↦
          rw no_one (
            refused_admin later other_id transaction_id after m second
              (ap may_decide same ∙ no_one))
    ]
