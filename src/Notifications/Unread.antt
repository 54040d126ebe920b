-- ===== src/Notifications/Unread.antt =====
-- How the number of unread notifications moves.
use mathlib.Core.Path.{subst}
use blanco_financas_api.Prelude.{
  ℕ, ◌+◌, ◌≡◌, refl, sym, ◌∙◌, arith, ◌==◌, Bool-cases, inl, inr, if◌then◌else◌, true, Option, none,
  some, List, [], ◌∷◌, map, length, filter_by, ==_iff, ==_refl, String, find_by-test,
}
use blanco_financas_api.Errors.{Result, ok, err, notification_not_found}
use blanco_financas_api.Store.{Notification, Store, by_key, merge}
use blanco_financas_api.Store.Tables.{by_key-merge}
use blanco_financas_api.Store.{put_notification, put_audit, put_transaction, put_subscription}
use blanco_financas_api.Transactions.{Transaction}
use blanco_financas_api.InstallmentPayments.Closure.{
  RequestPlanWithdrawalInput, announce_closure, request_plan_withdrawal,
}
use blanco_financas_api.Session.{Clock, run_request}
use blanco_financas_api.Notifications.{
  notification_id, is_unread, find_notification, unread_count, as_read, put_marked, mark_as_read,
  read_row, mark_all_as_read,
}

abbrev unread_rows : List Notification → ℕ
unread_rows rows = length (filter_by is_unread rows)

-- One for an unread notification.
abbrev pub unread_one : Notification → ℕ
unread_one n = if is_unread n then 1 else 0

read_row-unread : (now : ℕ) (rows : List Notification) → unread_rows (map (read_row now) rows) ≡ 0
unfolding read_row as_read
read_row-unread now [] = refl
read_row-unread now (n ∷ rows) = ground (arith, read_row-unread now rows)

merge-unread :
    (row : Notification) (rows : List Notification) {n : Notification}
    → by_key notification_id row.id rows ≡ some n
    → row.is_read ≡ true
    → unread_rows (merge notification_id row rows) + unread_one n ≡ unread_rows rows
unfolding merge by_key
merge-unread row [] h k = absurd cc
merge-unread row (x ∷ rows) {n} h k = elim (Bool-cases (x.id == row.id)) [
  | inl here ↦ let e : x ≡ n = cc in rw (sym e, here) (ground arith)
  | inr later ↦
      let e = merge-unread row rows {n = n} (rw later at h) k in rw later (ground (arith, e))
]

-- The end of a request to mark what a look-up found.
abbrev Marked : ℕ → ℕ → Store → Option Notification → Result Notification × Store → Type 0
Marked now id db none run = run ≡ (err notification_not_found, db)
Marked now id db (some n) run =
    (run.0 ≡ ok (as_read now n))
    × (find_notification id run.1 ≡ some (as_read now n))
    × (unread_count run.1 + unread_one n ≡ unread_count db)

-- A notification that is found is marked: it is found as read at that time, and there is one unread
-- notification less if it had not been read before. The mark of one that is not there is refused
-- and changes nothing.
pub mark_as_read_counts :
    (clock : Clock) (id : ℕ) (db : Store) (next_id : ℕ)
    → Marked clock.now id db
        (find_notification id db)
        (run_request (mark_as_read clock id) db next_id)
unfolding run_request mark_as_read put_marked find_notification unread_count as_read
mark_as_read_counts clock id db next_id = go (find_notification id db) refl
  where
    go :
        (o : Option Notification)
        → find_notification id db ≡ o
        → Marked clock.now id db o (run_request (mark_as_read clock id) db next_id)
    go none h = rw h refl
    go (some n) h =
        let same : n.id ≡ id =
          (==_iff n.id id).0 (find_by-test (λ (x : Notification). x.id == id) db.notifications h) in
        let row = as_read clock.now n in
        rw h (
          refl,
          by_key-merge notification_id id row db.notifications ∙ rw (same, ==_refl id) refl,
          merge-unread row db.notifications {n = n}
              (subst (λ i. by_key notification_id i db.notifications ≡ some n) (sym same) h) refl,
        )

abbrev found_after : ℕ → Option Notification → Option Notification
found_after now none = none
found_after now (some n) = some (if n.is_read then n else as_read now n)

find_read_row :
    (now id : ℕ) (rows : List Notification)
    → by_key notification_id id (map (read_row now) rows)
      ≡ found_after now (by_key notification_id id rows)
unfolding read_row by_key as_read
find_read_row now id [] = refl
find_read_row now id (x ∷ rows) = ground (arith, find_read_row now id rows)

-- Marking all answers how many were unread and leaves none. What is found by an identifier
-- afterwards is what was found before, read at that time if it had not been read yet.
pub mark_all_as_read_counts :
    (clock : Clock) (id : ℕ) (db : Store) (next_id : ℕ)
    → let run = run_request (mark_all_as_read clock) db next_id in
      (run.0 ≡ ok (unread_count db))
      × (unread_count run.1 ≡ 0)
      × (find_notification id run.1 ≡ found_after clock.now (find_notification id db))
unfolding run_request mark_all_as_read unread_count find_notification
mark_all_as_read_counts clock id db next_id =
    (refl, read_row-unread clock.now db.notifications, find_read_row clock.now id db.notifications)

-- A closure that goes through leaves one unread notification more.
pub request_plan_withdrawal_notifies :
    (clock : Clock) (description : Option String) (input : RequestPlanWithdrawalInput) (db : Store)
    (next_id : ℕ) {t : Transaction}
    → (run_request (request_plan_withdrawal clock description input) db next_id).0 ≡ ok t
    → unread_count (run_request (request_plan_withdrawal clock description input) db next_id).1
      ≡ unread_count db + 1
unfolding run_request request_plan_withdrawal announce_closure put_notification put_audit
    put_transaction put_subscription unread_count
request_plan_withdrawal_notifies clock description input db next_id {t} h = ground arith
