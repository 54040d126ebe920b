-- ===== src/ActivationPayments/Confirm.antt =====
-- The confirmation of an activation payment.
use mathlib.Core.Path.{subst}
use blanco_financas_api.Prelude.{ℕ, ◌<◌, ◌≡◌, refl, sym, ap, ◌∙◌, true, some, String}
use blanco_financas_api.Errors.{Result, ok}
use blanco_financas_api.Calendar.{Date, IsValid, max_year}
use blanco_financas_api.DueDates.{compute_next_due_date}
use blanco_financas_api.DueDates.Bounds.{IsSafeDay, IsDue, compute_next_due_date-IsDue}
use blanco_financas_api.Subscriptions.{Subscription, active, inactive, is_inactive_status}
use blanco_financas_api.Transactions.{
  Transaction, is_confirmed_status, is_pending_status, confirm_payment_of, pending, confirmed,
  subscription_activation_payment,
}
use blanco_financas_api.Store.{
  same_type, AuditLog, Store, find_transaction, find_subscription, put_transaction,
  put_subscription, put_audit, stored_items, subscription_activation_payment_confirmed,
}
use blanco_financas_api.Store.Tables.{
  find_subscription-put, find_transaction-id, find_transaction-put, find_transaction-put_audit,
}
use blanco_financas_api.Session.{◌>>=◌, Clock, Session, done, open_session, run_request}
use blanco_financas_api.ActivationPayments.{
  confirm_activation, activation_of, settle_activation, activate_paid, activate_if_inactive,
}

-- A pending activation payment of an inactive subscription, on a valid date before the last year.
pub record Activatable (clock : Clock) (payment_id : ℕ) (db : Store) : Type 0 where
  pub payment : Transaction
  pub sub : Subscription
  pub payment_found : find_transaction payment_id db ≡ some payment
  pub kind : payment.transaction_type ≡ subscription_activation_payment
  pub awaits : payment.status ≡ pending
  pub for_sub : payment.subscription_id ≡ some sub.id
  pub sub_found : find_subscription sub.id db ≡ some sub
  pub sub_inactive : sub.status ≡ inactive
  pub safe_day : IsSafeDay sub.deposit_day_of_month
  pub today_valid : IsValid clock.today
  pub not_last_year : clock.today.year < max_year

-- The payment as it is saved, and the subscription on its first due date.
abbrev paid : Clock → String → Transaction → Transaction
paid clock pix_id t = record t {
  status = confirmed;
  pix_transaction_id = some pix_id;
  confirmed_at = some clock.now;
  updated_at = clock.now;
}

abbrev started : Clock → Subscription → Date → Subscription
started clock sub due = record sub {
  next_due_date = some due;
  status = active;
  covers_activation_fees = true;
  updated_at = clock.now;
}

abbrev confirmation_log : Transaction → AuditLog
confirmation_log t = record {
  action = subscription_activation_payment_confirmed;
  actor_id = t.user_id;
  target_id = some t.id;
}

-- The payment as it is loaded again.
abbrev reloaded : Transaction → Store → Transaction
reloaded t db = record t { items = stored_items (find_transaction t.id db) }

unfoldable after_activation : Transaction → Store → Store
after_activation t db = put_audit (confirmation_log t) (put_transaction t db)

activate_paid_run :
    (clock : Clock) (sub : Subscription) (due : Date) (s : Session)
    → sub.status ≡ inactive
    → compute_next_due_date sub.deposit_day_of_month clock.today ≡ ok due
    → find_subscription sub.id s.current ≡ some sub
    → activate_paid clock (some sub.id) s
      ≡ done tt (record s { current = put_subscription (started clock sub due) s.current })
unfolding activate_paid activate_if_inactive
activate_paid_run clock sub due s i h f =
    let test : is_inactive_status sub.status ≡ true = ap is_inactive_status i in
    rw (f, test, h) refl

settle_activation_run :
    (clock : Clock) (t : Transaction) (sub : Subscription) (due : Date) (s : Session)
    → t.subscription_id ≡ some sub.id
    → sub.status ≡ inactive
    → compute_next_due_date sub.deposit_day_of_month clock.today ≡ ok due
    → find_subscription sub.id s.current ≡ some sub
    → let after = after_activation t (put_subscription (started clock sub due) s.current) in
      settle_activation clock t s
      ≡ done
          (reloaded t (put_subscription (started clock sub due) s.current))
          (record s { committed = after; current = after })
unfolding settle_activation after_activation
settle_activation_run clock t sub due s e i h f =
    let r : activate_paid clock t.subscription_id s
        ≡ done tt (record s { current = put_subscription (started clock sub due) s.current }) =
      subst
        (λ o.
          activate_paid clock o s
          ≡ done tt (record s { current = put_subscription (started clock sub due) s.current }))
        (sym e) (activate_paid_run clock sub due s i h f) in
    let saved = put_subscription (started clock sub due) s.current in
    let back : find_transaction t.id (put_audit (confirmation_log t) (put_transaction t saved))
        ≡ some (reloaded t saved) =
      find_transaction-put_audit t.id (confirmation_log t) (put_transaction t saved)
      ∙ find_transaction-put t saved in
    rw (◌>>=◌, r, back) refl

find_subscription-after :
    (t : Transaction) (db : Store) (wanted : ℕ)
    → find_subscription wanted (after_activation t db) ≡ find_subscription wanted db
unfolding after_activation find_subscription put_audit put_transaction
find_subscription-after t db wanted = refl

activation_of_lem :
    (t : Transaction)
    → t.transaction_type ≡ subscription_activation_payment
    → activation_of (some t) ≡ some t
unfolding activation_of
activation_of_lem t k = rw (ap (λ k'. same_type k' subscription_activation_payment) k) refl

confirm_payment_of_lem :
    (pix_id : String) (clock : Clock) (t : Transaction)
    → t.status ≡ pending
    → confirm_payment_of pix_id clock.now t ≡ ok (paid clock pix_id t, true)
unfolding confirm_payment_of
confirm_payment_of_lem pix_id clock t p = rw (ap is_confirmed_status p, ap is_pending_status p) refl

confirm_activation_run :
    (clock : Clock) (payment_id : ℕ) (pix_id : String) (db : Store) (next_id : ℕ)
    (a : Activatable clock payment_id db) (due : Date)
    → compute_next_due_date a.sub.deposit_day_of_month clock.today ≡ ok due
    → let saved = put_subscription (started clock a.sub due) db in
      run_request (confirm_activation clock payment_id pix_id) db next_id ≡ (
        ok (reloaded (paid clock pix_id a.payment) saved),
        after_activation (paid clock pix_id a.payment) saved,
      )
unfolding run_request confirm_activation
confirm_activation_run clock payment_id pix_id db next_id a due h =
    rw
      (
        a.payment_found,
        activation_of_lem a.payment a.kind,
        confirm_payment_of_lem pix_id clock a.payment a.awaits,
        settle_activation_run clock (paid clock pix_id a.payment) a.sub due
            (open_session db next_id) a.for_sub a.sub_inactive h a.sub_found,
      )
      refl

-- A payment that was confirmed is only read.
already_activated :
    (clock : Clock) (payment_id : ℕ) (pix_id : String) (db : Store) (next_id : ℕ) {t : Transaction}
    → find_transaction payment_id db ≡ some t
    → t.transaction_type ≡ subscription_activation_payment
    → is_confirmed_status t.status ≡ true
    → run_request (confirm_activation clock payment_id pix_id) db next_id ≡ (ok t, db)
unfolding run_request confirm_activation confirm_payment_of
already_activated clock payment_id pix_id db next_id {t} f k c =
    rw (f, activation_of_lem t k, c) refl

-- What the confirmation of an activation leaves: the subscription is active and covers its fees,
-- its first due date is the computed one, and confirming again changes nothing.
pub record Activation (sub : Subscription) (clock : Clock) (payment_id : ℕ)
    (run : Result Transaction × Store) : Type 0 where
  pub due : Date
  pub computed : compute_next_due_date sub.deposit_day_of_month clock.today ≡ ok due
  pub falls_due : IsDue sub.deposit_day_of_month clock.today due
  pub sub_started : find_subscription sub.id run.1 ≡ some (started clock sub due)
  pub payment : Transaction
  pub status_confirmed : is_confirmed_status payment.status ≡ true
  pub answered : run.0 ≡ ok payment
  pub repeated :
      (clock' : Clock) (pix_id' : String) (next_id' : ℕ)
      → run_request (confirm_activation clock' payment_id pix_id') run.1 next_id'
        ≡ (ok payment, run.1)

after-Activation :
    (clock : Clock) (payment_id : ℕ) (pix_id : String) (db : Store)
    (a : Activatable clock payment_id db) (due : Date)
    → IsDue a.sub.deposit_day_of_month clock.today due
    → compute_next_due_date a.sub.deposit_day_of_month clock.today ≡ ok due
    → let saved = put_subscription (started clock a.sub due) db in
      let t = paid clock pix_id a.payment in
      Activation a.sub clock payment_id (ok (reloaded t saved), after_activation t saved)
unfolding after_activation
after-Activation clock payment_id pix_id db a due d computed =
    let saved = put_subscription (started clock a.sub due) db in
    let t = paid clock pix_id a.payment in
    let found : find_transaction payment_id (after_activation t saved) ≡ some (reloaded t saved) =
      subst (λ i. find_transaction i (after_activation t saved) ≡ some (reloaded t saved))
        (find_transaction-id payment_id db a.payment_found)
        (find_transaction-put_audit t.id (confirmation_log t) (put_transaction t saved)
          ∙ find_transaction-put t saved) in
    record {
      due = due;
      falls_due = d;
      computed = computed;
      sub_started =
          find_subscription-after t saved a.sub.id
          ∙ find_subscription-put (started clock a.sub due) db;
      payment = reloaded t saved;
      status_confirmed = refl;
      answered = refl;
      repeated = λ clock' pix_id' next_id'.
          already_activated clock' payment_id pix_id' (after_activation t saved) next_id' found
            a.kind refl;
    }

-- The confirmation of a pending activation payment of an inactive subscription, on a valid date
-- before the last year and with a deposit day that every month has, succeeds. The subscription is
-- then stored as active, covering its fees, and due on the computed next due date, which is one of its deposit days and not before today;
-- the payment is confirmed, and confirming it again, whenever, changes nothing.
pub confirm_activation_activates :
    (clock : Clock) (payment_id : ℕ) (pix_id : String) (db : Store) (next_id : ℕ)
    (a : Activatable clock payment_id db)
    → Activation a.sub clock payment_id
        (run_request (confirm_activation clock payment_id pix_id) db next_id)
confirm_activation_activates clock payment_id pix_id db next_id a =
    let (due, computed, _, d) =
      compute_next_due_date-IsDue a.sub.deposit_day_of_month clock.today a.today_valid
        a.not_last_year a.safe_day in
    rw (confirm_activation_run clock payment_id pix_id db next_id a due computed)
      (after-Activation clock payment_id pix_id db a due d computed)
