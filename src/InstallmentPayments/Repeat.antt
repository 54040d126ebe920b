-- ===== src/InstallmentPayments/Repeat.antt =====
-- `confirm_payment`, called again.
use mathlib.Core.Path.{subst}
use blanco_financas_api.Prelude.{
  ℕ, ◌≡◌, refl, sym, ◌∙◌, arith, Bool, true, false, Option-cases, inl, inr, some, String,
  if◌then◌else◌,
}
use blanco_financas_api.Errors.{Result, ok, err}
use blanco_financas_api.Transactions.{Transaction, is_confirmed_status, confirm_payment_of}
use blanco_financas_api.Store.{Store, stored_items, find_transaction, put_transaction, put_audit}
use blanco_financas_api.Store.Tables.{find_transaction-put, find_transaction-id}
use blanco_financas_api.Session.{
  Session, Clock, Outcome, done, raised, lift, pure, ◌>>=◌, run_request, close_session,
  open_session,
}
use blanco_financas_api.InstallmentPayments.{
  confirm_items, finish_payment, settle_payment, confirm_payment,
}

-- The store holds the payment, confirmed.
pub record IsConfirmed (payment_id : ℕ) (db : Store) : Type 0 where
  pub payment : Transaction
  pub found : find_transaction payment_id db ≡ some payment
  pub status_confirmed : is_confirmed_status payment.status ≡ true

-- Where an action ends well, the payment is confirmed.
abbrev Confirms : {A : Type 0} → ℕ → Outcome A → Type 0
Confirms payment_id (done a s') = IsConfirmed payment_id s'.current
Confirms payment_id (raised e s') = Unit

find_transaction-audit :
    (wanted : ℕ) (db db' : Store)
    → db'.transactions ≡ db.transactions
    → find_transaction wanted db' ≡ find_transaction wanted db
unfolding find_transaction
find_transaction-audit wanted db db' h = rw h

finish_payment-Confirms :
    (clock : Clock) (payment : Transaction) (s : Session)
    → is_confirmed_status payment.status ≡ true
    → Confirms payment.id (finish_payment clock payment s)
unfolding finish_payment put_audit
finish_payment-Confirms clock payment s h = rw (find_transaction-put payment s.current) (record {
  payment = record payment { items = stored_items (find_transaction payment.id s.current) };
  found =
      find_transaction-audit payment.id (put_transaction payment s.current) _ refl
      ∙ find_transaction-put payment s.current;
  status_confirmed = h;
})

after_items :
    (clock : Clock) (payment : Transaction) (o : Outcome (Unit {0}))
    → is_confirmed_status payment.status ≡ true
    → Confirms payment.id
        (elim o [ done a s' ↦ finish_payment clock payment s' | raised e s' ↦ raised e s' ])
after_items clock payment (done a s') h = finish_payment-Confirms clock payment s' h
after_items clock payment (raised e s') h = tt

settle_payment-Confirms :
    (clock : Clock) (payment : Transaction) (s : Session)
    → is_confirmed_status payment.status ≡ true
    → Confirms payment.id (settle_payment clock payment s)
unfolding settle_payment
settle_payment-Confirms clock payment s h =
    after_items clock payment (confirm_items clock payment.user_id payment.items s) h

-- The confirmed transaction: its identifier, and its status in both cases.
record Marks (payment : Transaction) (r : Transaction × Bool) : Type 0 where
  same_id : r.0.id ≡ payment.id
  marked : is_confirmed_status r.0.status ≡ true
  unchanged : r.1 ≡ false → r.0 ≡ payment

confirm_payment_of-Marks :
    (pix_id : String) (now : ℕ) (payment : Transaction) {r : Transaction × Bool}
    → confirm_payment_of pix_id now payment ≡ ok r
    → Marks payment r
unfolding confirm_payment_of
confirm_payment_of-Marks pix_id now payment {r} h = ground arith

on_status :
    (clock : Clock) (payment : Transaction) (r : Result (Transaction × Bool)) (s : Session)
    → find_transaction payment.id s.current ≡ some payment
    → ((v : Transaction × Bool) → r ≡ ok v → Marks payment v)
    → Confirms payment.id (
        (lift r >>= λ confirmed.
        if confirmed.1 then settle_payment clock confirmed.0 else pure confirmed.0)
          s)
on_status clock payment (ok (t, true)) s f h =
    let m = h (t, true) refl in
    subst (λ i. Confirms i (settle_payment clock t s)) m.same_id
      (settle_payment-Confirms clock t s m.marked)
on_status clock payment (ok (t, false)) s f h =
    let m = h (t, false) refl in
    record { payment = payment; found = f; status_confirmed = rw (sym (m.unchanged refl)) m.marked }
on_status clock payment (err e) s f h = tt

confirm_payment-Confirms :
    (clock : Clock) (payment_id : ℕ) (pix_id : String) (s : Session)
    → Confirms payment_id (confirm_payment clock payment_id pix_id s)
unfolding confirm_payment
confirm_payment-Confirms clock payment_id pix_id s =
    elim (Option-cases (find_transaction payment_id s.current)) [
      | inl missing ↦ rw missing tt
      | inr (payment, found) ↦
          let e = find_transaction-id payment_id s.current found in
          rw found (
            subst
              (λ i. Confirms i (
                (lift (confirm_payment_of pix_id clock.now payment) >>= λ confirmed.
                if confirmed.1 then settle_payment clock confirmed.0 else pure confirmed.0)
                  s))
              e
              (on_status clock payment (confirm_payment_of pix_id clock.now payment) s
                (subst (λ i. find_transaction i s.current ≡ some payment) (sym e) found)
                (λ v h. confirm_payment_of-Marks pix_id clock.now payment h)))
    ]

-- Once confirmed, a payment stays so, and another confirmation changes nothing at all.
already_confirmed :
    (clock : Clock) (payment_id : ℕ) (pix_id : String) (s : Session)
    → (c : IsConfirmed payment_id s.current)
    → confirm_payment clock payment_id pix_id s ≡ done c.payment s
unfolding confirm_payment confirm_payment_of
already_confirmed clock payment_id pix_id s c = rw (c.found, c.status_confirmed)

IsConfirmed-after :
    (payment_id : ℕ) (o : Outcome Transaction) {t : Transaction}
    → Confirms payment_id o
    → (close_session o).0 ≡ ok t
    → IsConfirmed payment_id (close_session o).1
IsConfirmed-after payment_id (done a s') c h = c
IsConfirmed-after payment_id (raised e s') c h = cc

-- After a confirmation that succeeded, the payment is stored as confirmed, and confirming it again,
-- with whatever Pix identifier and at whatever time, succeeds and leaves the whole store as it is:
-- no deposit, credit or log entry is made twice.
pub confirm_payment_idempotent :
    (clock clock' : Clock) (payment_id : ℕ) (pix_id pix_id' : String) (db : Store)
    (next_id next_id' : ℕ) {t : Transaction}
    → (run_request (confirm_payment clock payment_id pix_id) db next_id).0 ≡ ok t
    → let db' = (run_request (confirm_payment clock payment_id pix_id) db next_id).1 in
      (c : IsConfirmed payment_id db') × (run_request
          (confirm_payment clock' payment_id pix_id')
          db'
          next_id'
        ≡ (ok c.payment, db'))
unfolding run_request
confirm_payment_idempotent clock clock' payment_id pix_id pix_id' db next_id next_id' h =
    let first = open_session db next_id in
    let c =
      IsConfirmed-after payment_id (confirm_payment clock payment_id pix_id first)
        (confirm_payment-Confirms clock payment_id pix_id first) h in
    let db' = (close_session (confirm_payment clock payment_id pix_id first)).1 in
    (c, rw (already_confirmed clock' payment_id pix_id' (open_session db' next_id') c))
