-- ===== src/InstallmentPayments/Credit.antt =====
-- `confirm_payment`: where the money of a confirmed payment goes.
use blanco_financas_api.Prelude.{
  String, ℕ, ◌≡◌, refl, ◌∙◌, true, false, some, List, [], ◌∷◌, ℤ, pos, ◌+ℤ◌, int_laws,
}
use blanco_financas_api.Errors.{ok}
use blanco_financas_api.Transactions.{
  pending, is_confirmed_status, is_pending_status, confirm_payment_of, Transaction, TransactionItem,
}
use blanco_financas_api.Store.{find_transaction, put_transaction, put_audit, Store, find_wallet_of}
use blanco_financas_api.Store.Tables.{find_transaction-put}
use blanco_financas_api.Session.{
  run_request, close_session, open_session, Session, Clock, Outcome, done, raised,
}
use blanco_financas_api.InstallmentPayments.{
  finish_payment, settle_payment, confirm_payment, confirm_item, confirm_items,
}
use blanco_financas_api.InstallmentPayments.Holding.{Holds}
use blanco_financas_api.InstallmentPayments.Ready.{
  Ends, Holds-same, Ready, confirm_item-Ready, item_total,
}

add_nothing : (total : ℤ) → total ≡ total +ℤ pos 0
add_nothing total = omega int_laws

add_total : (total paid rest : ℤ) → total +ℤ (paid +ℤ rest) ≡ total +ℤ paid +ℤ rest
add_total total paid rest = omega int_laws

-- One round after another.
next_round :
    (clock : Clock) (user : ℕ) (items : List TransactionItem) (P : Store → Type 0)
    (o : Outcome (Unit {0}))
    → Ends P o
    → (R : Store → Type 0)
    → ((s' : Session) → P s'.current → Ends R (confirm_items clock user items s'))
    → Ends R (elim o [ done a s' ↦ confirm_items clock user items s' | raised e s' ↦ raised e s' ])
next_round clock user items P (done a s') h R k = k s' h
next_round clock user items P (raised e s') h R k = tt

-- The loop credits the wallet of the user with exactly what the items pay.
confirm_items_conserves :
    (clock : Clock) (user : ℕ) (total : ℤ) (items : List TransactionItem) (s : Session)
    → Ready user total items s.current
    → Ends (Holds user (total +ℤ item_total items)) (confirm_items clock user items s)
unfolding confirm_items
confirm_items_conserves clock user total [] s r =
    let h = r.holding in
    record {
      wallet = h.wallet;
      found = h.found;
      holds = h.holds ∙ add_nothing total;
      distinct = h.distinct;
    }
confirm_items_conserves clock user total (item ∷ items) s r =
    next_round clock user items (Ready user (total +ℤ item.amount_cents) items)
      (confirm_item clock user item s) (confirm_item-Ready clock user total items item s r)
      (Holds user (total +ℤ (item.amount_cents +ℤ item_total items)))
      (λ s' r'.
        rw (add_total total item.amount_cents (item_total items))
          (confirm_items_conserves clock user (total +ℤ item.amount_cents) items s' r'))

-- The same for an action that returns a transaction.
abbrev EndsAt : (Store → Type 0) → Outcome Transaction → Type 0
EndsAt P (done a s') = P s'.current
EndsAt P (raised e s') = Unit

finish_payment-Holds :
    (clock : Clock) (payment : Transaction) (user : ℕ) (total : ℤ) (s : Session)
    → Holds user total s.current
    → EndsAt (Holds user total) (finish_payment clock payment s)
unfolding finish_payment put_transaction put_audit find_wallet_of
finish_payment-Holds clock payment user total s h =
    rw (find_transaction-put payment s.current) (Holds-same user total s.current _ refl h)

after_loop :
    (clock : Clock) (payment : Transaction) (user : ℕ) (total : ℤ) (o : Outcome (Unit {0}))
    → Ends (Holds user total) o
    → EndsAt
        (Holds user total)
        (elim o [ done a s' ↦ finish_payment clock payment s' | raised e s' ↦ raised e s' ])
after_loop clock payment user total (done a s') h =
    finish_payment-Holds clock payment user total s' h
after_loop clock payment user total (raised e s') h = tt

pending-Holds :
    (clock : Clock) (payment_id : ℕ) (pix_id : String) (total : ℤ) (payment : Transaction)
    (s : Session)
    → find_transaction payment_id s.current ≡ some payment
    → payment.status ≡ pending
    → Ready payment.user_id total payment.items s.current
    → EndsAt
        (Holds payment.user_id (total +ℤ item_total payment.items))
        (confirm_payment clock payment_id pix_id s)
unfolding confirm_payment confirm_payment_of settle_payment
pending-Holds clock payment_id pix_id total payment s f p r =
    let is_pending : is_confirmed_status payment.status ≡ false = rw p refl in
    let is_open : is_pending_status payment.status ≡ true = rw p refl in
    rw (f, is_pending, is_open)
      (after_loop clock _ payment.user_id (total +ℤ item_total payment.items)
        (confirm_items clock payment.user_id payment.items s)
        (confirm_items_conserves clock payment.user_id total payment.items s r))

EndsAt-request :
    (P : Store → Type 0) (o : Outcome Transaction) {t : Transaction}
    → EndsAt P o
    → (close_session o).0 ≡ ok t
    → P (close_session o).1
EndsAt-request P (done a s') h e = h
EndsAt-request P (raised e s') h q = cc

-- The confirmation of a pending payment that succeeds credits the user's wallet with exactly what
-- the payment's items pay: where every subscription has paid its activation fees, those of the
-- items exist and the user has a wallet, the balance and the guarantee fund together grow by the
-- sum of the items' amounts.
pub confirm_payment_conserves :
    (clock : Clock) (payment_id : ℕ) (pix_id : String) (db : Store) (next_id : ℕ) (total : ℤ)
    (payment : Transaction) {t : Transaction}
    → find_transaction payment_id db ≡ some payment
    → payment.status ≡ pending
    → Ready payment.user_id total payment.items db
    → (run_request (confirm_payment clock payment_id pix_id) db next_id).0 ≡ ok t
    → Holds payment.user_id
        (total +ℤ item_total payment.items)
        (run_request (confirm_payment clock payment_id pix_id) db next_id).1
unfolding run_request
confirm_payment_conserves clock payment_id pix_id db next_id total payment f p r h =
    let s = open_session db next_id in
    EndsAt-request (Holds payment.user_id (total +ℤ item_total payment.items))
      (confirm_payment clock payment_id pix_id s)
      (pending-Holds clock payment_id pix_id total payment s f p r) h
