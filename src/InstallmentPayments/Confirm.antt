-- ===== src/InstallmentPayments/Confirm.antt =====
-- `confirm_payment`, where it fails.
use blanco_financas_api.Prelude.{
  ℕ, ◌≡◌, refl, ◌∙◌, arith, inl, inr, Bool, true, false, Option-cases, List, [], ◌∷◌, String,
  if◌then◌else◌,
}
use blanco_financas_api.Errors.{Error, Result, ok, err}
use blanco_financas_api.Money.{Money}
use blanco_financas_api.Subscriptions.{Subscription}
use blanco_financas_api.Wallets.{Wallet}
use blanco_financas_api.Transactions.{Transaction, TransactionItem, confirm_payment_of}
use blanco_financas_api.Store.{Store, find_transaction, put_deposit, put_wallet, put_subscription}
use blanco_financas_api.Session.{
  Session, Clock, Outcome, done, raised, lift, pure, ◌>>=◌, run_request, close_session,
  open_session,
}
use blanco_financas_api.InstallmentPayments.{
  deposit_principal, credit_item, confirm_item, confirm_items, finish_payment, settle_payment,
  confirm_payment,
}

-- What an action leaves alone: the committed store, and the transactions unless it raises.
abbrev Frame : {A : Type 0} → Session → Outcome A → Type 0
Frame s (done a s') =
    (s'.committed ≡ s.committed) × (s'.current.transactions ≡ s.current.transactions)
Frame s (raised e s') = s'.committed ≡ s.committed

deposit_principal-Frame :
    (clock : Clock) (user : ℕ) (item : TransactionItem) (m : Money) (s : Session)
    → Frame s (deposit_principal clock user item m s)
unfolding deposit_principal put_deposit
deposit_principal-Frame clock user item m s = ground arith

credit_item-Frame :
    (clock : Clock) (user : ℕ) (w : Wallet) (sub : Subscription) (item : TransactionItem)
    (s : Session)
    → Frame s (credit_item clock user w sub item s)
unfolding credit_item put_deposit put_wallet
credit_item-Frame clock user w sub item s = ground arith

confirm_item-Frame :
    (clock : Clock) (user : ℕ) (item : TransactionItem) (s : Session)
    → Frame s (confirm_item clock user item s)
unfolding confirm_item put_subscription put_deposit put_wallet
confirm_item-Frame clock user item s = ground arith

Frame-after :
    {B : Type 0} (s s' : Session) (o : Outcome B)
    → (s'.committed ≡ s.committed) × (s'.current.transactions ≡ s.current.transactions)
    → Frame s' o
    → Frame s o
Frame-after s s' (done b t) h k = (k.0 ∙ h.0, k.1 ∙ h.1)
Frame-after s s' (raised e t) h k = k ∙ h.0

Frame-trans :
    {A B : Type 0} (s : Session) (o : Outcome A) (f : A → Session → Outcome B)
    → Frame s o
    → ((a : A) (s' : Session) → Frame s' (f a s'))
    → Frame s (elim o [ done a s' ↦ f a s' | raised e s' ↦ raised e s' ])
Frame-trans s (done a s') f h k = Frame-after s s' (f a s') h (k a s')
Frame-trans s (raised e s') f h k = h

confirm_items-Frame :
    (clock : Clock) (user : ℕ) (items : List TransactionItem) (s : Session)
    → Frame s (confirm_items clock user items s)
unfolding confirm_items
confirm_items-Frame clock user [] s = (refl, refl)
confirm_items-Frame clock user (item ∷ items) s =
    Frame-trans s (confirm_item clock user item s) (λ _. confirm_items clock user items)
      (confirm_item-Frame clock user item s) (λ _ s'. confirm_items-Frame clock user items s')

-- An action that raises has committed nothing.
abbrev IsAtomic : {A : Type 0} → Session → Outcome A → Type 0
IsAtomic s (done a s') = Unit
IsAtomic s (raised e s') = s'.committed ≡ s.committed

finish_payment-IsAtomic :
    (clock : Clock) (payment : Transaction) (s : Session)
    → IsAtomic s (finish_payment clock payment s)
unfolding finish_payment
finish_payment-IsAtomic clock payment s = ground arith

IsAtomic-after :
    {B : Type 0} (s s' : Session) (o : Outcome B)
    → s'.committed ≡ s.committed
    → IsAtomic s' o
    → IsAtomic s o
IsAtomic-after s s' (done b t) h k = tt
IsAtomic-after s s' (raised e t) h k = k ∙ h

after_items :
    (clock : Clock) (payment : Transaction) (s : Session) (o : Outcome (Unit {0}))
    → Frame s o
    → IsAtomic s
        (elim o [ done a s' ↦ finish_payment clock payment s' | raised e s' ↦ raised e s' ])
after_items clock payment s (done a s') h =
    IsAtomic-after s s' (finish_payment clock payment s') h.0
      (finish_payment-IsAtomic clock payment s')
after_items clock payment s (raised e s') h = h

settle_payment-IsAtomic :
    (clock : Clock) (payment : Transaction) (s : Session)
    → IsAtomic s (settle_payment clock payment s)
unfolding settle_payment
settle_payment-IsAtomic clock payment s =
    after_items clock payment s (confirm_items clock payment.user_id payment.items s)
      (confirm_items-Frame clock payment.user_id payment.items s)

closed_IsAtomic :
    {A : Type 0} (s : Session) (o : Outcome A) {e : Error}
    → IsAtomic s o
    → (close_session o).0 ≡ err e
    → (close_session o).1 ≡ s.committed
closed_IsAtomic s (done a s') h q = cc
closed_IsAtomic s (raised e s') h q = h

on_status :
    (clock : Clock) (r : Result (Transaction × Bool)) (s : Session)
    → IsAtomic s (
        (lift r >>= λ confirmed.
        if confirmed.1 then settle_payment clock confirmed.0 else pure confirmed.0)
          s)
on_status clock (ok (t, true)) s = settle_payment-IsAtomic clock t s
on_status clock (ok (t, false)) s = tt
on_status clock (err e) s = refl

confirm_payment-IsAtomic :
    (clock : Clock) (payment_id : ℕ) (pix_id : String) (s : Session)
    → IsAtomic s (confirm_payment clock payment_id pix_id s)
unfolding confirm_payment
confirm_payment-IsAtomic clock payment_id pix_id s =
    elim (Option-cases (find_transaction payment_id s.current)) [
      | inl missing ↦ rw missing refl
      | inr (payment, found) ↦
          rw found (on_status clock (confirm_payment_of pix_id clock.now payment) s)
    ]

-- A confirmation that raises leaves the store as it was before the request, whatever was written
-- for the items that came before.
pub confirm_payment_atomic :
    (clock : Clock) (payment_id : ℕ) (pix_id : String) (db : Store) (next_id : ℕ) {e : Error}
    → (run_request (confirm_payment clock payment_id pix_id) db next_id).0 ≡ err e
    → (run_request (confirm_payment clock payment_id pix_id) db next_id).1 ≡ db
unfolding run_request
confirm_payment_atomic clock payment_id pix_id db next_id {e} h =
    closed_IsAtomic (open_session db next_id)
      (confirm_payment clock payment_id pix_id (open_session db next_id))
      (confirm_payment-IsAtomic clock payment_id pix_id (open_session db next_id)) h
