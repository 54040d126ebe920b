-- ===== src/Webhooks/MercadoPago/Kept.antt =====
-- What the steps of `mercadopago_webhook` leave of the money behind the amount check.
use blanco_financas_api.Prelude.{
  ◌≡◌, refl, arith, Bool, true, false, if◌then◌else◌, ◌&&◌, ◌⊎◌, inl, inr, List, String,
  same_string,
}
use blanco_financas_api.Errors.{Result, ok, err}
use blanco_financas_api.Subscriptions.{Subscription}
use blanco_financas_api.Wallets.{Wallet}
use blanco_financas_api.Transactions.{Transaction, is_confirmed_status, fail, expire, cancel}
use blanco_financas_api.Store.{PrincipalDeposit, Store, put_audit, put_transaction}
use blanco_financas_api.Session.{Action, Clock, Session, Outcome, done, raised, ◌>>=◌}
use blanco_financas_api.Webhooks.{Answer}
use blanco_financas_api.Webhooks.MercadoPago.Totals.{order_amount, transaction_amount, both}
use blanco_financas_api.Webhooks.MercadoPago.{
  Order, close_pending, failed_order, expired_order, cancelled_order, paid_order, dispatch,
  check_amount,
}

-- What a client owns: the wallets, the deposits and the subscriptions.
abbrev pub money : Store → List Wallet × (List PrincipalDeposit × List Subscription)
money db = (db.wallets, (db.deposits, db.subscriptions))

-- What a session, or the end of an action, leaves of it.
abbrev pub Kept : Store → Session → Type 0
Kept db s = (money s.current ≡ money db) × (money s.committed ≡ money db)

abbrev pub Keeps : {A : Type 0} → Store → Outcome A → Type 0
Keeps db (done a s) = Kept db s
Keeps db (raised e s) = Kept db s

-- A paid order for a transaction of the same amount that is not confirmed.
pub record IsPayment (order : Order) (t : Transaction) : Type 0 where
  pub processed : same_string order.status "processed" ≡ true
  pub payment_processed : same_string order.payment_status "processed" ≡ true
  pub same_total :
      both (order_amount order.total_amount) (transaction_amount t.amount_cents) ≡ ok true
  pub not_confirmed : is_confirmed_status t.status ≡ false

>>=-Keeps :
    {A B : Type 0} (db : Store) (m : Action A) (f : A → Action B) (s : Session)
    → Keeps db (m s)
    → ((a : A) (t : Session) → Kept db t → Keeps db (f a t))
    → Keeps db ((m >>= f) s)
>>=-Keeps db m f s k rest = go (m s) k
  where
    go :
        (o : Outcome _)
        → Keeps db o
        → Keeps db (elim o [ done a t ↦ f a t | raised e t ↦ raised e t ])
    go (done a t) q = rest a t q
    go (raised e t) q = q

close_pending-Keeps :
    (db : Store) (t : Transaction) (r : Result Transaction) (s : Session)
    → Kept db s
    → Keeps db (close_pending t r s)
unfolding close_pending put_transaction
close_pending-Keeps db t (ok a) s k = ground arith
close_pending-Keeps db t (err e) s k = ground arith

failed_order-Keeps :
    (db : Store) (clock : Clock) (t : Transaction) (s : Session)
    → Kept db s
    → Keeps db (failed_order clock t s)
unfolding failed_order put_audit
failed_order-Keeps db clock t s k =
    >>=-Keeps db (close_pending t (fail clock.now t)) _ s
      (close_pending-Keeps db t (fail clock.now t) s k) (λ a s' q. (q.0, q.0))

expired_order-Keeps :
    (db : Store) (clock : Clock) (t : Transaction) (s : Session)
    → Kept db s
    → Keeps db (expired_order clock t s)
unfolding expired_order put_audit
expired_order-Keeps db clock t s k =
    >>=-Keeps db (close_pending t (expire clock.now t)) _ s
      (close_pending-Keeps db t (expire clock.now t) s k) (λ a s' q. (q.0, q.0))

cancelled_order-Keeps :
    (db : Store) (clock : Clock) (t : Transaction) (s : Session)
    → Kept db s
    → Keeps db (cancelled_order clock t s)
unfolding cancelled_order
cancelled_order-Keeps db clock t s k =
    >>=-Keeps db (close_pending t (cancel clock.now t)) _ s
      (close_pending-Keeps db t (cancel clock.now t) s k) (λ a s' q. (q.0, q.0))

-- Money is kept, or the order pays the transaction.
abbrev pub KeptOr : {A : Type 0} → Store → Type 0 → Outcome A → Type 0
KeptOr db Paid o = Keeps db o ⊎ Paid

-- A test in the code is a case of the proof.
pub if-cases :
    {A : Type 0} (P : A → Type 0) (b : Bool) (x y : A)
    → (b ≡ true → P x)
    → (b ≡ false → P y)
    → P (if b then x else y)
if-cases P true x y first second = first refl
if-cases P false x y first second = second refl

&&-true : (a b : Bool) → (a && b) ≡ true → (a ≡ true) × (b ≡ true)
&&-true true b h = (refl, h)
&&-true false b h = absurd cc

paid_order_guards :
    (db : Store) (clock : Clock) (text id : String) (Paid : Type 0) (t : Transaction) (s : Session)
    → Kept db s
    → (is_confirmed_status t.status ≡ false → Paid)
    → KeptOr db Paid (paid_order clock text id t s)
unfolding paid_order
paid_order_guards db clock text id Paid t s k paid =
    if-cases (λ (m : Action Answer). KeptOr db Paid (m s)) (is_confirmed_status t.status) _ _
      (λ again. inl (k.0, k.0)) (λ first. inr (paid first))

dispatch_guards :
    (db : Store) (clock : Clock) (text id : String) (order : Order) (t : Transaction) (s : Session)
    → Kept db s
    → both (order_amount order.total_amount) (transaction_amount t.amount_cents) ≡ ok true
    → KeptOr db (IsPayment order t) (dispatch clock text id order t s)
unfolding dispatch
dispatch_guards db clock text id order t s k same =
    let Goal : Action Answer → Type 0 = λ m. KeptOr db (IsPayment order t) (m s) in
    if-cases Goal
      (same_string order.status "processed" && same_string order.payment_status "processed") _ _
      (λ paid.
        let (one, two) =
          &&-true (same_string order.status "processed")
            (same_string order.payment_status "processed") paid in
        paid_order_guards db clock text id (IsPayment order t) t s k (λ first. record {
          processed = one;
          payment_processed = two;
          same_total = same;
          not_confirmed = first;
        }))
      (λ a.
        if-cases Goal (same_string order.payment_status "failed") _ _
          (λ b. inl (failed_order-Keeps db clock t s k))
          (λ b.
            if-cases Goal (same_string order.status "expired") _ _
              (λ c. inl (expired_order-Keeps db clock t s k))
              (λ c.
                if-cases Goal (same_string order.status "canceled") _ _
                  (λ d. inl (cancelled_order-Keeps db clock t s k)) (λ d. inl (k.0, k.0)))))

pub check_amount_guards :
    (db : Store) (clock : Clock) (text id : String) (order : Order) (t : Transaction) (s : Session)
    → Kept db s
    → KeptOr db (IsPayment order t) (check_amount clock text id order t s)
unfolding check_amount put_audit
check_amount_guards db clock text id order t s k =
    go (both (order_amount order.total_amount) (transaction_amount t.amount_cents)) refl
  where
    go :
        (r : Result Bool)
        → both (order_amount order.total_amount) (transaction_amount t.amount_cents) ≡ r
        → KeptOr db (IsPayment order t) (check_amount clock text id order t s)
    go (ok true) e = rw (e, check_amount) (dispatch_guards db clock text id order t s k e)
    go (ok false) e = rw (e, check_amount) (inl (k.0, k.0))
    go (err x) e = rw (e, check_amount) (inl (k.0, k.0))
