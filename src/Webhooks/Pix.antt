-- ===== src/Webhooks/Pix.antt =====
-- What `pix_webhook` does with a paid installment payment.
use blanco_financas_api.Prelude.{ℕ, ◌≡◌, refl, ◌∙◌, ap, some, [], ◌∷◌, String, filter_by, ℤ, ◌+ℤ◌}
use blanco_financas_api.Errors.{Result, ok, err}
use blanco_financas_api.Transactions.{Transaction, pending, subscription_installment_payment}
use blanco_financas_api.Store.{Store, find_transaction}
use blanco_financas_api.Accounts.{sole}
use blanco_financas_api.Session.{
  Action, Clock, Outcome, done, raised, run_request, open_session, close_session, ◌>>=◌, pure, lift,
  Session, >>=-run,
}
use blanco_financas_api.InstallmentPayments.{confirm_payment}
use blanco_financas_api.InstallmentPayments.Holding.{Holds}
use blanco_financas_api.InstallmentPayments.Ready.{Ready, item_total}
use blanco_financas_api.InstallmentPayments.Credit.{confirm_payment_conserves}
use blanco_financas_api.Webhooks.{
  Answer, PixWebhookPayload, confirmed, has_pix_id, find_by_pix_id, follow_found, follow_status,
  confirmation, pix_webhook,
}

-- The payload of a payment.
abbrev pub paid : String → PixWebhookPayload
paid pix_id = record { pix_id = pix_id; status = "confirmed" }

-- What a service's request answers, as the webhook answers it.
abbrev pub answered : {A : Type 0} → ℕ → Result A × Store → Result Answer × Store
answered id (ok a, db) = (ok (confirmed id), db)
answered id (err e, db) = (err e, db)

found_by_pix_id :
    (pix_id : String) (s : Session) {t : Transaction}
    → filter_by (λ x. has_pix_id pix_id x.pix_transaction_id) s.current.transactions ≡ t ∷ []
    → find_by_pix_id pix_id s ≡ done (some t) s
unfolding find_by_pix_id sole
found_by_pix_id pix_id s h = ap (λ rows. lift (sole rows) s) h

answered_close :
    {A : Type 0} (id : ℕ) (m : Action A) (s : Session)
    → close_session ((m >>= λ _. pure (confirmed id)) s) ≡ answered id (close_session (m s))
answered_close {A} id m s = go (m s)
  where
    go :
        (o : Outcome A)
        → close_session (elim o [ done a t ↦ done (confirmed id) t | raised e t ↦ raised e t ])
          ≡ answered id (close_session o)
    go (done a t) = refl
    go (raised e t) = refl

answered-ok :
    {A : Type 0} (id : ℕ) (run : Result A × Store) {a : A}
    → run.0 ≡ ok a
    → answered id run ≡ (ok (confirmed id), run.1)
answered-ok id (ok a, db) h = refl
answered-ok id (err e, db) h = absurd cc

-- A notification of payment for the only transaction of its identifier does exactly what the
-- confirmation by the service of the transaction's type does, and answers by its outcome.
pub pix_webhook_confirms :
    (clock : Clock) (text pix_id : String) (db : Store) (n : ℕ) {t : Transaction}
    {m : Action Transaction}
    → filter_by (λ x. has_pix_id pix_id x.pix_transaction_id) db.transactions ≡ t ∷ []
    → confirmation clock text t pix_id ≡ some m
    → run_request (pix_webhook clock text (paid pix_id)) db n ≡ answered t.id (run_request m db n)
unfolding run_request pix_webhook follow_status
pix_webhook_confirms clock text pix_id db n {t} {m} h c =
    let s = open_session db n in
    let run =
      >>=-run (find_by_pix_id pix_id) (follow_found clock text (paid pix_id)) s
        (found_by_pix_id pix_id s h) in
    let step = ap (λ o. follow_status clock "confirmed" t o s) c in
    ap close_session (run ∙ step) ∙ answered_close t.id m s

-- A notification of payment for a pending installment payment, the only one of its identifier,
-- whose confirmation goes through, credits the user's wallet with exactly what the payment's items
-- pay, balance and guarantee fund together.
pub pix_webhook_conserves :
    (clock : Clock) (text pix_id : String) (db : Store) (n : ℕ) (total : ℤ) {t c : Transaction}
    → filter_by (λ x. has_pix_id pix_id x.pix_transaction_id) db.transactions ≡ t ∷ []
    → find_transaction t.id db ≡ some t
    → t.transaction_type ≡ subscription_installment_payment
    → t.status ≡ pending
    → Ready t.user_id total t.items db
    → (run_request (confirm_payment clock t.id pix_id) db n).0 ≡ ok c
    → let run = run_request (pix_webhook clock text (paid pix_id)) db n in
      (run.0 ≡ ok (confirmed t.id)) × Holds t.user_id (total +ℤ item_total t.items) run.1
unfolding confirmation
pix_webhook_conserves clock text pix_id db n total {t} {c} h f k p r g =
    let same =
      pix_webhook_confirms clock text pix_id db n {m = confirm_payment clock t.id pix_id} h
        (rw k refl) in
    let holds = confirm_payment_conserves clock t.id pix_id db n total t f p r g in
    rw (same, answered-ok t.id (run_request (confirm_payment clock t.id pix_id) db n) g)
      (refl, holds)
