-- ===== src/Webhooks/MercadoPago/Guards.antt =====
-- What a notification must show before any money moves.
use blanco_financas_api.Prelude.{
  ℕ, ◌==◌, ◌≡◌, refl, sym, ap, ◌∙◌, true, filter_by, ◌⊎◌, inl, inr, Option, none, some, List, [],
  ◌∷◌, String,
}
use blanco_financas_api.Errors.{Result, ok, err}
use blanco_financas_api.Transactions.{Transaction}
use blanco_financas_api.Store.{
  Store, put_audit, put_transaction, find_transaction, by_key, webhook_received,
  webhook_signature_valid,
}
use blanco_financas_api.Session.{
  lift, gets, pure, Action, Clock, Session, Outcome, done, raised, run_request, close_session,
  ◌>>=◌,
}
use blanco_financas_api.Accounts.{sole}
use blanco_financas_api.Webhooks.{Answer, find_by_pix_id, has_pix_id}
use blanco_financas_api.Webhooks.Signature.{
  Verifier, Notice, Verdict, missing, malformed, invalid_ts, out_of_tolerance, mismatch,
  not_comparable, bypassed, valid, judge, accepts,
}
use blanco_financas_api.Webhooks.MercadoPago.{
  Order, OrderReply, Reference, by_reference, no_reference, malformed_reference, reference,
  or_referred, with_order_id, http_error, no_answer, found_order, check_amount, heal, reconcile,
  locate, follow_order, work_on, follow_verdict, mercadopago_webhook, order_id_of, has_order_id,
  system_log,
}
use blanco_financas_api.Webhooks.MercadoPago.Kept.{
  money, Kept, KeptOr, IsPayment, if-cases, check_amount_guards,
}

-- The transaction that an order is about, in a store.
abbrev pub located_in : String → Reference → Store → Result (Option Transaction)
located_in order_id ref db =
    elim (sole (filter_by (λ t. has_pix_id order_id t.pix_transaction_id) db.transactions)) [
      | ok direct ↦ ok (or_referred direct (by_reference ref db))
      | err e ↦ err e
    ]

abbrev lifted : {A : Type 0} → Session → Result A → Outcome A
lifted s (ok a) = done a s
lifted s (err e) = raised e s

located_rows :
    (ref : Reference) (s : Session) (rows : List Transaction)
    → (lift (sole rows) >>= λ direct.
          gets (by_reference ref) >>= λ referred. pure (or_referred direct referred))
        s
      ≡ lifted s (elim (sole rows) [
        | ok direct ↦ ok (or_referred direct (by_reference ref s.current))
        | err e ↦ err e
      ])
unfolding sole
located_rows ref s [] = refl
located_rows ref s (t ∷ []) = refl
located_rows ref s (t ∷ u ∷ ts) = refl

locate_lem :
    (order_id : String) (ref : Reference) (s : Session)
    → locate order_id ref s ≡ lifted s (located_in order_id ref s.current)
unfolding locate find_by_pix_id
locate_lem order_id ref s =
    located_rows ref s
      (filter_by (λ t. has_pix_id order_id t.pix_transaction_id) s.current.transactions)

reconcile_guards :
    (db : Store) (clock : Clock) (text id : String) (order : Order) (t : Transaction) (s : Session)
    → Kept db s
    → KeptOr db (IsPayment order t) (reconcile clock text id order (some t) s)
unfolding reconcile heal put_transaction
reconcile_guards db clock text id order t s k =
    if-cases
      (λ (m : Action Transaction).
        KeptOr db (IsPayment order t) ((m >>= check_amount clock text id order) s))
      (has_order_id id t.pix_transaction_id) _ _
      (λ own. check_amount_guards db clock text id order t s k)
      (λ other.
        elim (check_amount_guards db clock text id order (with_order_id id t)
          (record s { current = put_transaction (with_order_id id t) s.current }) (k.0, k.1)) [
            | inl kept ↦ inl kept
            | inr p ↦ inr (record {
              processed = p.processed;
              payment_processed = p.payment_processed;
              same_total = p.same_total;
              not_confirmed = p.not_confirmed;
            })
          ])

unknown_keeps :
    (db : Store) (clock : Clock) (text id : String) (order : Order) (s : Session)
    → Kept db s
    → {P : Type 0} → KeptOr db P (reconcile clock text id order none s)
unfolding reconcile put_audit
unknown_keeps db clock text id order s k = inl (k.0, k.0)

-- An order that a request found, the transaction that it is about, and that it pays it.
pub record Paid (data_id : Option String) (reply : OrderReply) (db : Store) : Type 0 where
  pub order : Order
  pub transaction : Transaction
  pub answered : reply ≡ found_order order
  pub located :
      located_in (order_id_of order.id data_id) order.external_reference db ≡ ok (some transaction)
  pub payment : IsPayment order transaction

>>=-at :
    {A B : Type 0} (P : Outcome B → Type 0) (m : Action A) (f : A → Action B) (s : Session)
    {o : Outcome A}
    → m s ≡ o
    → P (elim o [ done a t ↦ f a t | raised e t ↦ raised e t ])
    → P ((m >>= f) s)
>>=-at P m f s h p = rw (h, ◌>>=◌) p

follow_order_guards :
    (db : Store) (clock : Clock) (text : String) (data_id : Option String) (reply : OrderReply)
    (s : Session)
    → Kept db s
    → KeptOr db (Paid data_id reply s.current) (follow_order clock text data_id reply s)
unfolding follow_order
follow_order_guards db clock text data_id no_answer s k = inl k
follow_order_guards db clock text data_id (http_error code) s k =
    if-cases (λ (m : Action Answer). KeptOr db (Paid data_id (http_error code) s.current) (m s))
      (code == 404) _ _ (λ a. inl k) (λ a. inl k)
follow_order_guards db clock text data_id (found_order order) s k =
    go (located_in id order.external_reference s.current) refl
  where
    Goal : Outcome Answer → Type 0
    Goal o = KeptOr db (Paid data_id (found_order order) s.current) o

    id : String
    id = order_id_of order.id data_id

    next :
        {r : Result (Option Transaction)}
        → located_in id order.external_reference s.current ≡ r
        → Goal (elim (lifted s r) [
          | done a t ↦ reconcile clock text id order a t
          | raised e t ↦ raised e t
        ])
        → Goal (follow_order clock text data_id (found_order order) s)
    next q p =
        >>=-at Goal (locate id order.external_reference) (reconcile clock text id order) s
          (locate_lem id order.external_reference s ∙ ap (lifted s) q) p

    go :
        (r : Result (Option Transaction))
        → located_in id order.external_reference s.current ≡ r
        → Goal (follow_order clock text data_id (found_order order) s)
    go (err e) q = next q (inl k)
    go (ok none) q = next q (unknown_keeps db clock text id order s k)
    go (ok (some t)) q = next q (elim (reconcile_guards db clock text id order t s k) [
      | inl kept ↦ inl kept
      | inr p ↦
          inr (record { order = order; transaction = t; answered = refl; located = q; payment = p })
    ])

work_on_guards :
    (db : Store) (clock : Clock) (text : String) (action data_id : Option String)
    (reply : OrderReply) (s : Session)
    → Kept db s
    → KeptOr db (Paid data_id reply s.current) (work_on clock text action data_id reply s)
unfolding work_on
work_on_guards db clock text action data_id reply s k =
    if-cases (λ (m : Action Answer). KeptOr db (Paid data_id reply s.current) (m s))
      (has_order_id "order.action_required" action) _ _ (λ early. inl (k.0, k.0))
      (λ later. follow_order_guards db clock text data_id reply s k)

-- The store in which the receipt and a valid signature are logged.
abbrev noted : Store → Store
noted db = system_log webhook_signature_valid (system_log webhook_received db)

abbrev noting : Store → ℕ → Session
noting db n = record { committed = system_log webhook_received db; current = noted db; next_id = n }

abbrev received : Store → ℕ → Session
received db n = record {
  committed = system_log webhook_received db;
  current = system_log webhook_received db;
  next_id = n;
}

verdict_guards :
    (db : Store) (n : ℕ) (verdict : Verdict) (work : Action Answer) {P : Type 0}
    → (accepts verdict ≡ true → KeptOr db P (work (noting db n)))
    → KeptOr db ((accepts verdict ≡ true) × P) (follow_verdict verdict work (received db n))
unfolding follow_verdict put_audit
verdict_guards db n missing work h = inl (refl, refl)
verdict_guards db n malformed work h = inl (refl, refl)
verdict_guards db n invalid_ts work h = inl (refl, refl)
verdict_guards db n out_of_tolerance work h = inl (refl, refl)
verdict_guards db n mismatch work h = inl (refl, refl)
verdict_guards db n not_comparable work h = inl (refl, refl)
verdict_guards db n bypassed work h = elim (h refl) [ inl k ↦ inl k | inr p ↦ inr (refl, p) ]
verdict_guards db n valid work h = elim (h refl) [ inl k ↦ inl k | inr p ↦ inr (refl, p) ]

located_noted :
    (id : String) (ref : Reference) (db : Store)
    → located_in id ref (noted db) ≡ located_in id ref db
unfolding put_audit find_transaction by_key
located_noted id no_reference db = refl
located_noted id malformed_reference db = refl
located_noted id (reference wanted) db = refl

closed :
    {A : Type 0} (db : Store) (P : Type 0) (o : Outcome A)
    → KeptOr db P o
    → (money (close_session o).1 ≡ money db) ⊎ P
closed db P (done a s) (inl k) = inl k.0
closed db P (raised e s) (inl k) = inl k.1
closed db P (done a s) (inr p) = inr p
closed db P (raised e s) (inr p) = inr p

-- A notification of Mercado Pago leaves every wallet, deposit and subscription as it was, unless its
-- signature is accepted, the order that Mercado Pago itself shows is processed with a processed
-- payment, and the transaction that it is about has exactly the order's amount and is not confirmed
-- yet.
pub mercadopago_webhook_guards :
    (verifier : Verifier) (clock : Clock) (text : String) (notice : Notice) (action : Option String)
    (reply : OrderReply) (db : Store) (n : ℕ)
    → (money (run_request (mercadopago_webhook verifier clock text notice action reply) db n).1
        ≡ money db)
      ⊎ ((accepts (judge verifier clock.now notice) ≡ true) × Paid notice.data_id reply db)
unfolding run_request mercadopago_webhook put_audit
mercadopago_webhook_guards verifier clock text notice action reply db n =
    closed db ((accepts (judge verifier clock.now notice) ≡ true) × Paid notice.data_id reply db)
      (follow_verdict (judge verifier clock.now notice)
        (work_on clock text action notice.data_id reply) (received db n))
      (elim (verdict_guards db n (judge verifier clock.now notice)
        (work_on clock text action notice.data_id reply)
        (λ a.
          work_on_guards db clock text action notice.data_id reply (noting db n) (refl, refl))) [
            | inl k ↦ inl k
            | inr (a, p) ↦ inr (
              a,
              record {
                order = p.order;
                transaction = p.transaction;
                answered = p.answered;
                located =
                    sym (
                      located_noted (order_id_of p.order.id notice.data_id)
                        p.order.external_reference db)
                    ∙ p.located;
                payment = p.payment;
              },
            )
          ])
