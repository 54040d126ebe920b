-- ===== src/InstallmentPayments/Creation/Charge.antt =====
-- What a created payment asks the client for.
use mathlib.Core.Path.{subst}
use blanco_financas_api.Prelude.{
  ◌∙◌, sym, ◌+◌, ℕ, ◌≡◌, refl, Bool-cases, inl, inr, List, [], ◌∷◌, String, pos, ◌+ℤ◌, leb_ℤ, ap,
}
use blanco_financas_api.Errors.{Result, ok, err, ok_injective}
use blanco_financas_api.Money.{calculate_pix_fee}
use blanco_financas_api.Transactions.{
  Transaction, TransactionItem, create_item, create_installment_payment,
}
use blanco_financas_api.Store.{Store}
use blanco_financas_api.Session.{
  Action, Clock, Outcome, Session, close_session, done, lift, open_session, raised, run_request,
}
use blanco_financas_api.PixPayments.{Gateway, with_payload}
use blanco_financas_api.InstallmentPayments.Ready.{item_total}
use blanco_financas_api.InstallmentPayments.Creation.{
  ItemData, assemble_payment, create_payment, data_total, is_empty, make_items, open_payment,
  payable_items, register_payment, register_order, draft_payment,
}

-- Where the items are made, they add up to the data.
abbrev Made : List ItemData → Outcome (List TransactionItem) → Type 0
Made ds (done items s') = item_total items ≡ data_total ds
Made ds (raised e s') = Unit

one_more :
    (item : TransactionItem) (d : ItemData) (ds : List ItemData)
    (o : Outcome (List TransactionItem))
    → item.amount_cents ≡ d.amount_cents
    → Made ds o
    → Made (d ∷ ds) (elim o [ done rest s' ↦ done (item ∷ rest) s' | raised e s' ↦ raised e s' ])
one_more item d ds (done rest s') h m = rw (h, m) refl
one_more item d ds (raised e s') h m = tt

make_items-Made : (tid : ℕ) (ds : List ItemData) (s : Session) → Made ds (make_items tid ds s)
unfolding make_items create_item
make_items-Made tid [] s = refl
make_items-Made tid (d ∷ ds) s = elim (Bool-cases (leb_ℤ d.amount_cents (pos 0))) [
  | inl refused ↦ rw refused tt
  | inr accepted ↦
      rw accepted (one_more _ d ds (make_items tid ds _) refl (make_items-Made tid ds _))
]

-- The transaction asks for its items and for the Pix fee on them.
abbrev Charged : Transaction → Type 0
Charged t =
    (fee : ℕ) × (calculate_pix_fee (item_total t.items) ≡ ok fee)
    × (t.amount_cents ≡ item_total t.items +ℤ pos fee)

abbrev Charges : Outcome Transaction → Type 0
Charges (done t s') = Charged t
Charges (raised e s') = Unit

after_lift :
    {A : Type 0} (r : Result A) (f : A → Action Transaction) (s : Session)
    → ((a : A) (s' : Session) → r ≡ ok a → Charges (f a s'))
    → Charges (elim (lift r s) [ done a s' ↦ f a s' | raised e s' ↦ raised e s' ])
after_lift (ok a) f s h = h a s refl
after_lift (err e) f s h = tt

after :
    {A : Type 0} (o : Outcome A) (f : A → Action Transaction)
    → ((a : A) (s' : Session) → o ≡ done a s' → Charges (f a s'))
    → Charges (elim o [ done a s' ↦ f a s' | raised e s' ↦ raised e s' ])
after (done a s') f h = h a s' refl
after (raised e s') f h = tt

Made-done :
    (ds : List ItemData) (o : Outcome (List TransactionItem)) {items : List TransactionItem}
    {s' : Session}
    → Made ds o
    → o ≡ done items s'
    → item_total items ≡ data_total ds
Made-done ds (done x s'') {items} m e = let same : x ≡ items = cc in rw (sym same) m
Made-done ds (raised e' s'') m e = cc

closed_Charges :
    (o : Outcome Transaction) {t : Transaction} → Charges o → (close_session o).0 ≡ ok t → Charged t
closed_Charges (done a s') {t} c h = let same : a ≡ t = ok_injective h in subst Charged same c
closed_Charges (raised e s') c h = cc

module _ (gateway : Gateway) (unique : List ℕ → List ℕ) where
  open_payment-Charges :
      (clock : Clock) (description : String) (user new_id : ℕ) (items : List TransactionItem)
      (fee : ℕ) (s : Session)
      → calculate_pix_fee (item_total items) ≡ ok fee
      → Charges (
          open_payment gateway unique clock description user
            (item_total items +ℤ pos fee)
            new_id
            items
            s)
  unfolding open_payment register_payment register_order draft_payment with_payload
      create_installment_payment
  open_payment-Charges clock description user new_id items fee s h =
      after_lift _
        (register_order user
          (record (draft_payment new_id user (item_total items +ℤ pos fee) clock.now) {
            items = items;
          }))
        _ (λ p s' e. (fee, h, refl))

  assemble_payment-Charges :
      (clock : Clock) (description : String) (user : ℕ) (ds : List ItemData) (s : Session)
      → Charges (assemble_payment gateway unique clock description user ds s)
  unfolding assemble_payment
  assemble_payment-Charges clock description user ds s =
      after_lift (calculate_pix_fee (data_total ds)) _ s (λ fee s' h.
        after (make_items s'.next_id ds (record s' { next_id = s'.next_id + 1 })) _ (λ items s'' e.
          let sum =
            Made-done ds _ (make_items-Made s'.next_id ds (record s' { next_id = s'.next_id + 1 }))
              e in
          subst
            (λ total. Charges (
              open_payment gateway unique clock description user (total +ℤ pos fee) s'.next_id items
                s''))
            sum
            (open_payment-Charges clock description user s'.next_id items fee s''
              (ap calculate_pix_fee sum ∙ h))))

  create_payment-Charges :
      (clock : Clock) (description : String) (user : ℕ) (ids : List ℕ) (s : Session)
      → Charges (create_payment gateway unique clock description user ids s)
  unfolding create_payment
  create_payment-Charges clock description user ids s = elim (Bool-cases (is_empty ids)) [
    | inl none_given ↦ rw none_given tt
    | inr some_given ↦ rw some_given (
        after (payable_items user (unique ids) s) _
          (λ ds s' e. assemble_payment-Charges clock description user ds s'))
  ]

  -- A payment that was created, whatever the gateway answers and in whatever order the
  -- subscriptions are taken, asks for exactly the sum of its items and the Pix fee on that sum.
  pub create_payment_charges :
      (clock : Clock) (description : String) (user : ℕ) (ids : List ℕ) (db : Store) (next_id : ℕ)
      {t : Transaction}
      → (run_request (create_payment gateway unique clock description user ids) db next_id).0 ≡ ok t
      → (fee : ℕ) × (calculate_pix_fee (item_total t.items) ≡ ok fee)
        × (t.amount_cents ≡ item_total t.items +ℤ pos fee)
  unfolding run_request
  create_payment_charges clock description user ids db next_id h =
      closed_Charges
        (create_payment gateway unique clock description user ids (open_session db next_id))
        (create_payment-Charges clock description user ids (open_session db next_id)) h
