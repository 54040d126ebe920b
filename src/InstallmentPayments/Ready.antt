-- ===== src/InstallmentPayments/Ready.antt =====
-- The loop of `confirm_payment`: the wallet, the subscriptions and their activation fees.
use blanco_financas_api.Prelude.{
  ℕ, ◌+◌, ◌≡◌, refl, sym, ◌∙◌, arith, true, Bool-cases, Option-cases, inl, inr, Option, none, some,
  is_some, List, [], ◌∷◌, ◌==◌, ℤ, pos, ◌+ℤ◌, All,
}
use mathlib.Core.Path.{ap₂}
use blanco_financas_api.Errors.{ok, Result-cases}
use blanco_financas_api.Money.{Money, from_cents}
use blanco_financas_api.Installments.{new_calculator}
use blanco_financas_api.Subscriptions.{Subscription, record_deposit_paid}
use blanco_financas_api.Wallets.{Wallet}
use blanco_financas_api.Transactions.{TransactionItem}
use blanco_financas_api.Store.{
  Store, find_subscription, put_subscription, find_wallet_of, put_wallet, put_deposit,
}
use blanco_financas_api.Store.Tables.{by_key-merge, some_injective}
use blanco_financas_api.Session.{Session, Clock, Outcome, done, raised}
use blanco_financas_api.InstallmentPayments.{
  Shares, shares_of, deposit_principal, credit_item, pay_item, confirm_item,
}
use blanco_financas_api.InstallmentPayments.Holding.{
  Holds, shares_of_sum, from_cents-eq-ok, held-credited, credited, credited_same, put_wallet-Holds,
}

-- Where an action ends well, the wallet holds the total.
abbrev pub Ends : (Store → Type 0) → Outcome (Unit {0}) → Type 0
Ends P (done a s') = P s'.current
Ends P (raised e s') = Unit

-- The part of the store that the sums are about.
pub Holds-same :
    (user : ℕ) (total : ℤ) (db db' : Store)
    → db'.wallets ≡ db.wallets
    → Holds user total db
    → Holds user total db'
unfolding find_wallet_of
Holds-same user total db db' e h = record {
  wallet = h.wallet;
  found = rw e h.found;
  holds = h.holds;
  distinct = rw e h.distinct;
}

deposit_principal-wallets :
    (clock : Clock) (user : ℕ) (item : TransactionItem) (m : Money) (s : Session)
    → Ends
        (λ db. (db.wallets ≡ s.current.wallets) × (db.subscriptions ≡ s.current.subscriptions))
        (deposit_principal clock user item m s)
unfolding deposit_principal put_deposit
deposit_principal-wallets clock user item m s = ground arith

-- Every stored subscription has paid its activation fees, as `create` notes of each.
abbrev pub Covers : Store → Type 0
Covers db =
    (wanted : ℕ) (sub : Subscription)
    → find_subscription wanted db ≡ some sub
    → sub.covers_activation_fees ≡ true

-- The subscriptions of the items are there, as the foreign key demands.
abbrev pub Known : List TransactionItem → Store → Type 0
Known items db = All (λ i. is_some (find_subscription i.subscription_id db) ≡ true) items

pub record Ready (user : ℕ) (total : ℤ) (items : List TransactionItem) (db : Store) : Type 0 where
  pub holding : Holds user total db
  pub covers : Covers db
  pub known : Known items db

Ready-same :
    (user : ℕ) (total : ℤ) (items : List TransactionItem) (db db' : Store)
    → db'.wallets ≡ db.wallets
    → db'.subscriptions ≡ db.subscriptions
    → Ready user total items db
    → Ready user total items db'
unfolding find_subscription
Ready-same user total items db db' w u r = record {
  holding = Holds-same user total db db' w r.holding;
  covers = λ wanted sub h. r.covers wanted sub (rw u at h);
  known = rw u r.known;
}

after_deposit :
    (user : ℕ) (total : ℤ) (items : List TransactionItem) (db : Store) (o : Outcome (Unit {0}))
    → Ends (λ db'. (db'.wallets ≡ db.wallets) × (db'.subscriptions ≡ db.subscriptions)) o
    → Ready user total items db
    → Ends (Ready user total items) o
after_deposit user total items db (done a s') e r =
    Ready-same user total items db s'.current e.0 e.1 r
after_deposit user total items db (raised e s') h r = tt

credited-Ready :
    (user : ℕ) (total paid : ℤ) (items : List TransactionItem) (shares : Shares) (now : ℕ)
    (amount : Money) (db : Store)
    → (r : Ready user total items db) → paid ≡ pos amount.cents
    → shares.investment_amount.cents + shares.fundo_garantidor_amount.cents ≡ amount.cents
    → Ready user (total +ℤ paid) items (put_wallet (credited shares now r.holding.wallet) db)
unfolding put_wallet find_subscription
credited-Ready user total paid items shares now amount db r p sum =
    let w : Wallet = r.holding.wallet in
    let (same_id, same_user) = credited_same shares now w in
    record {
      holding =
          put_wallet-Holds user (total +ℤ paid) db w (credited shares now w) r.holding.found
            r.holding.distinct same_id same_user
            (held-credited shares now w amount sum ∙ ap₂ ◌+ℤ◌ r.holding.holds (sym p));
      covers = r.covers;
      known = r.known;
    }

credit_item-Ready :
    (clock : Clock) (user : ℕ) (total : ℤ) (items : List TransactionItem) (sub : Subscription)
    (item : TransactionItem) (s : Session)
    → (r : Ready user total items s.current) → sub.covers_activation_fees ≡ true
    → Ends
        (Ready user (total +ℤ item.amount_cents) items)
        (credit_item clock user r.holding.wallet sub item s)
unfolding credit_item
credit_item-Ready clock user total items sub item s r covers =
    elim (Result-cases (from_cents item.amount_cents)) [
      | inr (e, refused) ↦ rw refused tt
      | inl (amount, is_amount) ↦
          elim (Result-cases (new_calculator sub.guarantee_fund_percent none none)) [
            | inr (e, refused) ↦ rw (is_amount, refused) tt
            | inl (calc, is_calc) ↦
                elim (Result-cases (shares_of item.installment_number sub calc amount)) [
                  | inr (e, refused) ↦ rw (is_amount, is_calc, refused) tt
                  | inl (shares, is_shares) ↦
                      let w : Wallet = credited shares clock.now r.holding.wallet in
                      let s' : Session = record s { current = put_wallet w s.current } in
                      rw (is_amount, is_calc, is_shares)
                        (after_deposit user (total +ℤ item.amount_cents) items s'.current
                          (deposit_principal clock user item shares.investment_amount s')
                          (deposit_principal-wallets clock user item shares.investment_amount s')
                          (credited-Ready user total item.amount_cents items shares clock.now amount
                            s.current r (from_cents-eq-ok item.amount_cents is_amount)
                            (shares_of_sum item.installment_number sub calc amount covers
                              is_shares)))
                ]
          ]
    ]

record_deposit_paid-keeps :
    (now : ℕ) (sub : Subscription) {paid : Subscription}
    → record_deposit_paid now sub ≡ ok paid
    → (paid.id ≡ sub.id) × (paid.covers_activation_fees ≡ sub.covers_activation_fees)
unfolding record_deposit_paid
record_deposit_paid-keeps now sub {paid} h = ground arith

put_subscription-Covers :
    (paid : Subscription) (db : Store)
    → paid.covers_activation_fees ≡ true
    → Covers db
    → Covers (put_subscription paid db)
unfolding find_subscription put_subscription
put_subscription-Covers paid db c h wanted sub f =
    let found = sym (by_key-merge (λ (x : Subscription). x.id) wanted paid db.subscriptions) ∙ f in
    elim (Bool-cases (paid.id == wanted)) [
      | inl same ↦ let e : paid ≡ sub = some_injective (rw same at found) in rw (← e) c
      | inr other ↦ h wanted sub (rw other at found)
    ]

is_some-put_subscription :
    (wanted : ℕ) (paid : Subscription) (db : Store)
    → is_some (find_subscription wanted db) ≡ true
    → is_some (find_subscription wanted (put_subscription paid db)) ≡ true
unfolding find_subscription put_subscription
is_some-put_subscription wanted paid db h =
    rw (by_key-merge (λ (x : Subscription). x.id) wanted paid db.subscriptions)
      (elim (Bool-cases (paid.id == wanted)) [ inl same ↦ rw same refl | inr other ↦ rw other h ])

put_subscription-Known :
    (items : List TransactionItem) (paid : Subscription) (db : Store)
    → Known items db
    → Known items (put_subscription paid db)
put_subscription-Known [] paid db k = tt
put_subscription-Known (item ∷ items) paid db k = (
  is_some-put_subscription item.subscription_id paid db k.0,
  put_subscription-Known items paid db k.1,
)

paid-Ready :
    (user : ℕ) (total : ℤ) (items : List TransactionItem) (paid : Subscription) (db : Store)
    → paid.covers_activation_fees ≡ true
    → Ready user total items db
    → Ready user total items (put_subscription paid db)
unfolding put_subscription find_wallet_of
paid-Ready user total items paid db covers r = record {
  holding = Holds-same user total db (put_subscription paid db) refl r.holding;
  covers = put_subscription-Covers paid db covers r.covers;
  known = put_subscription-Known items paid db r.known;
}

pay_item-Ready :
    (clock : Clock) (user : ℕ) (total : ℤ) (items : List TransactionItem) (sub : Subscription)
    (item : TransactionItem) (s : Session)
    → Ready user total items s.current
    → sub.covers_activation_fees ≡ true
    → Ends (Ready user (total +ℤ item.amount_cents) items) (pay_item clock user sub item s)
unfolding pay_item
pay_item-Ready clock user total items sub item s r covers =
    elim (Result-cases (record_deposit_paid clock.now sub)) [
      | inr (e, refused) ↦ rw refused tt
      | inl (paid, is_paid) ↦
          let still : paid.covers_activation_fees ≡ true =
            (record_deposit_paid-keeps clock.now sub is_paid).1 ∙ covers in
          let s' : Session = record s { current = put_subscription paid s.current } in
          let r' : Ready user total items s'.current =
            paid-Ready user total items paid s.current still r in
          rw (is_paid, r'.holding.found)
            (credit_item-Ready clock user total items paid item s' r' still)
    ]

abbrev pub item_total : List TransactionItem → ℤ
item_total [] = pos 0
item_total (item ∷ items) = item.amount_cents +ℤ item_total items

not_missing : {A : Type 0} {o : Option A} → o ≡ none → is_some o ≡ true → ⊥
not_missing e h = cc

pub confirm_item-Ready :
    (clock : Clock) (user : ℕ) (total : ℤ) (items : List TransactionItem) (item : TransactionItem)
    (s : Session)
    → Ready user total (item ∷ items) s.current
    → Ends (Ready user (total +ℤ item.amount_cents) items) (confirm_item clock user item s)
unfolding confirm_item
confirm_item-Ready clock user total items item s r =
    elim (Option-cases (find_subscription item.subscription_id s.current)) [
      | inl missing ↦ absurd (not_missing missing r.known.0)
      | inr (sub, found) ↦ rw found (
          pay_item-Ready clock user total items sub item s
            (record { holding = r.holding; covers = r.covers; known = r.known.1 })
            (r.covers item.subscription_id sub found))
    ]
