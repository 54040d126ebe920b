-- ===== src/DepositService/Credit.antt =====
-- What the confirmation of a deposit puts into the wallet.
use blanco_financas_api.Prelude.{
  ℕ, ◌+◌, ◌≡◌, ap, ◌∙◌, arith, true, Option-cases, inl, inr, Option, String, some, none, ℤ, ◌+ℤ◌,
}
use blanco_financas_api.Errors.{ok, Result-cases, ok_injective}
use blanco_financas_api.Money.{Money, from_cents}
use blanco_financas_api.Contracts.{Contract}
use blanco_financas_api.Installments.{
  InstallmentCalculator, new_calculator, calculate_subsequent_installment,
}
use blanco_financas_api.Wallets.{Wallet}
use blanco_financas_api.Transactions.{
  Transaction, subsequent, confirm, is_pending_status, is_confirmed_status,
}
use blanco_financas_api.Store.{
  Store, find_transaction, find_live_plan, find_wallet_of, put_audit, put_transaction, put_wallet,
  deposit_confirmed,
}
use blanco_financas_api.Store.Tables.{Distinct}
use blanco_financas_api.Session.{Clock, run_request}
use blanco_financas_api.InstallmentPayments.{Shares}
use blanco_financas_api.InstallmentPayments.Holding.{
  Holds, held, held-credited, put_wallet-Holds, credited_same, from_cents-eq-ok, subsequent_sum,
}
use blanco_financas_api.DepositService.{
  confirm_deposit, deposit_shares, find_contract_if, with_deposit, fund_transaction,
}

subsequent_shares_sum :
    (calculator : InstallmentCalculator) (amount : Money) {shares : Shares}
    → deposit_shares (some subsequent) calculator amount ≡ ok shares
    → shares.investment_amount.cents + shares.fundo_garantidor_amount.cents ≡ amount.cents
unfolding deposit_shares
subsequent_shares_sum calculator amount {shares} h =
    elim (Result-cases (calculate_subsequent_installment calculator amount)) [
      | inl (b, e) ↦ let sum = subsequent_sum calculator amount e in ground arith
      | inr (x, e) ↦ ground arith
    ]

confirm_fields :
    (pix : Option String) (now : ℕ) (t : Transaction) {c : Transaction}
    → confirm pix now t ≡ ok c
    → (is_pending_status t.status ≡ true) × (is_confirmed_status c.status ≡ true)
unfolding confirm
confirm_fields pix now t {c} h = (ground arith, ground arith)

-- The store after a confirmation.
abbrev deposited :
    Clock → String → ℕ → Contract → Shares → Wallet → Transaction → Transaction → Store → Store
deposited clock text n contract shares w t c db =
    put_audit (record { action = deposit_confirmed; actor_id = t.user_id; target_id = some c.id })
      (put_transaction c (
        put_transaction (fund_transaction n contract.id t shares text clock.now)
          (put_wallet (with_deposit shares clock.now w) db)))

-- The values that a confirmation that went through computed.
record Confirmed (clock : Clock) (text : String) (id : ℕ) (pix : String) (db : Store) (n : ℕ)
    (t : Transaction) (w : Wallet) (c : Transaction) : Type 0 where
  pub contract : Contract
  pub calculator : InstallmentCalculator
  pub amount : Money
  pub shares : Shares
  pub amount_is : from_cents t.amount_cents ≡ ok amount
  pub shares_are : deposit_shares t.installment_type calculator amount ≡ ok shares
  pub confirms : confirm (some pix) clock.now t ≡ ok c
  pub after :
      (run_request (confirm_deposit clock text id pix) db n).1
      ≡ deposited clock text n contract shares w t c db

confirm_deposit-Confirmed :
    (clock : Clock) (text : String) (id : ℕ) (pix : String) (db : Store) (n : ℕ) {t : Transaction}
    {w : Wallet} {c : Transaction}
    → find_transaction id db ≡ some t
    → find_wallet_of t.user_id db ≡ some w
    → (run_request (confirm_deposit clock text id pix) db n).0 ≡ ok c
    → Confirmed clock text id pix db n t w c
unfolding run_request confirm_deposit
confirm_deposit-Confirmed clock text id pix db n {t} {w} {c} f p h =
    elim (Option-cases (find_contract_if t.contract_id db)) [
      | inl a ↦ absurd (let k = rw (f, a) at h in cc)
      | inr (contract, a) ↦ elim (Option-cases (find_live_plan contract.plan_id db)) [
        | inl b ↦ absurd (let k = rw (f, a, b) at h in cc)
        | inr (plan, b) ↦
            elim (Result-cases (new_calculator plan.guarantee_fund_percent_1 none none)) [
              | inr (x, d) ↦ absurd (let k = rw (f, a, b, d) at h in cc)
              | inl (calculator, d) ↦ elim (Result-cases (from_cents t.amount_cents)) [
                | inr (x, e) ↦ absurd (let k = rw (f, a, b, d, e) at h in cc)
                | inl (amount, e) ↦
                    elim (Result-cases (deposit_shares t.installment_type calculator amount)) [
                      | inr (x, g) ↦ absurd (let k = rw (f, a, b, d, e, g) at h in cc)
                      | inl (shares, g) ↦ elim (Result-cases (confirm (some pix) clock.now t)) [
                        | inr (x, q) ↦ absurd (let k = rw (f, a, b, d, e, g, p, q) at h in cc)
                        | inl (c', q) ↦
                            let k : ok c' ≡ ok c = rw (f, a, b, d, e, g, p, q) at h in
                            let same = ok_injective k in
                            record {
                              contract = contract;
                              calculator = calculator;
                              amount = amount;
                              shares = shares;
                              amount_is = e;
                              shares_are = g;
                              confirms = q ∙ k;
                              after =
                                  rw (f, a, b, d, e, g, p, q)
                                    (ap (λ x. deposited clock text n contract shares w t x db)
                                      same);
                            }
                      ]
                    ]
              ]
            ]
      ]
    ]

deposited-Holds :
    (clock : Clock) (text : String) (n : ℕ) (contract : Contract) (shares : Shares) (w : Wallet)
    (t c : Transaction) (total : ℤ) (db : Store)
    → Holds t.user_id total (put_wallet (with_deposit shares clock.now w) db)
    → Holds t.user_id total (deposited clock text n contract shares w t c db)
unfolding put_audit put_transaction find_wallet_of
deposited-Holds clock text n contract shares w t c total db h = record {
  wallet = h.wallet;
  found = h.found;
  holds = h.holds;
  distinct = h.distinct;
}

-- The confirmation of a subsequent deposit that goes through was of a pending transaction, answers
-- a confirmed one, and leaves the client's wallet with exactly the deposit's amount more, balance
-- and guarantee fund together.
pub confirm_deposit_conserves :
    (clock : Clock) (text : String) (id : ℕ) (pix : String) (db : Store) (n : ℕ) {t : Transaction}
    {w : Wallet} {c : Transaction}
    → find_transaction id db ≡ some t
    → t.installment_type ≡ some subsequent
    → find_wallet_of t.user_id db ≡ some w
    → Distinct (λ (x : Wallet). x.id) db.wallets
    → (run_request (confirm_deposit clock text id pix) db n).0 ≡ ok c
    → (is_pending_status t.status ≡ true)
      × (is_confirmed_status c.status ≡ true)
      × Holds t.user_id
          (held w +ℤ t.amount_cents)
          (run_request (confirm_deposit clock text id pix) db n).1
confirm_deposit_conserves clock text id pix db n {t} {w} {c} f s p d h =
    let r = confirm_deposit-Confirmed clock text id pix db n f p h in
    let (was, is) = confirm_fields (some pix) clock.now t r.confirms in
    let sum = subsequent_shares_sum r.calculator r.amount (rw s at r.shares_are) in
    let grown = held-credited r.shares clock.now w r.amount sum in
    let total : held (with_deposit r.shares clock.now w) ≡ held w +ℤ t.amount_cents =
      rw (from_cents-eq-ok t.amount_cents r.amount_is) grown in
    let (same_id, same_user) = credited_same r.shares clock.now w in
    let holds =
      put_wallet-Holds t.user_id (held w +ℤ t.amount_cents) db w (with_deposit r.shares clock.now w)
        p d same_id same_user total in
    (
      was,
      is,
      rw r.after (
          deposited-Holds clock text n r.contract r.shares w t c (held w +ℤ t.amount_cents) db
            holds),
    )
