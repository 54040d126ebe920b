-- ===== src/InstallmentPayments/Holding.antt =====
-- What a wallet holds for its user, and how the shares of an item change it.
use blanco_financas_api.Prelude.{
  ℕ, ◌+◌, ◌≡◌, refl, arith, true, inl, inr, Option, some, ◌==◌, find_by-test, ℤ, pos, ◌+ℤ◌,
  int_laws,
}
use blanco_financas_api.Errors.{ok, Result-cases}
use blanco_financas_api.Money.{Money, from_cents, subtract, percentage}
use blanco_financas_api.Installments.{
  InstallmentCalculator, SubsequentInstallmentBreakdown, calculate_subsequent_installment,
}
use blanco_financas_api.Subscriptions.{Subscription}
use blanco_financas_api.Wallets.{Wallet, credit_investment, add_fundo_garantidor}
use blanco_financas_api.Store.{Store, find_wallet_of, put_wallet}
use blanco_financas_api.Store.Tables.{Distinct, find_by-merge, merge-Distinct}
use blanco_financas_api.InstallmentPayments.{Shares, shares_of}

-- What a wallet holds for its user: the balance and the guarantee fund.
abbrev pub held : Wallet → ℤ
held w = w.balance_cents +ℤ w.fundo_garantidor_cents

-- The user's wallet holds the given total.
pub record Holds (user : ℕ) (total : ℤ) (db : Store) : Type 0 where
  pub wallet : Wallet
  pub found : find_wallet_of user db ≡ some wallet
  pub holds : held wallet ≡ total
  pub distinct : Distinct (λ (w : Wallet). w.id) db.wallets

subtract_sum : (a b : Money) {c : Money} → subtract a b ≡ ok c → c.cents + b.cents ≡ a.cents
unfolding subtract
subtract_sum a b {c} h = ground arith

pub subsequent_sum :
    (calc : InstallmentCalculator) (amount : Money) {b : SubsequentInstallmentBreakdown}
    → calculate_subsequent_installment calc amount ≡ ok b
    → b.investment_amount.cents + b.fundo_garantidor_amount.cents ≡ amount.cents
unfolding calculate_subsequent_installment
subsequent_sum calc amount {b} h =
    elim (Result-cases (percentage amount calc.fundo_calculator.fundo_percentage)) [
      | inl (fundo, split) ↦ elim (Result-cases (subtract amount fundo)) [
        | inl (rest, taken) ↦ let sum = subtract_sum amount fundo taken in ground arith
        | inr (e, refused) ↦ ground arith
      ]
      | inr (e, refused) ↦ ground arith
    ]

-- An item that pays no fees: its shares add up to its amount.
pub shares_of_sum :
    (number : Option ℕ) (sub : Subscription) (calc : InstallmentCalculator) (amount : Money)
    {shares : Shares}
    → sub.covers_activation_fees ≡ true
    → shares_of number sub calc amount ≡ ok shares
    → shares.investment_amount.cents + shares.fundo_garantidor_amount.cents ≡ amount.cents
unfolding shares_of
shares_of_sum number sub calc amount {shares} covers h =
    elim (Result-cases (calculate_subsequent_installment calc amount)) [
      | inl (b, split) ↦ let sum = subsequent_sum calc amount split in ground arith
      | inr (e, refused) ↦ ground arith
    ]

pub from_cents-eq-ok : (z : ℤ) {m : Money} → from_cents z ≡ ok m → z ≡ pos m.cents
unfolding from_cents
from_cents-eq-ok z {m} h = ground arith

-- The wallet after both credits.
abbrev pub credited : Shares → ℕ → Wallet → Wallet
credited shares now w =
    add_fundo_garantidor shares.fundo_garantidor_amount now
      (credit_investment shares.investment_amount now w)

pub held-credited :
    (shares : Shares) (now : ℕ) (w : Wallet) (amount : Money)
    → shares.investment_amount.cents + shares.fundo_garantidor_amount.cents ≡ amount.cents
    → held (credited shares now w) ≡ held w +ℤ pos amount.cents
unfolding add_fundo_garantidor credit_investment
held-credited shares now w amount h = omega int_laws

pub credited_same :
    (shares : Shares) (now : ℕ) (w : Wallet)
    → ((credited shares now w).id ≡ w.id) × ((credited shares now w).user_id ≡ w.user_id)
unfolding add_fundo_garantidor credit_investment
credited_same shares now w = (refl, refl)

pub put_wallet-Holds :
    (user : ℕ) (total : ℤ) (db : Store) (w w' : Wallet)
    → find_wallet_of user db ≡ some w
    → Distinct (λ (x : Wallet). x.id) db.wallets
    → w'.id ≡ w.id
    → w'.user_id ≡ w.user_id
    → held w' ≡ total
    → Holds user total (put_wallet w' db)
unfolding find_wallet_of put_wallet
put_wallet-Holds user total db w w' f d i u h =
    let owner : (w.user_id == user) ≡ true =
      find_by-test (λ (x : Wallet). x.user_id == user) db.wallets f in
    record {
      wallet = w';
      found =
          find_by-merge (λ (x : Wallet). x.id) (λ (x : Wallet). x.user_id == user) w' db.wallets d f
            i (rw u owner);
      holds = h;
      distinct = merge-Distinct (λ (x : Wallet). x.id) w' db.wallets d;
    }
