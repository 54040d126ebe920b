-- ===== src/Wallets/Balance.antt =====
-- A wallet under any sequence of its operations.
use blanco_financas_api.Prelude.{
  ℕ, ◌+◌, ◌≡◌, refl, arith, List, [], ◌∷◌, pos, ◌≤ℤ◌, ◌+ℤ◌, ◌-ℤ◌, int_laws, parts_of_eq, +ℤ_parts,
  sum_by, if◌then◌else◌,
}
use blanco_financas_api.Errors.{ok, err}
use blanco_financas_api.Money.{Money}
use blanco_financas_api.Wallets.{
  Wallet, new_wallet, credit_investment, credit_yield, debit, add_fundo_garantidor, can_withdraw,
}

-- One operation on a wallet.
pub data Movement : Type 0 where
  invest : Money → Movement
  earn : Money → Movement
  withdraw : Money → Movement
  retain : Money → Movement

-- An operation that raises leaves the wallet as it was.
pub move : Movement → ℕ → Wallet → Wallet
move (invest m) now w = credit_investment m now w
move (earn m) now w = credit_yield m now w
move (withdraw m) now w = elim (debit m now w) [ ok w' ↦ w' | err _ ↦ w ]
move (retain m) now w = add_fundo_garantidor m now w

pub move_all : List Movement → ℕ → Wallet → Wallet
move_all [] now w = w
move_all (v ∷ vs) now w = move_all vs now (move v now w)

pub record IsSolvent (w : Wallet) : Type 0 where
  pub balance : pos 0 ≤ℤ w.balance_cents
  pub invested : pos 0 ≤ℤ w.total_invested_cents
  pub earned : pos 0 ≤ℤ w.total_yield_cents
  pub retained : pos 0 ≤ℤ w.fundo_garantidor_cents
  pub covered : w.balance_cents ≤ℤ w.total_invested_cents +ℤ w.total_yield_cents

pub move-IsSolvent : (v : Movement) (now : ℕ) (w : Wallet) → IsSolvent w → IsSolvent (move v now w)
unfolding move credit_investment credit_yield debit add_fundo_garantidor ◌+ℤ◌ ◌-ℤ◌
move-IsSolvent v now w s = ground arith

move_all-IsSolvent :
    (vs : List Movement) (now : ℕ) (w : Wallet) → IsSolvent w → IsSolvent (move_all vs now w)
unfolding move_all
move_all-IsSolvent [] now w s = s
move_all-IsSolvent (v ∷ vs) now w s =
    move_all-IsSolvent vs now (move v now w) (move-IsSolvent v now w s)

new_wallet-IsSolvent : (new_id user_id now : ℕ) → IsSolvent (new_wallet new_id user_id now)
unfolding new_wallet
new_wallet-IsSolvent new_id user_id now = ground (arith, +ℤ_parts (pos 0) (pos 0))

-- From a new wallet, no sequence of credits, yields, withdrawals and retentions makes an amount of
-- the wallet negative, nor the balance larger than what was invested and earned.
pub new_wallet_stays_IsSolvent :
    (vs : List Movement) (new_id user_id now : ℕ)
    → IsSolvent (move_all vs now (new_wallet new_id user_id now))
new_wallet_stays_IsSolvent vs new_id user_id now =
    move_all-IsSolvent vs now (new_wallet new_id user_id now)
      (new_wallet-IsSolvent new_id user_id now)

-- What a movement adds to the balance, and what it takes, at a given wallet.
abbrev pub credited : Movement → ℕ
credited (invest m) = m.cents
credited (earn m) = m.cents
credited (withdraw m) = 0
credited (retain m) = 0

abbrev pub paid_out : Movement → Wallet → ℕ
paid_out (withdraw m) w = if can_withdraw m w then m.cents else 0
paid_out _ w = 0

abbrev pub paid_out_all : List Movement → ℕ → Wallet → ℕ
paid_out_all [] now w = 0
paid_out_all (v ∷ vs) now w = paid_out v w + paid_out_all vs now (move v now w)

balance-move :
    (v : Movement) (now : ℕ) (w : Wallet)
    → (move v now w).balance_cents +ℤ pos (paid_out v w) ≡ w.balance_cents +ℤ pos (credited v)
unfolding move credit_investment credit_yield debit add_fundo_garantidor can_withdraw ◌+ℤ◌ ◌-ℤ◌
balance-move v now w = ground arith

-- Money is neither made nor lost: over any sequence of movements, the balance at the end and what
-- was paid out are the balance at the start and what was credited.
pub balance-move_all :
    (vs : List Movement) (now : ℕ) (w : Wallet)
    → (move_all vs now w).balance_cents +ℤ pos (paid_out_all vs now w)
      ≡ w.balance_cents +ℤ pos (sum_by credited vs)
unfolding move_all
balance-move_all [] now w = refl
balance-move_all (v ∷ vs) now w = omega (
  int_laws,
  parts_of_eq (balance-move v now w),
  parts_of_eq (balance-move_all vs now (move v now w)),
)
