-- ===== src/Wallets.antt =====
-- app/domain/entities/wallet.py. Balances are Python integers, so a negative one could be
-- represented.
pub mod Balance
use blanco_financas_api.Prelude.{ℕ, if◌then◌else◌, Bool, ◌&&◌, ℤ, pos, ltb_ℤ, leb_ℤ, ◌+ℤ◌, ◌-ℤ◌}
use blanco_financas_api.Errors.{
  Result, ok, err, ◌>>=◌, ◌>>◌, raise_if, insufficient_balance, invalid_money,
}
use blanco_financas_api.Money.{Money}

pub record Wallet : Type 0 where
  pub id : ℕ
  pub user_id : ℕ
  pub balance_cents : ℤ
  pub total_invested_cents : ℤ
  pub total_yield_cents : ℤ
  pub fundo_garantidor_cents : ℤ
  pub created_at : ℕ
  pub updated_at : ℕ

-- `Wallet.create`
unfoldable pub new_wallet : ℕ → ℕ → ℕ → Wallet
new_wallet new_id user_id now = record {
  id = new_id;
  user_id = user_id;
  balance_cents = pos 0;
  total_invested_cents = pos 0;
  total_yield_cents = pos 0;
  fundo_garantidor_cents = pos 0;
  created_at = now;
  updated_at = now;
}

unfoldable pub credit : Money → ℕ → Wallet → Wallet
credit amount now w = record w {
  balance_cents = w.balance_cents +ℤ pos amount.cents;
  updated_at = now;
}

unfoldable pub credit_investment : Money → ℕ → Wallet → Wallet
unfolding credit
credit_investment amount now w =
    let w' = credit amount now w in
    record w' { total_invested_cents = w'.total_invested_cents +ℤ pos amount.cents }

unfoldable pub credit_yield : Money → ℕ → Wallet → Wallet
unfolding credit
credit_yield amount now w =
    let w' = credit amount now w in
    record w' { total_yield_cents = w'.total_yield_cents +ℤ pos amount.cents }

-- The message of the refusal reads the balance as `Money`, which refuses a negative one.
unfoldable pub debit : Money → ℕ → Wallet → Result Wallet
debit amount now w = do
  raise_if (ltb_ℤ w.balance_cents (pos amount.cents) && ltb_ℤ w.balance_cents (pos 0)) invalid_money
  raise_if (ltb_ℤ w.balance_cents (pos amount.cents)) insufficient_balance
  ok (record w { balance_cents = w.balance_cents -ℤ pos amount.cents; updated_at = now })

unfoldable pub add_fundo_garantidor : Money → ℕ → Wallet → Wallet
add_fundo_garantidor amount now w = record w {
  fundo_garantidor_cents = w.fundo_garantidor_cents +ℤ pos amount.cents;
  updated_at = now;
}

unfoldable pub can_withdraw : Money → Wallet → Bool
can_withdraw amount w = leb_ℤ (pos amount.cents) w.balance_cents
