-- ===== src/Webhooks/MercadoPago/Totals.antt =====
-- The amounts that `mercadopago_webhook` of app/api/v1/endpoints/admin.py compares: the order's and
-- the transaction's.
use blanco_financas_api.Prelude.{
  suc, ◌==◌, ◌&&◌, ◌||◌, Bool, true, false, not, Option, none, some, ℤ, pos, negsuc,
}
use blanco_financas_api.Errors.{Result, ok, err, value_error}
use blanco_financas_api.Decimal.{Decimal, decimal, div_hundred, quantize}

-- The number that `total_amount` denotes: its sign and its magnitude. An infinite one is refused by
-- `quantize`.
pub data OrderTotal : Type 0 where
  unreadable infinite not_a_number : OrderTotal
  total : Bool → Decimal → OrderTotal

-- An amount of cents, in whole cents again after `quantize`; `none` for what is no number.
abbrev signed_total : Bool → Result Decimal → Result (Option (Bool × Decimal))
signed_total negative (ok d) = ok (some (negative, d))
signed_total negative (err e) = err e

unfoldable pub order_amount : OrderTotal → Result (Option (Bool × Decimal))
order_amount unreadable = err value_error
order_amount infinite = err value_error
order_amount not_a_number = ok none
order_amount (total negative d) = signed_total negative (quantize 2 d)

unfoldable pub transaction_amount : ℤ → Result (Option (Bool × Decimal))
transaction_amount (pos cents) = signed_total false (quantize 2 (div_hundred (decimal cents 0)))
transaction_amount (negsuc n) = signed_total true (quantize 2 (div_hundred (decimal (suc n) 0)))

abbrev same_sign : Bool → Bool → Bool
same_sign true b = b
same_sign false b = not b

-- `order_amount == tx_amount`, two numbers of whole cents
abbrev pub same_amount : Option (Bool × Decimal) → Option (Bool × Decimal) → Bool
same_amount (some (s, d)) (some (s', d')) = d.coef == d'.coef && (same_sign s s' || d.coef == 0)
same_amount _ _ = false

abbrev pub both : Result (Option (Bool × Decimal)) → Result (Option (Bool × Decimal)) → Result Bool
both (ok a) (ok b) = ok (same_amount a b)
both (ok a) (err e) = err e
both (err e) b = err e
