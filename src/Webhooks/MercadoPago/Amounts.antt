-- ===== src/Webhooks/MercadoPago/Amounts.antt =====
-- The amount that an order is created for, and the check of the amount that it was paid with.
use blanco_financas_api.Prelude.{ℕ, ◌<◌, ◌≡◌, arith, ◌==◌, false, pos}
use blanco_financas_api.Errors.{ok}
use blanco_financas_api.Decimal.{Decimal, decimal, coef_limit, div_hundred, quantize}
use blanco_financas_api.Decimal.Exact.{div_hundred_exact, quantize_same}
use blanco_financas_api.PixGateway.{amount_asked}
use blanco_financas_api.Webhooks.MercadoPago.Totals.{order_amount, transaction_amount, total, both}

cents_of : (c : ℕ) → c < coef_limit → quantize 2 (div_hundred (decimal c 0)) ≡ ok (decimal c 2)
cents_of c h = rw (div_hundred_exact (decimal c 0) h) (quantize_same 2 c h)

-- For amounts of at most 28 digits: an order is created for some number, and an order that was paid
-- with this number passes the check against a transaction just where the amounts in cents are equal.
pub amount_asked-check :
    (asked cents : ℕ)
    → asked < coef_limit
    → cents < coef_limit
    → (d : Decimal) × (amount_asked asked ≡ ok d)
      × (both (order_amount (total false d)) (transaction_amount (pos cents)) ≡ ok (asked == cents))
unfolding amount_asked order_amount transaction_amount
amount_asked-check asked cents h k = (
  decimal asked 2,
  cents_of asked h,
  rw (quantize_same 2 asked h, cents_of cents k) (ground arith),
)
