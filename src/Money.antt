-- ===== src/Money.antt =====
-- app/domain/value_objects/money.py, and `calculate_pix_fee` of app/domain/constants.py. A `Money`
-- holds a non-negative number of cents: `from_cents` and the decimal constructor refuse a negative
-- amount, and no code in app/ calls the raw constructor on a number that may be negative.
pub mod Percentage
pub mod PixFee
use blanco_financas_api.Prelude.{
  ℕ, ◌+◌, ◌-◌, ◌*◌, Bool, true, false, ltb, leb, ◌==◌, if◌then◌else◌, ℤ, pos, negsuc, ltb_ℤ, ◌+ℤ◌,
  ◌-ℤ◌,
}
use blanco_financas_api.Errors.{Result, ok, err, ◌>>=◌, Error, invalid_money, invalid_operation}
use blanco_financas_api.Decimal.{Decimal, decimal, mul, div_hundred, quantize, to_int, fix}

pub record Money : Type 0 where
  pub cents : ℕ

abbrev pub money : ℕ → Money
money c = record { cents = c }

-- `Money.from_cents`
unfoldable pub from_cents : ℤ → Result Money
from_cents (pos c) = ok (money c)
from_cents (negsuc n) = err invalid_money

-- `except Exception` around the conversion
abbrev as_invalid_money : Result Decimal → Result Decimal
as_invalid_money (ok d) = ok d
as_invalid_money (err e) = err invalid_money

-- `Money(amount)` for a decimal, or for the string that a decimal prints as.
unfoldable pub of_decimal : Decimal → Result Money
of_decimal d = do
  rounded ← as_invalid_money (quantize 2 d)
  ok (money (to_int (mul rounded (decimal 100 0))))

unfoldable pub zero_money : Money
zero_money = money 0

-- `Money.amount`
unfoldable pub amount : Money → Decimal
amount m = div_hundred (decimal m.cents 0)

unfoldable pub add_money : Money → Money → Result Money
unfolding from_cents ◌+ℤ◌
add_money a b = from_cents (pos a.cents +ℤ pos b.cents)

unfoldable pub subtract : Money → Money → Result Money
unfolding from_cents ◌-ℤ◌
subtract a b =
    let result = pos a.cents -ℤ pos b.cents in
    if ltb_ℤ result (pos 0) then err invalid_money else from_cents result

unfoldable pub multiply : Money → Decimal → Result Money
unfolding amount of_decimal
multiply m factor = do rounded ← quantize 2 (mul (amount m) factor); of_decimal rounded

unfoldable pub percentage : Money → Decimal → Result Money
unfolding multiply
percentage m percent = multiply m (div_hundred percent)

unfoldable pub is_zero : Money → Bool
is_zero m = m.cents == 0

-- `PIX_TRANSACTION_FEE_PERCENT`
abbrev pub pix_transaction_fee_percent : Decimal
pix_transaction_fee_percent = decimal 99 4

-- `calculate_pix_fee`
unfoldable pub calculate_pix_fee : ℤ → Result ℕ
calculate_pix_fee (negsuc n) = ok 0
calculate_pix_fee (pos base) =
    if base == 0
    then ok 0
    else do fee ← quantize 0 (mul (decimal base 0) pix_transaction_fee_percent); ok (to_int fee)
