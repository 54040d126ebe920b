-- ===== src/Money/Percentage.antt =====
-- What `Money.percentage`, `add` and `subtract` return where the product fits the 28 digits of the
-- decimal context.
use blanco_financas_api.Prelude.{ℕ, ◌+◌, ◌*◌, ◌-◌, ◌≤◌, ◌<◌, ◌≡◌, ap, arith}
use blanco_financas_api.Errors.{ok, err, invalid_money}
use blanco_financas_api.Decimal.{Decimal, decimal, coef_limit, round_half_up, to_int}
use blanco_financas_api.Decimal.Exact.{
  mul_exact, div_hundred_exact, quantize_down, quantize_same, round_half_up-le,
}
use blanco_financas_api.Money.{
  Money, money, of_decimal, amount, add_money, subtract, multiply, percentage,
}

pub amount_exact : (m : Money) → m.cents < coef_limit → amount m ≡ decimal m.cents 2
unfolding amount
amount_exact m h = div_hundred_exact (decimal m.cents 0) h

-- A decimal with two places becomes its number of cents.
pub of_decimal-cents : (c : ℕ) → c * 100 < coef_limit → of_decimal (decimal c 2) ≡ ok (money c)
unfolding of_decimal to_int
of_decimal-cents c h =
    rw (quantize_same 2 c (omega arith), mul_exact (decimal c 2) (decimal 100 0) h)
      (ap (λ n. ok (money n)) (omega arith))

-- The product with a fraction of `s` decimal places, rounded half up to whole cents.
multiply_exact :
    (c f s : ℕ)
    → c < coef_limit
    → c * f * 100 < coef_limit
    → 0 < s
    → multiply (money c) (decimal f s) ≡ ok (money (round_half_up (c * f) s))
unfolding multiply
multiply_exact c f s k h p =
    let small : c * f < coef_limit = omega arith in
    let le : round_half_up (c * f) s ≤ c * f = round_half_up-le (c * f) s in
    rw
      (
        amount_exact (money c) k,
        mul_exact (decimal c 2) (decimal f s) small,
        quantize_down 2 s (c * f) p (omega arith),
      )
      (of_decimal-cents (round_half_up (c * f) s) (omega arith))

-- A percentage of an amount is its exact value rounded half up to whole cents, as long as the
-- product fits the decimal context.
pub percentage_lem :
    (m : Money) (p : Decimal)
    → m.cents < coef_limit
    → p.coef < coef_limit
    → m.cents * p.coef * 100 < coef_limit
    → percentage m p ≡ ok (money (round_half_up (m.cents * p.coef) (p.scale + 2)))
unfolding percentage
percentage_lem m p k l h =
    rw (div_hundred_exact p l) (multiply_exact m.cents p.coef (p.scale + 2) k h (omega arith))

pub add_money_lem : (a b : Money) → add_money a b ≡ ok (money (a.cents + b.cents))
unfolding add_money
add_money_lem a b = ground arith

pub subtract_lem : (a b : Money) → b.cents ≤ a.cents → subtract a b ≡ ok (money (a.cents - b.cents))
unfolding subtract
subtract_lem a b h = ground arith

pub subtract_negative : (a b : Money) → a.cents < b.cents → subtract a b ≡ err invalid_money
unfolding subtract
subtract_negative a b h = ground arith
