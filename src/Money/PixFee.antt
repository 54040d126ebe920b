-- ===== src/Money/PixFee.antt =====
-- `calculate_pix_fee` of app/domain/constants.py: 0.99 % of the amount, half up.
use blanco_financas_api.Prelude.{
  ℕ, suc, zero, ◌+◌, ◌*◌, ◌^◌, ◌≤◌, ◌<◌, ◌≡◌, refl, arith, pos, ◌==◌, false,
}
use blanco_financas_api.Errors.{ok}
use blanco_financas_api.Decimal.{decimal, mul, quantize, round_half_up, to_int}
use blanco_financas_api.Decimal.Exact.{
  mul_exact, quantize_down, round_half_up-le, round_half_up_nearest,
}
use blanco_financas_api.Money.{calculate_pix_fee}

fee_step :
    (base : ℕ)
    → base < 10 ^ 20
    → quantize 0 (mul (decimal base 0) (decimal 99 4))
      ≡ ok (decimal (round_half_up (base * 99) 4) 0)
fee_step base h =
    let le : round_half_up (base * 99) 4 ≤ base * 99 = round_half_up-le (base * 99) 4 in
    rw (mul_exact (decimal base 0) (decimal 99 4) (omega arith))
      (quantize_down 0 4 (base * 99) (omega arith) (omega arith))

to_int_whole : (c : ℕ) → to_int (decimal c 0) ≡ c
unfolding to_int
to_int_whole c = omega arith

-- The fee is the rounded product.
pub calculate_pix_fee_lem :
    (base : ℕ) → base < 10 ^ 20 → calculate_pix_fee (pos base) ≡ ok (round_half_up (base * 99) 4)
unfolding calculate_pix_fee
calculate_pix_fee_lem zero h = unfold round_half_up in refl
calculate_pix_fee_lem (suc n) h =
    let nonzero : (suc n == 0) ≡ false = ground arith in
    rw (nonzero, fee_step (suc n) h, to_int_whole (round_half_up (suc n * 99) 4))

-- The fee of a payment below 10 ^ 20 cents is computed, and it is the whole number of cents nearest
-- to 0.99 % of the amount, a tie going up.
pub calculate_pix_fee_nearest :
    (base : ℕ)
    → base < 10 ^ 20
    → (fee : ℕ) × (calculate_pix_fee (pos base) ≡ ok fee)
      × (10000 * fee ≤ 99 * base + 5000)
      × (99 * base < 10000 * fee + 5000)
calculate_pix_fee_nearest base h =
    let near = round_half_up_nearest (base * 99) 4 in
    (round_half_up (base * 99) 4, calculate_pix_fee_lem base h, omega arith, omega arith)
