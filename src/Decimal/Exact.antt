-- ===== src/Decimal/Exact.antt =====
-- The decimal operations of a result that fits the precision.
use blanco_financas_api.Prelude.{
  ℕ, zero, suc, ◌+◌, ◌-◌, ◌*◌, ◌/◌, ◌%◌, ◌^◌, ◌≤◌, ◌<◌, ◌≡◌, refl, arith, leb, lt→ltb, le→leb,
  leb→le, if◌then◌else◌, false, Bool-cases, inl, inr,
}
use native.Mathlib.Nat.{add-sub_cancel_left, mul-one, pow-suc, div-add-mod', mod-lt}
use blanco_financas_api.Errors.{ok}
use blanco_financas_api.Decimal.{
  Decimal, decimal, coef_limit, excess_digits, fix_with, fix, mul, div_hundred, quantize,
  round_half_up,
}

excess_digits-zero : (fuel c : ℕ) → c < coef_limit → excess_digits fuel c ≡ 0
unfolding excess_digits
excess_digits-zero zero c h = refl
excess_digits-zero (suc fuel) c h = rw (lt→ltb c coef_limit h, excess_digits)

pub fix_exact : (d : Decimal) → d.coef < coef_limit → fix d ≡ d
unfolding fix fix_with
fix_exact d h = rw (excess_digits-zero d.coef d.coef h) refl

pub mul_exact :
    (a b : Decimal)
    → a.coef * b.coef < coef_limit
    → mul a b ≡ decimal (a.coef * b.coef) (a.scale + b.scale)
unfolding mul
mul_exact a b h = fix_exact (decimal (a.coef * b.coef) (a.scale + b.scale)) h

pub div_hundred_exact :
    (d : Decimal) → d.coef < coef_limit → div_hundred d ≡ decimal d.coef (d.scale + 2)
unfolding div_hundred
div_hundred_exact d h = fix_exact (decimal d.coef (d.scale + 2)) h

leb_add : (e k : ℕ) → 0 < k → leb (e + k) e ≡ false
leb_add e k p = ground arith

sub_self : (e : ℕ) → 10 ^ (e - e) ≡ 1
sub_self e = let z : e - e ≡ 0 = omega arith in rw z

pub ten-pow-pos : (k : ℕ) → 0 < 10 ^ k
ten-pow-pos zero = omega arith
ten-pow-pos (suc k) = rw (pow-suc 10 k) (omega (arith, ten-pow-pos k))

-- A number with more decimal places than asked for is rounded half up.
pub quantize_down :
    (e k c : ℕ)
    → 0 < k
    → round_half_up c k < coef_limit
    → quantize e (decimal c (e + k)) ≡ ok (decimal (round_half_up c k) e)
unfolding quantize
quantize_down e k c p h =
    rw (leb_add e k p, add-sub_cancel_left e k, lt→ltb (round_half_up c k) coef_limit h)

-- A number that has the decimal places asked for stays as it is.
pub quantize_same : (e c : ℕ) → c < coef_limit → quantize e (decimal c e) ≡ ok (decimal c e)
unfolding quantize
quantize_same e c h = rw (le→leb e e (omega arith), sub_self e, mul-one c, lt→ltb c coef_limit h)

le_of_not_leb : (a b : ℕ) → leb a b ≡ false → b < a
le_of_not_leb a b h = ground arith

-- The rounded quotient is the nearest one, a tie going up.
nearest_of_parts :
    (c q r t : ℕ)
    → q * t + r ≡ c
    → r < t
    → let n = if leb t (2 * r) then q + 1 else q in
      (2 * (n * t) ≤ 2 * c + t) × (2 * c < 2 * (n * t) + t)
nearest_of_parts c q r t e h = elim (Bool-cases (leb t (2 * r))) [
  | inl up ↦ rw up (grind (arith, leb→le t (2 * r) up))
  | inr down ↦ rw down (grind (arith, le_of_not_leb t (2 * r) down))
]

pub round_half_up_nearest :
    (c k : ℕ)
    → (2 * (round_half_up c k * 10 ^ k) ≤ 2 * c + 10 ^ k)
      × (2 * c < 2 * (round_half_up c k * 10 ^ k) + 10 ^ k)
unfolding round_half_up
round_half_up_nearest c k =
    nearest_of_parts c (c / 10 ^ k) (c % 10 ^ k) (10 ^ k) (div-add-mod' c (10 ^ k))
      (mod-lt c (ten-pow-pos k))

le_of_parts : (c q r t : ℕ) → q * t + r ≡ c → r < t → (if leb t (2 * r) then q + 1 else q) ≤ c
le_of_parts c q r t e h = elim (Bool-cases (leb t (2 * r))) [
  | inl up ↦ rw up (grind (arith, leb→le t (2 * r) up))
  | inr down ↦ rw down (grind arith)
]

-- Rounding never passes the numerator.
pub round_half_up-le : (c k : ℕ) → round_half_up c k ≤ c
unfolding round_half_up
round_half_up-le c k =
    le_of_parts c (c / 10 ^ k) (c % 10 ^ k) (10 ^ k) (div-add-mod' c (10 ^ k))
      (mod-lt c (ten-pow-pos k))
