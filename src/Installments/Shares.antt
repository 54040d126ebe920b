-- ===== src/Installments/Shares.antt =====
-- The rounded shares of an amount that `percentage` gives, and their bounds.
use native.Mathlib.Nat.{pow-suc, le_of_mul-le-mul_right, mul-le-mul}
use blanco_financas_api.Prelude.{ℕ, suc, ◌+◌, ◌*◌, ◌^◌, ◌≤◌, ◌<◌, ◌≡◌, arith}
use blanco_financas_api.Errors.{ok}
use blanco_financas_api.Decimal.{Decimal, coef_limit, round_half_up}
use blanco_financas_api.Decimal.Exact.{round_half_up_nearest, ten-pow-pos}
use blanco_financas_api.Money.{money, percentage}
use blanco_financas_api.Money.Percentage.{percentage_lem}

-- A guarantee fund percentage between 1.0 and 1.3, written with few enough digits.
pub record IsFundoPercentage (p : Decimal) : Type 0 where
  pub at_least : 10 * 10 ^ p.scale ≤ p.coef * 10
  pub at_most : p.coef * 10 ≤ 13 * 10 ^ p.scale
  pub digits : p.coef < 10 ^ 6

abbrev pub amount_limit : ℕ
amount_limit = 10 ^ 19

-- The rounded share of the guarantee fund.
abbrev pub fundo_share : Decimal → ℕ → ℕ
fundo_share p c = round_half_up (c * p.coef) (p.scale + 2)

product_fits : (c k : ℕ) → c < amount_limit → k < 10 ^ 6 → c * k * 100 < coef_limit
product_fits c k h l =
    let below : c * k ≤ amount_limit * 10 ^ 6 =
      mul-le-mul {n₂ = amount_limit} {m₂ = 10 ^ 6} (omega arith) (omega arith) in
    omega arith

pub share_lem :
    (c : ℕ) (p : Decimal)
    → c < amount_limit
    → p.coef < 10 ^ 6
    → percentage (money c) p ≡ ok (money (fundo_share p c))
share_lem c p h l =
    percentage_lem (money c) p (omega arith) (omega arith) (product_fits c p.coef h l)

cancel_scale :
    (c k g t : ℕ)
    → 0 < t
    → k * 10 ≤ 13 * t
    → 2 * (g * (t * 100)) ≤ 2 * (c * k) + t * 100
    → 2000 * g ≤ 26 * c + 1000
cancel_scale c k g t p h l =
    let kc : c * (k * 10) ≤ c * (13 * t) = mul-le-mul (omega arith) h in
    le_of_mul-le-mul_right {k = t} (omega arith) p

ten_pow_two : (s : ℕ) → 10 ^ (s + 2) ≡ 10 ^ s * 100
ten_pow_two s =
    let two : s + 2 ≡ suc (suc s) = omega arith in
    rw (two, pow-suc 10 (suc s), pow-suc 10 s) (omega arith)

-- The guarantee fund takes at most 1.3 % and half a cent.
pub fundo_share_bound :
    (p : Decimal) (c : ℕ) → IsFundoPercentage p → 2000 * fundo_share p c ≤ 26 * c + 1000
fundo_share_bound p c v =
    cancel_scale c p.coef (fundo_share p c) (10 ^ p.scale) (ten-pow-pos p.scale) v.at_most (
      let near = (round_half_up_nearest (c * p.coef) (p.scale + 2)).0 in
      rw (ten_pow_two p.scale) at near)

pub fundo_share-le : (p : Decimal) (c : ℕ) → IsFundoPercentage p → fundo_share p c ≤ c
fundo_share-le p c v = omega (arith, fundo_share_bound p c v)
