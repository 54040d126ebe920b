-- ===== src/Decimal.antt =====
-- Python's `decimal.Decimal` as app/ uses it: non-negative values under the default context, whose
-- results have 28 significant digits and round half to even. `coef` over 10 ^ `scale` is the value;
-- two records of one value stand for the same number, so trailing zeros do not matter.
pub mod Exact
use blanco_financas_api.Prelude.{
  ℕ, zero, suc, ◌+◌, ◌-◌, ◌*◌, ◌/◌, ◌%◌, ◌^◌, Bool, true, false, ◌&&◌, ◌||◌, ltb, leb, ◌==◌,
  if◌then◌else◌,
}
use blanco_financas_api.Errors.{Result, ok, err, invalid_operation}

pub record Decimal : Type 0 where
  pub coef : ℕ
  pub scale : ℕ

abbrev pub decimal : ℕ → ℕ → Decimal
decimal c s = record { coef = c; scale = s }

-- The least coefficient that has more digits than the context's precision.
abbrev pub coef_limit : ℕ
coef_limit = 10 ^ 28

-- How many digits stand beyond the precision. The fuel is the coefficient itself, which falls by a
-- factor of ten in each round.
excess_digits : ℕ → ℕ → ℕ
excess_digits zero c = 0
excess_digits (suc fuel) c = elim (ltb c coef_limit) [
  | true ↦ 0
  | false ↦ suc (excess_digits fuel (c / 10))
]

-- `c` over 10 ^ `k`, half to even.
round_half_even : ℕ → ℕ → ℕ
round_half_even c k =
    let q = c / 10 ^ k in
    let r = c % 10 ^ k in
    if ltb (10 ^ k) (2 * r) || ((2 * r) == (10 ^ k) && (q % 2 == 1)) then q + 1 else q

-- `c` over 10 ^ `k`, half up.
unfoldable pub round_half_up : ℕ → ℕ → ℕ
round_half_up c k = if leb (10 ^ k) (2 * (c % 10 ^ k)) then c / 10 ^ k + 1 else c / 10 ^ k

-- Rounding of an exact result to the context's precision. Where all the digits behind the point
-- and more go, the coefficient keeps its place by zeros.
fix_with : ℕ → Decimal → Decimal
unfolding round_half_even
fix_with zero d = d
fix_with (suc j) d =
    let k = suc j in
    let q = round_half_even d.coef k in
    if leb k d.scale then decimal q (d.scale - k) else decimal (q * 10 ^ (k - d.scale)) 0

unfoldable pub fix : Decimal → Decimal
unfolding fix_with excess_digits
fix d = fix_with (excess_digits d.coef d.coef) d

unfoldable pub mul : Decimal → Decimal → Decimal
unfolding fix
mul a b = fix (decimal (a.coef * b.coef) (a.scale + b.scale))

unfoldable pub add : Decimal → Decimal → Decimal
unfolding fix
add a b =
    let s = if leb a.scale b.scale then b.scale else a.scale in
    fix (decimal (a.coef * 10 ^ (s - a.scale) + b.coef * 10 ^ (s - b.scale)) s)

-- a - b, for b at most a.
unfoldable pub sub : Decimal → Decimal → Decimal
unfolding fix
sub a b =
    let s = if leb a.scale b.scale then b.scale else a.scale in
    fix (decimal (a.coef * 10 ^ (s - a.scale) - b.coef * 10 ^ (s - b.scale)) s)

-- `d / Decimal(100)`
unfoldable pub div_hundred : Decimal → Decimal
unfolding fix
div_hundred d = fix (decimal d.coef (d.scale + 2))

-- `d.quantize(Decimal(10) ** -e, ROUND_HALF_UP)`; a result of too many digits is refused.
unfoldable pub quantize : ℕ → Decimal → Result Decimal
unfolding round_half_up
quantize e d =
    let c =
      if leb d.scale e then d.coef * 10 ^ (e - d.scale) else round_half_up d.coef (d.scale - e) in
    if ltb c coef_limit then ok (decimal c e) else err invalid_operation

-- `int(d)`
unfoldable pub to_int : Decimal → ℕ
to_int d = d.coef / 10 ^ d.scale

abbrev pub leb_decimal : Decimal → Decimal → Bool
leb_decimal a b = leb (a.coef * 10 ^ b.scale) (b.coef * 10 ^ a.scale)
