-- ===== src/Installments/Split.antt =====
-- app/domain/services/installment_calculator.py: the parts of an installment.
use blanco_financas_api.Prelude.{
  ℕ, ◌+◌, ◌-◌, ◌*◌, ◌^◌, ◌≤◌, ◌<◌, ◌≡◌, arith, leb, le→leb, Option, none, true, ◌⊎◌,
}
use blanco_financas_api.Errors.{ok, err, value_error}
use blanco_financas_api.Decimal.{Decimal, decimal}
use blanco_financas_api.Decimal.Exact.{round_half_up_nearest}
use blanco_financas_api.Money.{money}
use blanco_financas_api.Money.Percentage.{add_money_lem, subtract_lem}
use blanco_financas_api.Installments.Shares.{
  IsFundoPercentage, amount_limit, fundo_share, share_lem, fundo_share_bound, fundo_share-le,
}
use blanco_financas_api.Installments.{
  InstallmentCalculator, FirstInstallmentBreakdown, SubsequentInstallmentBreakdown,
  new_fundo_calculator, new_calculator, calculate_first_installment,
  calculate_subsequent_installment,
}

pub new_fundo_calculator_accepts :
    (p : Decimal)
    → IsFundoPercentage p
    → new_fundo_calculator p ≡ ok (record { fundo_percentage = p })
unfolding new_fundo_calculator
new_fundo_calculator_accepts p v =
    let low : leb (10 * 10 ^ p.scale) (p.coef * 10 ^ 1) ≡ true = le→leb _ _ v.at_least in
    let high : leb (p.coef * 10 ^ 1) (13 * 10 ^ p.scale) ≡ true = le→leb _ _ v.at_most in
    rw (low, high)

-- The calculator of a subscription: default fee and insurance.
abbrev pub plain_calculator : Decimal → InstallmentCalculator
plain_calculator p = record {
  fundo_calculator = record { fundo_percentage = p };
  fee_percentage = decimal 20 1;
  insurance_percentage = decimal 10 1;
}

pub new_calculator_accepts :
    (p : Decimal) → IsFundoPercentage p → new_calculator p none none ≡ ok (plain_calculator p)
unfolding new_calculator
new_calculator_accepts p v = rw (new_fundo_calculator_accepts p v)

-- What the split of a subsequent installment is.
abbrev pub subsequent_parts : Decimal → ℕ → SubsequentInstallmentBreakdown
subsequent_parts p c = record {
  total = money c;
  fundo_garantidor_amount = money (fundo_share p c);
  investment_amount = money (c - fundo_share p c);
}

pub calculate_subsequent_installment_lem :
    (p : Decimal) (c : ℕ)
    → IsFundoPercentage p
    → c < amount_limit
    → calculate_subsequent_installment (plain_calculator p) (money c) ≡ ok (subsequent_parts p c)
unfolding calculate_subsequent_installment
calculate_subsequent_installment_lem p c v h = rw (
  share_lem c p h v.digits,
  subtract_lem (money c) (money (fundo_share p c)) (fundo_share-le p c v),
)

-- What the split of a first installment is.
abbrev fee_share : ℕ → ℕ
fee_share c = fundo_share (decimal 20 1) c

abbrev insurance_share : ℕ → ℕ
insurance_share c = fundo_share (decimal 10 1) c

abbrev pub first_parts : Decimal → ℕ → FirstInstallmentBreakdown
first_parts p c = record {
  total = money c;
  fee_amount = money (fundo_share (decimal 20 1) c);
  insurance_amount = money (fundo_share (decimal 10 1) c);
  fundo_garantidor_amount = money (fundo_share p c);
  investment_amount =
      money (c - (fundo_share (decimal 20 1) c + fundo_share (decimal 10 1) c + fundo_share p c));
}

-- All deductions together never pass the installment.
deductions-le :
    (p : Decimal) (c : ℕ)
    → IsFundoPercentage p
    → fee_share c + insurance_share c + fundo_share p c ≤ c
deductions-le p c v =
    let fee = (round_half_up_nearest (c * 20) 3).0 in
    let insurance = (round_half_up_nearest (c * 10) 3).0 in omega (arith, fundo_share_bound p c v)

pub calculate_first_installment_lem :
    (p : Decimal) (c : ℕ)
    → IsFundoPercentage p
    → c < amount_limit
    → calculate_first_installment (plain_calculator p) (money c) ≡ ok (first_parts p c)
unfolding calculate_first_installment
calculate_first_installment_lem p c v h = rw (
  share_lem c (decimal 20 1) h (omega arith),
  share_lem c (decimal 10 1) h (omega arith),
  share_lem c p h v.digits,
  add_money_lem (money (fee_share c)) (money (insurance_share c)),
  add_money_lem (money (fee_share c + insurance_share c)) (money (fundo_share p c)),
  subtract_lem (money c) (money (fee_share c + insurance_share c + fundo_share p c))
      (deductions-le p c v),
)

abbrev pub subsequent_sum : SubsequentInstallmentBreakdown → ℕ
subsequent_sum b = b.fundo_garantidor_amount.cents + b.investment_amount.cents

abbrev pub first_sum : FirstInstallmentBreakdown → ℕ
first_sum b =
    b.fee_amount.cents + b.insurance_amount.cents + b.fundo_garantidor_amount.cents
    + b.investment_amount.cents

-- For a guarantee fund percentage from 1.0 to 1.3 and an amount below the limit, the subsequent
-- split succeeds, its two parts add up to the installment exactly, and the fund gets at most 1.3 %
-- of the installment and half a cent.
pub calculate_subsequent_installment_conserves :
    (p : Decimal) (c : ℕ)
    → IsFundoPercentage p
    → c < amount_limit
    → (b : SubsequentInstallmentBreakdown) × (calculate_subsequent_installment
          (plain_calculator p)
          (money c)
        ≡ ok b)
      × (subsequent_sum b ≡ c)
      × (2000 * b.fundo_garantidor_amount.cents ≤ 26 * c + 1000)
calculate_subsequent_installment_conserves p c v h = (
  subsequent_parts p c,
  calculate_subsequent_installment_lem p c v h,
  omega (arith, fundo_share-le p c v),
  fundo_share_bound p c v,
)

-- For the default fee and insurance, a guarantee fund percentage from 1.0 to 1.3 and an amount below
-- the limit, the first split succeeds (the deductions never pass the installment, however small
-- it is) and its four parts add up to the installment exactly.
pub calculate_first_installment_conserves :
    (p : Decimal) (c : ℕ)
    → IsFundoPercentage p
    → c < amount_limit
    → (b : FirstInstallmentBreakdown) × (calculate_first_installment (plain_calculator p) (money c)
        ≡ ok b)
      × (first_sum b ≡ c)
calculate_first_installment_conserves p c v h =
    (first_parts p c, calculate_first_installment_lem p c v h, omega (arith, deductions-le p c v))

-- Outside 1.0 to 1.3 the calculator is refused.
pub new_calculator_refuses :
    (p : Decimal) (fee insurance : Option Decimal)
    → (p.coef * 10 < 10 * 10 ^ p.scale) ⊎ (13 * 10 ^ p.scale < p.coef * 10)
    → new_calculator p fee insurance ≡ err value_error
unfolding new_calculator
new_calculator_refuses p fee insurance h = ground arith
