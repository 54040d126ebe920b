-- ===== src/Installments.antt =====
-- app/domain/services/fundo_garantidor_calculator.py and installment_calculator.py: how an
-- installment is split into fees, insurance, guarantee fund and investment.
pub mod Shares
pub mod Split
use blanco_financas_api.Prelude.{
  ℕ, ◌*◌, ◌^◌, Bool, true, false, ◌&&◌, not, leb, ◌==◌, if◌then◌else◌, Option, none, some,
}
use blanco_financas_api.Errors.{Result, ok, err, ◌>>=◌, ◌>>◌, raise_if, value_error}
use blanco_financas_api.Decimal.{Decimal, decimal, leb_decimal}
use blanco_financas_api.Money.{Money, add_money, subtract, percentage}

abbrev pub min_percentage : Decimal
min_percentage = decimal 10 1

abbrev pub max_percentage : Decimal
max_percentage = decimal 13 1

pub record FundoGarantidorCalculator : Type 0 where
  pub fundo_percentage : Decimal

-- `FundoGarantidorCalculator.__init__`
unfoldable pub new_fundo_calculator : Decimal → Result FundoGarantidorCalculator
new_fundo_calculator p = do
  raise_if (not (leb_decimal min_percentage p && leb_decimal p max_percentage)) value_error
  ok (record { fundo_percentage = p })

-- `FundoGarantidorCalculator.calculate`
unfoldable pub calculate : FundoGarantidorCalculator → Money → Result Money
calculate c installment_amount = percentage installment_amount c.fundo_percentage

-- the investment amount and the fundo amount
unfoldable pub split_installment : FundoGarantidorCalculator → Money → Result (Money × Money)
unfolding calculate
split_installment c installment_amount = do
  fundo_amount ← calculate c installment_amount
  investment_amount ← subtract installment_amount fundo_amount
  ok (investment_amount, fundo_amount)

pub record FirstInstallmentBreakdown : Type 0 where
  pub total : Money
  pub fee_amount : Money
  pub insurance_amount : Money
  pub fundo_garantidor_amount : Money
  pub investment_amount : Money

pub record SubsequentInstallmentBreakdown : Type 0 where
  pub total : Money
  pub fundo_garantidor_amount : Money
  pub investment_amount : Money

pub record InstallmentCalculator : Type 0 where
  pub fundo_calculator : FundoGarantidorCalculator
  pub fee_percentage : Decimal
  pub insurance_percentage : Decimal

abbrev pub default_fee_percentage : Decimal
default_fee_percentage = decimal 20 1

abbrev pub default_insurance_percentage : Decimal
default_insurance_percentage = decimal 10 1

-- `given or default`: a percentage of zero counts as not given.
unfoldable pub or_default : Option Decimal → Decimal → Decimal
or_default none d = d
or_default (some p) d = if p.coef == 0 then d else p

-- `InstallmentCalculator.__init__`
unfoldable pub new_calculator :
    Decimal → Option Decimal → Option Decimal → Result InstallmentCalculator
unfolding new_fundo_calculator or_default
new_calculator fundo fee insurance = do
  fundo_calculator ← new_fundo_calculator fundo
  ok (record {
    fundo_calculator = fundo_calculator;
    fee_percentage = or_default fee default_fee_percentage;
    insurance_percentage = or_default insurance default_insurance_percentage;
  })

unfoldable pub calculate_first_installment :
    InstallmentCalculator → Money → Result FirstInstallmentBreakdown
unfolding calculate
calculate_first_installment c installment_amount = do
  fee_amount ← percentage installment_amount c.fee_percentage
  insurance_amount ← percentage installment_amount c.insurance_percentage
  fundo_amount ← calculate c.fundo_calculator installment_amount
  fees ← add_money fee_amount insurance_amount
  deductions ← add_money fees fundo_amount
  investment_amount ← subtract installment_amount deductions
  ok (record {
    total = installment_amount;
    fee_amount = fee_amount;
    insurance_amount = insurance_amount;
    fundo_garantidor_amount = fundo_amount;
    investment_amount = investment_amount;
  })

unfoldable pub calculate_subsequent_installment :
    InstallmentCalculator → Money → Result SubsequentInstallmentBreakdown
unfolding split_installment
calculate_subsequent_installment c installment_amount = do
  parts ← split_installment c.fundo_calculator installment_amount
  ok (record {
    total = installment_amount;
    fundo_garantidor_amount = parts.1;
    investment_amount = parts.0;
  })
