-- ===== src/Recommendation.antt =====
-- app/domain/services/plan_recommendation_service.py: the cost of a subscription, and the check of its
-- parameters against a plan. A refusal's text is left at its kind. The choice is in the child.
pub mod Limits
pub mod Choice
pub mod Cost
use blanco_financas_api.Prelude.{
  ℕ, if◌then◌else◌, Bool, false, ◌||◌, Option, none, some, ℤ, pos, ltb_ℤ, leb_ℤ, ◌+ℤ◌, ◌*ℤ◌,
}
use blanco_financas_api.Errors.{Result, ok, ◌>>=◌, ◌>>◌, raise_if, value_error}
use blanco_financas_api.Decimal.{Decimal}
use blanco_financas_api.Money.{from_cents, percentage}
use blanco_financas_api.Plans.{Plan}

pub record CostBreakdown : Type 0 where
  pub total_cost_cents : ℤ
  pub admin_tax_value_cents : ℤ
  pub insurance_cost_cents : ℤ
  pub guarantee_fund_cost_cents : ℤ
  pub guarantee_fund_percent : Decimal
  pub monthly_amount_cents : ℤ
  pub deposit_count : ℤ

-- `_select_guarantee_fund_percent`
unfoldable pub select_guarantee_fund_percent : Plan → ℤ → Decimal
select_guarantee_fund_percent plan monthly =
    if leb_ℤ monthly plan.guarantee_fund_threshold_cents
    then plan.guarantee_fund_percent_1
    else plan.guarantee_fund_percent_2

unfoldable pub calculate_cost : Plan → ℤ → ℤ → Result CostBreakdown
unfolding select_guarantee_fund_percent
calculate_cost plan deposit_count monthly = do
  raise_if (ltb_ℤ deposit_count (pos 1)) value_error
  raise_if (leb_ℤ monthly (pos 0)) value_error
  monthly_money ← from_cents monthly
  insurance ← percentage monthly_money plan.insurance_percent
  fund ← percentage monthly_money (select_guarantee_fund_percent plan monthly)
  ok (record {
    total_cost_cents =
        plan.admin_tax_value_cents +ℤ pos insurance.cents +ℤ (pos fund.cents *ℤ deposit_count);
    admin_tax_value_cents = plan.admin_tax_value_cents;
    insurance_cost_cents = pos insurance.cents;
    guarantee_fund_cost_cents = pos fund.cents *ℤ deposit_count;
    guarantee_fund_percent = select_guarantee_fund_percent plan monthly;
    monthly_amount_cents = monthly;
    deposit_count = deposit_count;
  })

-- What a message of `validate_params_against_plan` says.
pub data Refusal : Type 0 where
  below_min_value above_max_value below_min_duration above_max_duration : Refusal

-- `limit is not None and value > limit`
abbrev pub exceeds : ℤ → Option ℤ → Bool
exceeds value none = false
exceeds value (some limit) = ltb_ℤ limit value

unfoldable pub validate_params_against_plan : Plan → ℤ → ℤ → Option Refusal
validate_params_against_plan plan target_amount_cents deposit_count =
    if ltb_ℤ target_amount_cents plan.min_value_cents
    then some below_min_value
    else if exceeds target_amount_cents plan.max_value_cents
    then some above_max_value
    else if ltb_ℤ deposit_count plan.min_duration_months
    then some below_min_duration
    else if exceeds deposit_count plan.max_duration_months
    then some above_max_duration
    else none
