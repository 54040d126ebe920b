-- ===== src/Recommendation/Limits.antt =====
-- `validate_params_against_plan` against the limits of a plan.
use blanco_financas_api.Prelude.{◌≡◌, arith, true, Option, none, some, is_some, ◌⊎◌, ℤ, ◌≤ℤ◌}
use blanco_financas_api.Plans.{Plan}
use blanco_financas_api.Recommendation.{validate_params_against_plan}

abbrev pub AtMost : ℤ → Option ℤ → Type 0
AtMost value none = Unit
AtMost value (some limit) = value ≤ℤ limit

-- The parameters lie within the plan's limits, of which the upper ones may be open.
pub record Fits (plan : Plan) (target count : ℤ) : Type 0 where
  pub value_from : plan.min_value_cents ≤ℤ target
  pub value_to : AtMost target plan.max_value_cents
  pub count_from : plan.min_duration_months ≤ℤ count
  pub count_to : AtMost count plan.max_duration_months

-- The check of a subscription's parameters returns no message just where they lie within the limits
-- of the plan.
pub validate_params_against_plan_decides :
    (plan : Plan) (target count : ℤ)
    → ((validate_params_against_plan plan target count ≡ none) × Fits plan target count)
      ⊎ ((is_some (validate_params_against_plan plan target count) ≡ true)
          × ¬ Fits plan target count)
unfolding validate_params_against_plan
validate_params_against_plan_decides plan target count = ground arith
