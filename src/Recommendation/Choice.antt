-- ===== src/Recommendation/Choice.antt =====
-- `recommend` of app/domain/services/plan_recommendation_service.py: the candidates and the choice
-- among them. The distances that rank them are floats: `nearer` and `as_near` compare those of two
-- candidates.
pub mod Sound
use blanco_financas_api.Prelude.{
  ℕ, zero, suc, ◌+◌, ◌-◌, ◌*◌, ◌/◌, ltb, leb, if◌then◌else◌, Bool, not, ◌&&◌, ◌||◌, Option, none,
  some, List, [], ◌∷◌, ◌++◌, sort_by, String, ℤ, pos, negsuc, ltb_ℤ,
}
use blanco_financas_api.Errors.{Result, ok, err, ◌>>=◌, ◌>>◌, raise_if, value_error}
use blanco_financas_api.Decimal.{Decimal}
use blanco_financas_api.Plans.{Plan, is_active_plan}
use blanco_financas_api.Recommendation.{CostBreakdown, calculate_cost, exceeds}

abbrev pub max_deposit_count_cap : ℕ
max_deposit_count_cap = 360

pub data RecommendationPreference : Type 0 where
  fewer_payments lower_monthly_amount : RecommendationPreference

pub record RecommendationResult : Type 0 where
  pub plan_id : ℕ
  pub plan_title : String
  pub deposit_count : ℕ
  pub monthly_amount_cents : ℕ
  pub total_cost_cents : ℤ
  pub admin_tax_value_cents : ℤ
  pub insurance_cost_cents : ℤ
  pub guarantee_fund_cost_cents : ℤ
  pub guarantee_fund_percent : Decimal
  pub min_duration_months : ℤ
  pub max_duration_months : Option ℤ
  pub min_value_cents : ℤ
  pub max_value_cents : Option ℤ

-- The plans that the loop does not skip.
unfoldable pub suits : ℤ → Plan → Bool
suits target p =
    is_active_plan p
    && (not (ltb_ℤ target p.min_value_cents) && not (exceeds target p.max_value_cents))

abbrev pub candidate : Plan → ℕ → ℕ → CostBreakdown → RecommendationResult
candidate p count monthly cost = record {
  plan_id = p.id;
  plan_title = p.title;
  deposit_count = count;
  monthly_amount_cents = monthly;
  total_cost_cents = cost.total_cost_cents;
  admin_tax_value_cents = cost.admin_tax_value_cents;
  insurance_cost_cents = cost.insurance_cost_cents;
  guarantee_fund_cost_cents = cost.guarantee_fund_cost_cents;
  guarantee_fund_percent = cost.guarantee_fund_percent;
  min_duration_months = p.min_duration_months;
  max_duration_months = p.max_duration_months;
  min_value_cents = p.min_value_cents;
  max_value_cents = p.max_value_cents;
}

-- The rounded up division. It is positive for a positive target, so that no count is skipped.
abbrev pub monthly_of : ℕ → ℕ → ℕ
monthly_of target count = (target + count - 1) / count

-- The candidates of a plan for so many counts, from the first on.
unfoldable pub candidates_from : Plan → ℕ → ℕ → ℕ → Result (List RecommendationResult)
candidates_from p target count zero = ok []
candidates_from p target count (suc more) = do
  cost ← calculate_cost p (pos count) (pos (monthly_of target count))
  rest ← candidates_from p target (count + 1) more
  ok (candidate p count (monthly_of target count) cost ∷ rest)

abbrev pub max_deposits : Option ℤ → ℕ
max_deposits none = max_deposit_count_cap
max_deposits (some (pos limit)) = limit
max_deposits (some (negsuc n)) = 0

-- `range(min_deposits, max_deposits + 1)`. The first count is positive in a valid plan; from 0 on,
-- the division raises, ZeroDivisionError in the source and `value_error` here.
unfoldable pub plan_candidates : ℕ → Plan → ℤ → Result (List RecommendationResult)
unfolding candidates_from
plan_candidates target p (pos (suc n)) =
    candidates_from p target (suc n) (max_deposits p.max_duration_months + 1 - suc n)
plan_candidates target p (pos zero) = err value_error
plan_candidates target p (negsuc n) = err value_error

unfoldable pub suited_candidates : ℕ → Plan → Result (List RecommendationResult)
unfolding suits plan_candidates
suited_candidates target p =
    if suits (pos target) p then plan_candidates target p p.min_duration_months else ok []

unfoldable pub all_candidates : ℕ → List Plan → Result (List RecommendationResult)
unfolding suited_candidates
all_candidates target [] = ok []
all_candidates target (p ∷ ps) = do
  here ← suited_candidates target p
  rest ← all_candidates target ps
  ok (here ++ rest)

-- `candidates[0]`, if there are any
abbrev pub first_of : List RecommendationResult → Option RecommendationResult
first_of [] = none
first_of (r ∷ rs) = some r

module _
    (nearer as_near : RecommendationPreference
      → RecommendationResult
      → RecommendationResult
      → Bool) where
  -- The order of the sort keys.
  abbrev pub before : RecommendationPreference → RecommendationResult → RecommendationResult → Bool
  before preference a b =
      nearer preference a b
      || (as_near preference a b && ltb_ℤ a.total_cost_cents b.total_cost_cents)

  unfoldable pub recommend :
      List Plan → ℤ → RecommendationPreference → Result (Option RecommendationResult)
  unfolding all_candidates
  recommend plans (pos zero) preference = err value_error
  recommend plans (negsuc n) preference = err value_error
  recommend plans (pos (suc n)) preference = do
    candidates ← all_candidates (suc n) plans
    ok (first_of (sort_by (before preference) candidates))
