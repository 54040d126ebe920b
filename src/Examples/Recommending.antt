-- ===== src/Examples/Recommending.antt =====
-- A recommendation at a concrete input, where fewer deposits come first.
use blanco_financas_api.Prelude.{◌≡◌, refl, Bool, some, [], ◌∷◌, pos, ltb, ◌==◌, ◌+ℤ◌, ◌*ℤ◌}
use blanco_financas_api.Errors.{ok}
use blanco_financas_api.Decimal
use blanco_financas_api.Decimal.{decimal}
use blanco_financas_api.Money
use blanco_financas_api.Plans
use blanco_financas_api.Plans.{Plan}
use blanco_financas_api.Recommendation
use blanco_financas_api.Recommendation.Choice.{
  RecommendationPreference, RecommendationResult, fewer_payments, recommend,
}
use blanco_financas_api.Recommendation.Choice.Sound.{Suitable, recommend-Suitable}
use blanco_financas_api.Examples.Data.{home_plan}

abbrev short_plan : Plan
short_plan = record home_plan { max_duration_months = some (pos 7) }

abbrev fewer : RecommendationPreference → RecommendationResult → RecommendationResult → Bool
fewer preference a b = ltb a.deposit_count b.deposit_count

abbrev as_few : RecommendationPreference → RecommendationResult → RecommendationResult → Bool
as_few preference a b = a.deposit_count == b.deposit_count

abbrev six_deposits : RecommendationResult
six_deposits = record {
  plan_id = 2;
  plan_title = "Casa";
  deposit_count = 6;
  monthly_amount_cents = 20000;
  total_cost_cents = pos 2020;
  admin_tax_value_cents = pos 500;
  insurance_cost_cents = pos 200;
  guarantee_fund_cost_cents = pos 1320;
  guarantee_fund_percent = decimal 11 1;
  min_duration_months = pos 6;
  max_duration_months = some (pos 7);
  min_value_cents = pos 10000;
  max_value_cents = some (pos 500000);
}

six_recommended :
    recommend fewer as_few (short_plan ∷ []) (pos 120000) fewer_payments ≡ ok (some six_deposits)
unfolding recommend Plans.is_active_plan Recommendation.calculate_cost Money.from_cents
    Money.percentage Decimal.quantize Decimal.mul Decimal.div_hundred ◌+ℤ◌ Decimal.to_int ◌*ℤ◌
six_recommended = refl

recommend-Suitable_example : Suitable (λ p. p.id ≡ 2) 120000 six_deposits
recommend-Suitable_example =
    recommend-Suitable fewer as_few (λ p. p.id ≡ 2) (short_plan ∷ []) 120000 fewer_payments
      {r = six_deposits} (refl, tt) six_recommended
