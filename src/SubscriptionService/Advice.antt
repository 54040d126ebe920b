-- ===== src/SubscriptionService/Advice.antt =====
-- `recommend` of app/application/services/subscription_service.py, from the parsed preference on,
-- and the query of the active plans.
use blanco_financas_api.Prelude.{
  true, false, Bool, not, ◌&&◌, Option, is_some, List, [], ◌∷◌, ltb, filter_by, sort_by, ℤ,
}
use blanco_financas_api.Errors.{value_error, no_viable_plan}
use blanco_financas_api.Plans.{Plan}
use blanco_financas_api.Store.{Store}
use blanco_financas_api.Session.{Action, ◌>>=◌, ◌>>◌, gets, lift, or_raise, raise_if}
use blanco_financas_api.Recommendation.Choice.{
  RecommendationPreference, RecommendationResult, recommend,
}

-- `get_active_plans`, the newest first
unfoldable pub active_plans : Store → List Plan
active_plans db =
    sort_by (λ a b. ltb b.created_at a.created_at)
      (filter_by (λ p. not (is_some p.deleted_at) && p.active) db.plans)

abbrev has_none : List Plan → Bool
has_none [] = true
has_none (p ∷ ps) = false

module _
    (nearer as_near : RecommendationPreference
      → RecommendationResult
      → RecommendationResult
      → Bool) where
  unfoldable pub recommend_plan : ℤ → Option RecommendationPreference → Action RecommendationResult
  unfolding active_plans
  recommend_plan target wanted = do
    preference ← or_raise wanted value_error
    plans ← gets active_plans
    raise_if (has_none plans) no_viable_plan
    result ← lift (recommend nearer as_near plans target preference)
    or_raise result no_viable_plan
