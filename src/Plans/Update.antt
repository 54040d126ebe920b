-- ===== src/Plans/Update.antt =====
-- `create` and `update` of app/domain/entities/plan.py.
use blanco_financas_api.Prelude.{ℕ, ◌≡◌, refl, ap, ◌∙◌, arith, ◌⊎◌, inl, inr}
use blanco_financas_api.Errors.{ok, err, Error, value_error, Result-cases}
use blanco_financas_api.Plans.{Plan, PlanConfig, validate_plan, configure, update_plan}

-- The invariants that the constructor checks.
abbrev pub IsValidPlan : Plan → Type 0
IsValidPlan p = validate_plan p ≡ ok p

validate_plan-eq-ok : (p : Plan) {q : Plan} → validate_plan p ≡ ok q → q ≡ p
unfolding validate_plan
validate_plan-eq-ok p {q} h = ground arith

validate_plan-eq-err : (p : Plan) {e : Error} → validate_plan p ≡ err e → e ≡ value_error
unfolding validate_plan
validate_plan-eq-err p {e} h = ground arith

touch-IsValidPlan :
    (p : Plan) (now : ℕ) → IsValidPlan p → IsValidPlan (record p { updated_at = now })
unfolding validate_plan
touch-IsValidPlan p now h = ground arith

-- An update of a valid plan leaves a valid plan: it either takes the whole configuration and the
-- time, or it raises `ValueError` and the plan is, in every field, what it was.
pub update_plan_all_or_nothing :
    (c : PlanConfig) (now : ℕ) (p : Plan)
    → IsValidPlan p
    → IsValidPlan (update_plan c now p).0
      × (((update_plan c now p).1 ≡ ok tt)
            × ((update_plan c now p).0 ≡ record (configure c p) { updated_at = now })
          ⊎ ((update_plan c now p).1 ≡ err value_error) × ((update_plan c now p).0 ≡ p))
unfolding update_plan
update_plan_all_or_nothing c now p h = elim (Result-cases (validate_plan (configure c p))) [
  | inl (q, valid) ↦
      let same : q ≡ configure c p = validate_plan-eq-ok (configure c p) valid in
      let valid' : IsValidPlan (configure c p) = valid ∙ ap ok same in
      rw (update_plan, valid') (touch-IsValidPlan (configure c p) now valid', inl (refl, refl))
  | inr (e, refused) ↦
      let which : e ≡ value_error = validate_plan-eq-err (configure c p) refused in
      rw (update_plan, refused, which) (h, inr (refl, refl))
]
