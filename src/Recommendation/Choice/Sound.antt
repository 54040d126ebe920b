-- ===== src/Recommendation/Choice/Sound.antt =====
-- What is recommended can be subscribed to.
use blanco_financas_api.Prelude.{
  ℕ, zero, suc, ◌+◌, ◌-◌, ◌*◌, ◌≤◌, ◌<◌, ◌≡◌, refl, arith, Bool, true, false, Bool-cases, inl, inr,
  Option, none, some, List, [], ◌∷◌, ◌++◌, All, sort_by, sort_by-All, ℤ, pos, negsuc,
}
use native.Mathlib.Nat.{div-add-mod', mod-lt}
use blanco_financas_api.Errors.{ok, Result-cases, ok_injective}
use blanco_financas_api.Plans.{Plan, is_active_plan}
use blanco_financas_api.Recommendation.{calculate_cost, exceeds, validate_params_against_plan}
use blanco_financas_api.Recommendation.Choice.{
  RecommendationPreference, RecommendationResult, suits, candidate, monthly_of, candidates_from,
  max_deposits, plan_candidates, suited_candidates, all_candidates, first_of, before, recommend,
}

-- A candidate for one of the plans: active, within the plan's limits, and with the least monthly
-- amount that reaches the target.
pub record Suitable (P : Plan → Type 0) (target : ℕ) (r : RecommendationResult) : Type 0 where
  pub plan : Plan
  pub listed : P plan
  pub same_plan : r.plan_id ≡ plan.id
  pub is_active : is_active_plan plan ≡ true
  pub accepted : validate_params_against_plan plan (pos target) (pos r.deposit_count) ≡ none
  pub reaches : target ≤ r.monthly_amount_cents * r.deposit_count
  pub least : r.monthly_amount_cents * r.deposit_count < target + r.deposit_count

rounded_up :
    (target count : ℕ)
    → 1 ≤ count
    → (target ≤ monthly_of target count * count)
      × (monthly_of target count * count < target + count)
rounded_up target count h =
    let parts = div-add-mod' (target + count - 1) count in
    let small = mod-lt (target + count - 1) h in
    (omega (arith, parts, small), omega (arith, parts, small))

same-All :
    (P : RecommendationResult → Type 0) (rs rs' : List RecommendationResult)
    → All P rs
    → rs ≡ rs'
    → All P rs'
same-All P rs rs' a e = rw e at a

++-All : {A : Type 0} (P : A → Type 0) (xs ys : List A) → All P xs → All P ys → All P (xs ++ ys)
++-All P [] ys a b = b
++-All P (x ∷ xs) ys a b = (a.0, ++-All P xs ys a.1 b)

first_of-All :
    (P : RecommendationResult → Type 0) (rs : List RecommendationResult) {r : RecommendationResult}
    → All P rs
    → first_of rs ≡ some r
    → P r
first_of-All P [] a h = cc
first_of-All P (x ∷ xs) {r} a h = let same : x ≡ r = cc in rw same at a.0

count_to :
    (limit : Option ℤ) (n k : ℕ)
    → suc n ≤ k
    → k < suc n + (max_deposits limit + 1 - suc n)
    → exceeds (pos k) limit ≡ false
count_to none n k from to = refl
count_to (some (pos m)) n k from to = ground arith
count_to (some (negsuc m)) n k from to = ground arith

module _ (P : Plan → Type 0) (target : ℕ) where
  candidates_from_lem :
      (p : Plan) (count more : ℕ) {rs : List RecommendationResult}
      → P p
      → is_active_plan p ≡ true
      → 1 ≤ count
      → ((k : ℕ)
          → count ≤ k
          → k < count + more
          → validate_params_against_plan p (pos target) (pos k) ≡ none)
      → candidates_from p target count more ≡ ok rs
      → All (Suitable P target) rs
  unfolding candidates_from
  candidates_from_lem p count zero {rs} l a c f h =
      same-All (Suitable P target) [] rs tt (ok_injective h)
  candidates_from_lem p count (suc more) {rs} l a c f h =
      elim (Result-cases (calculate_cost p (pos count) (pos (monthly_of target count)))) [
        | inr (e, q) ↦ absurd (let k = rw q at h in cc)
        | inl (cost, q) ↦ elim (Result-cases (candidates_from p target (count + 1) more)) [
          | inr (e, s) ↦ absurd (let k = rw (q, s) at h in cc)
          | inl (rest, s) ↦
              let k : ok (candidate p count (monthly_of target count) cost ∷ rest) ≡ ok rs =
                rw (q, s) at h in
              let (enough, least) = rounded_up target count c in
              let first : Suitable P target (candidate p count (monthly_of target count) cost) =
                record {
                  plan = p;
                  listed = l;
                  same_plan = refl;
                  is_active = a;
                  accepted = f count (omega arith) (omega arith);
                  reaches = enough;
                  least = least;
                } in
              let others =
                candidates_from_lem p (count + 1) more {rs = rest} l a (omega arith)
                  (λ j u v. f j (omega (arith, u)) (omega (arith, v))) s in
              same-All (Suitable P target) (candidate p count (monthly_of target count) cost ∷ rest)
                rs (first, others) (ok_injective k)
        ]
      ]

  within :
      (p : Plan) (n : ℕ) (k : ℕ)
      → suits (pos target) p ≡ true
      → p.min_duration_months ≡ pos (suc n)
      → suc n ≤ k
      → k < suc n + (max_deposits p.max_duration_months + 1 - suc n)
      → validate_params_against_plan p (pos target) (pos k) ≡ none
  unfolding suits validate_params_against_plan
  within p n k s m from to =
      let below = count_to p.max_duration_months n k from to in ground (arith, below)

  plan_candidates_lem :
      (p : Plan) (minimum : ℤ) {rs : List RecommendationResult}
      → P p
      → suits (pos target) p ≡ true
      → p.min_duration_months ≡ minimum
      → plan_candidates target p minimum ≡ ok rs
      → All (Suitable P target) rs
  unfolding plan_candidates suits
  plan_candidates_lem p (pos zero) l s m h = cc
  plan_candidates_lem p (negsuc n) l s m h = cc
  plan_candidates_lem p (pos (suc n)) l s m h =
      candidates_from_lem p (suc n) (max_deposits p.max_duration_months + 1 - suc n) l
        (ground arith) (omega arith) (λ k u v. within p n k s m u v) h

  suited_candidates_lem :
      (p : Plan) {rs : List RecommendationResult}
      → P p
      → suited_candidates target p ≡ ok rs
      → All (Suitable P target) rs
  unfolding suited_candidates
  suited_candidates_lem p {rs} l h = elim (Bool-cases (suits (pos target) p)) [
    | inl suited ↦ plan_candidates_lem p p.min_duration_months l suited refl (rw suited at h)
    | inr skipped ↦
        let none_left : ok [] ≡ ok rs = rw skipped at h in
        same-All (Suitable P target) [] rs tt (ok_injective none_left)
  ]

  all_candidates_lem :
      (plans : List Plan) {rs : List RecommendationResult}
      → All P plans
      → all_candidates target plans ≡ ok rs
      → All (Suitable P target) rs
  unfolding all_candidates
  all_candidates_lem [] {rs} l h = same-All (Suitable P target) [] rs tt (ok_injective h)
  all_candidates_lem (p ∷ ps) {rs} l h = elim (Result-cases (suited_candidates target p)) [
    | inr (e, q) ↦ absurd (let k = rw q at h in cc)
    | inl (here, q) ↦ elim (Result-cases (all_candidates target ps)) [
      | inr (e, s) ↦ absurd (let k = rw (q, s) at h in cc)
      | inl (rest, s) ↦
          let k : ok (here ++ rest) ≡ ok rs = rw (q, s) at h in
          let both =
            ++-All (Suitable P target) here rest (suited_candidates_lem p l.0 q)
              (all_candidates_lem ps l.1 s) in
          rw (ok_injective k) at both
    ]
  ]

-- However the distances compare, a recommendation is for one of the plans that were given, an
-- active one; the subscription that it describes passes the check against that plan's limits, and
-- its monthly amount is the least whole number of cents with which the deposits reach the target.
pub recommend-Suitable :
    (nearer as_near : RecommendationPreference → RecommendationResult → RecommendationResult → Bool)
    (P : Plan → Type 0) (plans : List Plan) (target : ℕ) (preference : RecommendationPreference)
    {r : RecommendationResult}
    → All P plans
    → recommend nearer as_near plans (pos target) preference ≡ ok (some r)
    → Suitable P target r
unfolding recommend
recommend-Suitable nearer as_near P plans zero preference l h = absurd cc
recommend-Suitable nearer as_near P plans (suc n) preference {r} l h =
    elim (Result-cases (all_candidates (suc n) plans)) [
      | inr (e, q) ↦ absurd (let k = rw q at h in cc)
      | inl (rs, q) ↦
          let k : ok (first_of (sort_by (before nearer as_near preference) rs)) ≡ ok (some r) =
            rw q at h in
          first_of-All (Suitable P (suc n)) (sort_by (before nearer as_near preference) rs)
            (sort_by-All (Suitable P (suc n)) (before nearer as_near preference) rs
              (all_candidates_lem P (suc n) plans l q))
            (ok_injective k)
    ]
