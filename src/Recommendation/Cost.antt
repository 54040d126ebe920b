-- ===== src/Recommendation/Cost.antt =====
-- `calculate_cost`: what a subscription costs.
use blanco_financas_api.Prelude.{
  ℕ, ◌+◌, ◌*◌, ◌^◌, ◌≤◌, ◌<◌, ◌≡◌, refl, arith, false, ℤ, pos, ltb_ℤ, leb_ℤ, ◌+ℤ◌, ◌*ℤ◌, int_laws,
}
use blanco_financas_api.Errors.{ok}
use blanco_financas_api.Decimal.{Decimal}
use blanco_financas_api.Decimal.Exact.{round_half_up_nearest}
use blanco_financas_api.Money.{from_cents}
use blanco_financas_api.Installments.Shares.{amount_limit, fundo_share, share_lem}
use blanco_financas_api.Plans.{Plan}
use blanco_financas_api.Recommendation.{
  CostBreakdown, calculate_cost, select_guarantee_fund_percent,
}

-- A whole number of cents nearest to a percentage of an amount, a tie going up.
pub record IsNearestShare (share amount : ℕ) (p : Decimal) : Type 0 where
  pub not_above : 2 * (share * 10 ^ (p.scale + 2)) ≤ 2 * (amount * p.coef) + 10 ^ (p.scale + 2)
  pub not_below : 2 * (amount * p.coef) < 2 * (share * 10 ^ (p.scale + 2)) + 10 ^ (p.scale + 2)

share-IsNearestShare : (amount : ℕ) (p : Decimal) → IsNearestShare (fundo_share p amount) amount p
share-IsNearestShare amount p =
    let n = round_half_up_nearest (amount * p.coef) (p.scale + 2) in
    record { not_above = n.0; not_below = n.1 }

product_pos : (a b : ℕ) → pos a *ℤ pos b ≡ pos (a * b)
unfolding ◌*ℤ◌
product_pos a b = ground arith

total_pos : (a : ℤ) (i x : ℕ) → a +ℤ pos i +ℤ pos x ≡ a +ℤ pos (i + x)
total_pos a i x = omega int_laws

-- The cost of `count` deposits of `monthly` cents: what a breakdown says of them.
pub record IsCostOf (plan : Plan) (count monthly : ℕ) (b : CostBreakdown) : Type 0 where
  pub insurance : ℕ
  pub fund : ℕ
  pub insurance_nearest : IsNearestShare insurance monthly plan.insurance_percent
  pub fund_nearest : IsNearestShare fund monthly (select_guarantee_fund_percent plan (pos monthly))
  pub insurance_once : b.insurance_cost_cents ≡ pos insurance
  pub fund_each_time : b.guarantee_fund_cost_cents ≡ pos (fund * count)
  pub total : b.total_cost_cents ≡ plan.admin_tax_value_cents +ℤ pos (insurance + fund * count)

-- For at least one deposit of a positive amount below the limit, and percentages of fewer than seven
-- digits, the cost is computed: the administrative tax, the insurance on one deposit and the
-- guarantee fund on every deposit, each share being the nearest cent.
pub calculate_cost_adds_up :
    (plan : Plan) (count monthly : ℕ)
    → 0 < count
    → 0 < monthly
    → monthly < amount_limit
    → plan.insurance_percent.coef < 10 ^ 6
    → (select_guarantee_fund_percent plan (pos monthly)).coef < 10 ^ 6
    → (b : CostBreakdown) × (calculate_cost plan (pos count) (pos monthly) ≡ ok b)
      × IsCostOf plan count monthly b
unfolding calculate_cost from_cents
calculate_cost_adds_up plan count monthly some_count some_amount below i f =
    let many : ltb_ℤ (pos count) (pos 1) ≡ false = ground arith in
    let much : leb_ℤ (pos monthly) (pos 0) ≡ false = ground arith in
    let percent = select_guarantee_fund_percent plan (pos monthly) in
    let insurance = fundo_share plan.insurance_percent monthly in
    let fund = fundo_share percent monthly in
    (
      record {
        total_cost_cents = plan.admin_tax_value_cents +ℤ pos insurance +ℤ (pos fund *ℤ pos count);
        admin_tax_value_cents = plan.admin_tax_value_cents;
        insurance_cost_cents = pos insurance;
        guarantee_fund_cost_cents = pos fund *ℤ pos count;
        guarantee_fund_percent = percent;
        monthly_amount_cents = pos monthly;
        deposit_count = pos count;
      },
      rw
          (
            many,
            much,
            share_lem monthly plan.insurance_percent below i,
            share_lem monthly percent below f,
          )
          refl,
      record {
        insurance = insurance;
        fund = fund;
        insurance_nearest = share-IsNearestShare monthly plan.insurance_percent;
        fund_nearest = share-IsNearestShare monthly percent;
        insurance_once = refl;
        fund_each_time = product_pos fund count;
        total =
            rw (product_pos fund count)
              (total_pos plan.admin_tax_value_cents insurance (fund * count));
      },
    )
