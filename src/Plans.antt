-- ===== src/Plans.antt =====
-- app/domain/entities/plan.py. The percentages are decimals, which are never negative here.
pub mod Update
use Prim.Native.Char.{code}
use blanco_financas_api.Prelude.{
  ℕ, leb, ◌==◌, Bool, true, false, not, ◌&&◌, ◌||◌, Option, none, some, is_some, String, ℤ, pos,
  ltb_ℤ,
}
use blanco_financas_api.Errors.{Result, ok, err, ◌>>◌, raise_if, value_error}
use blanco_financas_api.Decimal.{Decimal, decimal, leb_decimal}

pub record Plan : Type 0 where
  pub id : ℕ
  pub title : String
  pub description : String
  pub min_value_cents : ℤ
  pub max_value_cents : Option ℤ
  pub min_duration_months : ℤ
  pub max_duration_months : Option ℤ
  pub admin_tax_value_cents : ℤ
  pub insurance_percent : Decimal
  pub guarantee_fund_percent_1 : Decimal
  pub guarantee_fund_percent_2 : Decimal
  pub guarantee_fund_threshold_cents : ℤ
  pub active : Bool
  pub created_at : ℕ
  pub updated_at : ℕ
  pub deleted_at : Option ℕ

-- The characters that `str.strip` takes off.
unfoldable pub is_space : ℕ → Bool
is_space c =
    (leb 9 c && leb c 13)
    || (leb 28 c && leb c 32)
    || c == 133
    || c == 160
    || c == 5760
    || (leb 8192 c && leb c 8202)
    || c == 8232
    || c == 8233
    || c == 8239
    || c == 8287
    || c == 12288

-- `not title or not title.strip()`
unfoldable pub is_blank : String → Bool
unfolding is_space
is_blank String.[] = true
is_blank (String.◌∷◌ c s) = is_space (code c) && is_blank s

abbrev in_percent_range : Decimal → Bool
in_percent_range p = leb_decimal p (decimal 100 0)

-- The checks of a range whose upper end may be open.
abbrev range_refused : ℤ → Option ℤ → ℤ → Bool
range_refused low none least = ltb_ℤ low least
range_refused low (some high) least = ltb_ℤ low least || ltb_ℤ high least || ltb_ℤ high low

-- `_validate_invariants`: every check raises the same exception.
unfoldable pub validate_plan : Plan → Result Plan
unfolding is_blank
validate_plan p = do
  raise_if (range_refused p.min_value_cents p.max_value_cents (pos 0)) value_error
  raise_if (range_refused p.min_duration_months p.max_duration_months (pos 1)) value_error
  raise_if (ltb_ℤ p.admin_tax_value_cents (pos 0)) value_error
  raise_if (not (in_percent_range p.insurance_percent)) value_error
  raise_if (not (in_percent_range p.guarantee_fund_percent_1)) value_error
  raise_if (not (in_percent_range p.guarantee_fund_percent_2)) value_error
  raise_if (ltb_ℤ p.guarantee_fund_threshold_cents (pos 0)) value_error
  raise_if (is_blank p.title) value_error
  ok p

-- The configuration that `create` and `update` take.
pub record PlanConfig : Type 0 where
  pub title : String
  pub description : String
  pub min_value_cents : ℤ
  pub max_value_cents : Option ℤ
  pub min_duration_months : ℤ
  pub max_duration_months : Option ℤ
  pub admin_tax_value_cents : ℤ
  pub insurance_percent : Decimal
  pub guarantee_fund_percent_1 : Decimal
  pub guarantee_fund_percent_2 : Decimal
  pub guarantee_fund_threshold_cents : ℤ
  pub active : Bool

abbrev pub configure : PlanConfig → Plan → Plan
configure c p = record p {
  title = c.title;
  description = c.description;
  min_value_cents = c.min_value_cents;
  max_value_cents = c.max_value_cents;
  min_duration_months = c.min_duration_months;
  max_duration_months = c.max_duration_months;
  admin_tax_value_cents = c.admin_tax_value_cents;
  insurance_percent = c.insurance_percent;
  guarantee_fund_percent_1 = c.guarantee_fund_percent_1;
  guarantee_fund_percent_2 = c.guarantee_fund_percent_2;
  guarantee_fund_threshold_cents = c.guarantee_fund_threshold_cents;
  active = c.active;
}

unfoldable pub create_plan : ℕ → PlanConfig → ℕ → Result Plan
unfolding validate_plan
create_plan new_id c now = validate_plan (record {
  id = new_id;
  title = c.title;
  description = c.description;
  min_value_cents = c.min_value_cents;
  max_value_cents = c.max_value_cents;
  min_duration_months = c.min_duration_months;
  max_duration_months = c.max_duration_months;
  admin_tax_value_cents = c.admin_tax_value_cents;
  insurance_percent = c.insurance_percent;
  guarantee_fund_percent_1 = c.guarantee_fund_percent_1;
  guarantee_fund_percent_2 = c.guarantee_fund_percent_2;
  guarantee_fund_threshold_cents = c.guarantee_fund_threshold_cents;
  active = c.active;
  created_at = now;
  updated_at = now;
  deleted_at = none;
})

-- The twelve assignments of the `except` clause of `update`: the fields of `before`, on the plan
-- as it was left.
abbrev pub rollback : Plan → Plan → Plan
rollback before p = record p {
  title = before.title;
  description = before.description;
  min_value_cents = before.min_value_cents;
  max_value_cents = before.max_value_cents;
  min_duration_months = before.min_duration_months;
  max_duration_months = before.max_duration_months;
  admin_tax_value_cents = before.admin_tax_value_cents;
  insurance_percent = before.insurance_percent;
  guarantee_fund_percent_1 = before.guarantee_fund_percent_1;
  guarantee_fund_percent_2 = before.guarantee_fund_percent_2;
  guarantee_fund_threshold_cents = before.guarantee_fund_threshold_cents;
  active = before.active;
}

-- The plan after the call, and whether it raised.
unfoldable pub update_plan : PlanConfig → ℕ → Plan → Plan × Result (Unit {0})
unfolding validate_plan
update_plan c now p =
    let configured = configure c p in
    elim (validate_plan configured) [
      | ok valid ↦ (record valid { updated_at = now }, ok tt)
      | err e ↦ (rollback p configured, err e)
    ]

unfoldable pub activate_plan : ℕ → Plan → Plan
activate_plan now p = record p { active = true; updated_at = now }

unfoldable pub deactivate_plan : ℕ → Plan → Plan
deactivate_plan now p = record p { active = false; updated_at = now }

unfoldable pub is_active_plan : Plan → Bool
is_active_plan p = p.active && not (is_some p.deleted_at)

unfoldable pub soft_delete : ℕ → Plan → Result Plan
soft_delete now p = do
  raise_if (is_some p.deleted_at) value_error
  ok (record p { deleted_at = some now; updated_at = now })
