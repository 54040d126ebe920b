-- ===== src/Yields.antt =====
-- app/domain/services/poupanca_yield_calculator.py, with the data of
-- app/domain/entities/yield_data.py. The days that a deposit has accrued are for the reader and are
-- left out; the difference of two dates that `_days_in_month` takes is the length of the month.
pub mod Months
use blanco_financas_api.Prelude.{
  ℕ, zero, suc, ◌+◌, ◌-◌, ◌*◌, min, ltb, ◌==◌, if◌then◌else◌, Bool, true, false, ◌&&◌, Option, none,
  some, List, [], ◌∷◌,
}
use blanco_financas_api.Errors.{Result, ok, err, ◌>>=◌, ◌>>◌, or_raise, raise_if, yield_calculation}
use blanco_financas_api.Decimal.{Decimal, decimal, mul, add, sub, quantize}
use blanco_financas_api.Money.{Money, amount, of_decimal, add_money, is_zero, zero_money}
use blanco_financas_api.Calendar.{Date, date, days_in_month, ltb_date, make_date}

pub data SgsSeries : Type 0 where
  pre_2012 post_2012 : SgsSeries

abbrev pub same_series : SgsSeries → SgsSeries → Bool
same_series pre_2012 pre_2012 = true
same_series post_2012 post_2012 = true
same_series _ _ = false

abbrev pub same_date : Date → Date → Bool
same_date a b = a.year == b.year && a.month == b.month && a.day == b.day

pub record YieldData : Type 0 where
  pub series_id : SgsSeries
  pub reference_date : Date
  pub rate : Decimal

-- `YieldData.get_series_for_date`
unfoldable pub series_for_date : Date → SgsSeries
series_for_date reference = if ltb_date reference (date 2012 5 4) then pre_2012 else post_2012

pub record YieldCalculationResult : Type 0 where
  pub principal : Money
  pub yield_amount : Money
  pub final_amount : Money
  pub start_date : Date
  pub end_date : Date
  pub series_id : SgsSeries
  pub effective_rate : Decimal

-- `_days_in_month`: the first day of the next month has to be a date.
unfoldable pub month_length : ℕ → ℕ → Result ℕ
month_length year month = do
  if month == 12 then make_date (year + 1) 1 1 else make_date year (month + 1) 1
  ok (days_in_month year month)

-- The months from one date to a later one, by the calendar alone.
abbrev pub months_apart : Date → Date → ℕ
months_apart start end = (end.year * 12 + end.month) - (start.year * 12 + start.month)

-- `_calculate_complete_months`
unfoldable pub complete_months : Date → Date → Result ℕ
unfolding month_length
complete_months start end = if ltb_date end start then ok 0 else do
  length ← month_length end.year end.month
  ok (
      if ltb end.day (min start.day length)
      then months_apart start end - 1
      else months_apart start end)

-- `_get_next_anniversary`
unfoldable pub next_anniversary : Date → Result Date
unfolding month_length
next_anniversary current =
    let year = if current.month == 12 then current.year + 1 else current.year in
    let month = if current.month == 12 then 1 else current.month + 1 in
    do length ← month_length year month; make_date year month (min current.day length)

-- `_get_monthly_rate`: a later entry of the dictionary replaces an earlier one.
unfoldable pub monthly_rate : List YieldData → Date → SgsSeries → Option Decimal
monthly_rate [] reference series = none
monthly_rate (d ∷ ds) reference series = elim (monthly_rate ds reference series) [
  | some rate ↦ some rate
  | none ↦
      if same_date d.reference_date reference && same_series d.series_id series
      then some d.rate
      else none
]

-- The loop over the complete months.
unfoldable pub accumulate : List YieldData → SgsSeries → ℕ → Date → Decimal → Result Decimal
unfolding next_anniversary monthly_rate
accumulate entries series zero current rate = ok rate
accumulate entries series (suc months) current rate = do
  next ← next_anniversary current
  monthly ← or_raise (monthly_rate entries current series) yield_calculation
  accumulate entries series months next (mul rate (add (decimal 1 0) monthly))

-- What a calculation without a yield returns.
abbrev no_yield : Money → Date → Date → YieldCalculationResult
no_yield principal start end = record {
  principal = principal;
  yield_amount = zero_money;
  final_amount = principal;
  start_date = start;
  end_date = end;
  series_id = series_for_date start;
  effective_rate = decimal 0 0;
}

-- The yield of at least one complete month.
unfoldable pub yield_of_months :
    List YieldData → Money → Date → Date → ℕ → Result YieldCalculationResult
unfolding accumulate
yield_of_months entries principal start end months = do
  accumulated ← accumulate entries (series_for_date start) months start (decimal 1 0)
  yield_rounded ← quantize 2 (mul (amount principal) (sub accumulated (decimal 1 0)))
  yield_amount ← of_decimal yield_rounded
  final_amount ← add_money principal yield_amount
  effective_rate ← quantize 8 (sub accumulated (decimal 1 0))
  ok (record {
    principal = principal;
    yield_amount = yield_amount;
    final_amount = final_amount;
    start_date = start;
    end_date = end;
    series_id = series_for_date start;
    effective_rate = effective_rate;
  })

-- `calculate_yield`
unfoldable pub calculate_yield :
    List YieldData → Money → Date → Date → Result YieldCalculationResult
unfolding complete_months yield_of_months
calculate_yield entries principal start end = do
  raise_if (ltb_date end start) yield_calculation
  if is_zero principal then ok (no_yield principal start end) else (do
    months ← complete_months start end
    if months == 0
        then ok (no_yield principal start end)
        else yield_of_months entries principal start end months)
