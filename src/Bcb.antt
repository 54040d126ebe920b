-- ===== src/Bcb.antt =====
-- app/infrastructure/bcb/client.py and app/infrastructure/db/repositories/yield_data_repository.py:
-- the rates of the Banco Central, asked for over HTTP and kept in a table. What the API answers is
-- a parameter; the numbers in it are read by the caller of `fetch_yield_data`'s request.
use blanco_financas_api.Prelude.{
  if◌then◌else◌, Bool, ◌&&◌, not, List, [], ◌∷◌, map, any_by, filter_by,
}
use blanco_financas_api.Errors.{
  Result, ok, err, ◌>>◌, raise_if, bcb_unavailable, bcb_invalid_date_range,
}
use blanco_financas_api.Decimal.{Decimal, div_hundred}
use blanco_financas_api.Calendar.{Date, ltb_date}
use blanco_financas_api.Yields.{SgsSeries, YieldData, same_series, same_date}
use blanco_financas_api.Store.{Store}

-- `SGSDataPoint`, once its strings are read
pub record SgsDataPoint : Type 0 where
  pub reference_date : Date
  pub rate : Decimal

-- What the request to the API ends in: a list of points, a 404, or a time-out, another status or a
-- broken connection.
pub data BcbAnswer : Type 0 where
  answered : List SgsDataPoint → BcbAnswer
  nothing_published : BcbAnswer
  unavailable : BcbAnswer

-- The API: what it answers for a series and a range of dates.
abbrev pub BcbApi : Type 0
BcbApi = SgsSeries → Date → Date → BcbAnswer

-- The rates come as percentages.
unfoldable pub read_answer : SgsSeries → BcbAnswer → Result (List YieldData)
read_answer series (answered points) = ok (
    map
      (λ p. record {
        series_id = series;
        reference_date = p.reference_date;
        rate = div_hundred p.rate;
      })
      points)
read_answer series nothing_published = ok []
read_answer series unavailable = err bcb_unavailable

unfoldable pub fetch_yield_data : BcbApi → SgsSeries → Date → Date → Result (List YieldData)
unfolding read_answer
fetch_yield_data api series start end = do
  raise_if (ltb_date end start) bcb_invalid_date_range
  read_answer series (api series start end)

-- `get_range`, but for the order: the rows of one series have different dates.
unfoldable pub get_range : SgsSeries → Date → Date → Store → List YieldData
get_range series start end db =
    filter_by
      (λ d.
        same_series d.series_id series
        && (not (ltb_date d.reference_date start) && not (ltb_date end d.reference_date)))
      db.yield_data

-- `get_by_date_and_series`, as a test
abbrev is_stored : YieldData → List YieldData → Bool
is_stored d rows =
    any_by (λ x. same_date x.reference_date d.reference_date && same_series x.series_id d.series_id)
      rows

-- `save`: a rate that is there stays.
unfoldable pub save_yield_data : YieldData → Store → Store
save_yield_data d db = record db {
  yield_data = if is_stored d db.yield_data then db.yield_data else d ∷ db.yield_data;
}

-- `for data in pre_data: await self._yield_data_repo.save(data)`
unfoldable pub save_yield_batch : List YieldData → Store → Store
unfolding save_yield_data
save_yield_batch [] db = db
save_yield_batch (d ∷ ds) db = save_yield_batch ds (save_yield_data d db)
