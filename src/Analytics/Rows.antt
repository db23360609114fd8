-- ===== src/Analytics/Rows.antt =====
-- src/app/mcp_server/analytics.py: the rows of a query as JSON, and the four functions that execute
-- the queries. The database, `float` and `isoformat` are parameters.
use grounded_ops_agent.Core.Errors.{◌>>=◌}
use grounded_ops_agent.Analytics.{
  Query, aggregate_query, metric_query, timeseries_query, record_query,
}
use grounded_ops_agent.Core.Errors.{type_error, external, Result, ok, raise, traverse}
use grounded_ops_agent.Llm.Types.{Json}
use grounded_ops_agent.Prelude.{ℕ, Option, none, some, List, [], ◌∷◌, map, Text, nat_eq, text_eq}
use grounded_ops_agent.Prelude.Dict.{lookup}
use grounded_ops_agent.Prelude.Float.{Float}
use grounded_ops_agent.Text.Chars.{codes}

-- A value of a row: a `Decimal`, a `datetime`, `None` or another value.
pub data Cell (N D V : Type 0) : Type 0 where
  null_cell : Cell N D V
  decimal_cell : N → Cell N D V
  datetime_cell : D → Cell N D V
  other_cell : V → Cell N D V

-- A value that JSON has.
pub data Plain (V : Type 0) : Type 0 where
  plain_null : Plain V
  plain_float : Float → Plain V
  plain_text : Text → Plain V
  plain_other : V → Plain V

pub record Database (N D V : Type 0) : Type 0 where
  pub execute : Query D → Result (List (List (Text × Cell N D V)))
  pub fromisoformat : Text → Option D
  pub isoformat : D → Text
  -- `float` of a `Decimal`, and of another value, which may raise
  pub float_of : N → Float
  pub float_of_other : V → Result Float

pub record MetricResult : Type 0 where
  pub metric : Text
  pub severity : Option Text
  pub service : Option Text
  pub start : Option Text
  pub until : Option Text
  pub value : Option Float

module _ {N D V : Type 0} (db : Database N D V) where
  unfoldable pub jsonable : Cell N D V → Plain V
  jsonable null_cell = plain_null
  jsonable (decimal_cell n) = plain_float (db.float_of n)
  jsonable (datetime_cell d) = plain_text (db.isoformat d)
  jsonable (other_cell v) = plain_other v

  unfoldable pub row_to_json : List (Text × Cell N D V) → List (Text × Plain V)
  unfolding jsonable
  row_to_json mapping = map (λ (kv : Text × Cell N D V). (kv.0, jsonable kv.1)) mapping

  -- `row.<name>`, for a column that the query names.
  unfoldable pub column_of : Text → List (Text × Cell N D V) → Result (Cell N D V)
  unfolding lookup
  column_of name row = elim (lookup name row) [
    | none ↦ raise (external (codes "AttributeError"))
    | some c ↦ ok c
  ]

  -- `float(value)`
  unfoldable pub float_cell : Cell N D V → Result Float
  float_cell null_cell = raise type_error
  float_cell (decimal_cell n) = ok (db.float_of n)
  float_cell (datetime_cell d) = raise type_error
  float_cell (other_cell v) = db.float_of_other v

  -- `float(value) if value is not None else None`
  unfoldable pub float_or_none : Cell N D V → Result (Option Float)
  unfolding float_cell
  float_or_none null_cell = ok none
  float_or_none (decimal_cell n) = float_cell (decimal_cell n) >>= λ x. ok (some x)
  float_or_none (datetime_cell d) = float_cell (datetime_cell d) >>= λ x. ok (some x)
  float_or_none (other_cell v) = float_cell (other_cell v) >>= λ x. ok (some x)

  unfoldable pub run_aggregate :
      (table : Text) (group_by : List Text) (agg_fn : Text) (column : Option Text)
      (filters : List (Text × Json)) (start until : Option Text) (max_rows : ℕ)
      → Result (List (List (Text × Plain V)))
  unfolding aggregate_query row_to_json
  run_aggregate table group_by agg_fn column filters start until max_rows = do
    query ←
        aggregate_query db.fromisoformat table group_by agg_fn column filters start until max_rows
    rows ← db.execute query
    ok (map row_to_json rows)

  -- The value of the first row, if there is one.
  unfoldable pub first_value : List (List (Text × Cell N D V)) → Result (Option Float)
  unfolding column_of float_or_none
  first_value [] = ok none
  first_value (row ∷ rows) = column_of (codes "value") row >>= float_or_none

  unfoldable pub run_query_metric :
      (metric : Text) (severity service start until : Option Text) → Result MetricResult
  unfolding metric_query first_value
  run_query_metric metric severity service start until = do
    query ← metric_query db.fromisoformat metric severity service start until
    rows ← db.execute query
    v ← first_value rows
    ok (record {
      metric = metric;
      severity = severity;
      service = service;
      start = start;
      until = until;
      value = v;
    })

  -- `bucket` and `value` of a row of the series.
  unfoldable pub bucket_of : List (Text × Cell N D V) → Result (Plain V × Float)
  unfolding column_of jsonable float_cell
  bucket_of row = do
    bucket ← column_of (codes "bucket") row
    v ← column_of (codes "value") row
    x ← float_cell v
    ok (jsonable bucket, x)

  unfoldable pub run_timeseries :
      (metric_name : Text) (service : Option Text) (granularity : Text) (start until : Option Text)
      (max_rows : ℕ)
      → Result (List (Plain V × Float))
  unfolding timeseries_query bucket_of
  run_timeseries metric_name service granularity start until max_rows = do
    query ← timeseries_query db.fromisoformat metric_name service granularity start until max_rows
    rows ← db.execute query
    traverse bucket_of rows

  unfoldable pub get_record : (table record_id : Text) → Result (Option (List (Text × Plain V)))
  unfolding record_query row_to_json
  get_record table record_id = do
    query ← record_query db.fromisoformat table record_id
    rows ← db.execute query
    ok (elim rows [ [] ↦ none | row ∷ rest ↦ some (row_to_json row) ])
