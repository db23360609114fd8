-- ===== src/Analytics.antt =====
-- src/app/mcp_server/analytics.py: the queries, as the SQL text and the bound parameters that are
-- handed to the database. The database itself is a parameter.
pub mod Whitelisted
pub mod Rendered
pub mod Rows
pub mod Plain
pub mod Statement
pub mod OneStatement
pub mod Tests
use grounded_ops_agent.Core.Errors.{tool_error, Result, ok, raise, ◌>>=◌, ◌>>◌}
use grounded_ops_agent.Core.Settings.{check}
use grounded_ops_agent.Llm.Types.{Json, string}
use grounded_ops_agent.Prelude.{
  ℕ, suc, Bool, true, false, not, ◌||◌, Option, none, some, List, [], ◌∷◌, ◌++◌, ltb, if◌then◌else◌,
  length, ◌==◌, Text, nat_eq, text_eq, contains,
}
use grounded_ops_agent.Prelude.Dict.{keys, insert}
use grounded_ops_agent.Security.Whitelist.{
  policy, validate_agg, validate_group_by, validate_filter_keys, validate_numeric_column,
  validate_granularity,
}
use grounded_ops_agent.Text.Chars.{codes}
use grounded_ops_agent.Text.Decimal.{decimal}
use grounded_ops_agent.Text.Words.{join}

abbrev pub max_group_by : ℕ
max_group_by = 3

abbrev pub max_filters : ℕ
max_filters = 8

abbrev pub allowed_metrics : List Text
allowed_metrics =
    codes "avg_resolution_minutes"
    ∷ codes "p50_resolution_minutes"
    ∷ codes "incident_count"
    ∷ codes "unresolved_count"
    ∷ []

-- A bound parameter: a value from the request or a parsed time stamp.
pub data Param (D : Type 0) : Type 0 where
  value : Json → Param D
  moment : D → Param D

pub record Query (D : Type 0) : Type 0 where
  pub sql : Text
  pub params : List (Text × Param D)

-- A WHERE list and the parameters that it binds.
abbrev pub Clauses : Type 0 → Type 0
Clauses D = List Text × List (Text × Param D)

abbrev pub is_given : {A : Type 0} → Option A → Bool
is_given none = false
is_given (some a) = true

-- `column or ""`
abbrev pub or_empty : Option Text → Text
or_empty none = []
or_empty (some c) = c

-- `{column}`
abbrev pub show_option : Option Text → Text
show_option none = codes "None"
show_option (some c) = c

unfoldable pub agg_expr : Text → Text → Option Text → Result Text
agg_expr table agg_fn column =
    let validated = (do
      validate_numeric_column table (or_empty column)
      ok (agg_fn ++ codes "(" ++ show_option column ++ codes ")")) in
    if agg_fn == codes "count" then ok (codes "count(*)") else validated

module _ {D : Type 0} where
  -- `{key} = :v{i}` for the filters from the one numbered `i` on.
  unfoldable pub filter_clauses : ℕ → List (Text × Json) → Clauses D
  filter_clauses i [] = ([], [])
  filter_clauses i ((key, v) ∷ filters) =
      let (where_, params) = filter_clauses (suc i) filters in
      ((key ++ codes " = :v" ++ decimal i) ∷ where_, (codes "v" ++ decimal i, value v) ∷ params)

-- `before` and the joined parts, or nothing for no parts.
abbrev pub section : (before sep : Text) → List Text → Text
section before sep [] = []
section before sep (p ∷ ps) = before ++ join sep (p ∷ ps)

unfoldable pub aggregate_sql : Text → List Text → Text → List Text → ℕ → Text
unfolding join decimal
aggregate_sql table group_by expr where_ max_rows =
    codes "SELECT "
    ++ join (codes ", ") (group_by ++ (expr ++ codes " AS agg_value") ∷ [])
    ++ codes " FROM "
    ++ table
    ++ section (codes " WHERE ") (codes " AND ") where_
    ++ section (codes " GROUP BY ") (codes ", ") group_by
    ++ codes " ORDER BY agg_value DESC NULLS LAST LIMIT "
    ++ decimal max_rows

-- `fromisoformat` stands for `datetime.fromisoformat` with the time zone set where there is none.
module _ {D : Type 0} (fromisoformat : Text → Option D) where
  unfoldable pub parse_dt : Text → Result D
  parse_dt v = elim (fromisoformat v) [
    | none ↦ raise (tool_error (codes "invalid datetime '" ++ v ++ codes "', expected ISO 8601"))
    | some d ↦ ok d
  ]

  -- One end of the interval: its clause and its parameter, if it is given.
  unfoldable pub bound_clause : (clause name : Text) → Option Text → Clauses D → Result (Clauses D)
  bound_clause clause name none c = ok c
  bound_clause clause name (some v) (where_, params) = do
    d ← parse_dt v
    ok (where_ ++ clause ∷ [], insert name (moment d) params)

  unfoldable pub time_bounds : Text → Option Text → Option Text → Clauses D → Result (Clauses D)
  time_bounds time_column start end c = do
    c' ← bound_clause (time_column ++ codes " >= :start") (codes "start") start c
    bound_clause (time_column ++ codes " <= :end") (codes "end") end c'

  -- `_time_clause` where an end is given.
  unfoldable pub timed :
      Text → Option Text → Option Text → Option Text → Clauses D → Result (Clauses D)
  timed table none start end c =
      raise (tool_error (codes "table '" ++ table ++ codes "' has no time column to filter on"))
  timed table (some time_column) start end c = time_bounds time_column start end c

  unfoldable pub time_clause : Text → Option Text → Option Text → Clauses D → Result (Clauses D)
  time_clause table start end c =
      let bounded = (do p ← policy table; timed table p.time_column start end c) in
      if is_given start || is_given end then bounded else ok c

  -- What `run_aggregate` hands to the database. `filters` is an empty list for `None`.
  unfoldable pub aggregate_query :
      (table : Text) (group_by : List Text) (agg_fn : Text) (column : Option Text)
      (filters : List (Text × Json)) (start end : Option Text) (max_rows : ℕ)
      → Result (Query D)
  aggregate_query table group_by agg_fn column filters start end max_rows = do
    check (ltb max_group_by (length group_by))
        (tool_error (codes "too many group_by columns (max 3)"))
    check (ltb max_filters (length filters)) (tool_error (codes "too many filters (max 8)"))
    policy table
    validate_agg agg_fn
    validate_group_by table group_by
    validate_filter_keys table (keys filters)
    expr ← agg_expr table agg_fn column
    (where_, params) ← time_clause table start end (filter_clauses 0 filters)
    ok (record { sql = aggregate_sql table group_by expr where_ max_rows; params = params })

  -- `run_query_metric`: the metric is one of four, each with its own text.
  abbrev pub resolution : Text
  resolution = codes "extract(epoch from (resolved_at - opened_at)) / 60.0"

  abbrev pub metric_sql : (metric clause : Text) → Text
  metric_sql metric clause =
      if metric == codes "avg_resolution_minutes"
      then codes "SELECT avg("
        ++ resolution
        ++ codes ") AS value FROM incidents WHERE resolved_at IS NOT NULL AND "
        ++ clause
      else if metric == codes "p50_resolution_minutes"
      then codes "SELECT percentile_cont(0.5) WITHIN GROUP (ORDER BY "
        ++ resolution
        ++ codes ") AS value FROM incidents WHERE resolved_at IS NOT NULL AND "
        ++ clause
      else if metric == codes "unresolved_count"
      then codes "SELECT count(*) AS value FROM incidents WHERE resolved_at IS NULL AND " ++ clause
      else codes "SELECT count(*) AS value FROM incidents WHERE " ++ clause

  -- A clause for a text that may be given.
  unfoldable pub text_clause : (clause name : Text) → Option Text → Clauses D → Clauses D
  text_clause clause name none c = c
  text_clause clause name (some v) (where_, params) =
      (where_ ++ clause ∷ [], insert name (value (string v)) params)

  unfoldable pub metric_query :
      (metric : Text) (severity service start until : Option Text) → Result (Query D)
  unfolding text_clause time_clause join
  metric_query metric severity service start until = do
    check (not (contains allowed_metrics metric)) (
        tool_error (
          codes "metric '"
          ++ metric
          ++ codes "' is not allowed (allowed: ['avg_resolution_minutes', 'incident_count', "
          ++ codes "'p50_resolution_minutes', 'unresolved_count'])"))
    (where_, params) ← time_clause (codes "incidents") start until (
        text_clause (codes "service = :svc") (codes "svc") service
          (text_clause (codes "severity = :sev") (codes "sev") severity (codes "1=1" ∷ [], [])))
    ok (record { sql = metric_sql metric (join (codes " AND ") where_); params = params })

  -- `run_timeseries`
  unfoldable pub timeseries_query :
      (metric_name : Text) (service : Option Text) (granularity : Text) (start until : Option Text)
      (max_rows : ℕ)
      → Result (Query D)
  unfolding validate_granularity text_clause time_clause join decimal
  timeseries_query metric_name service granularity start until max_rows = do
    validate_granularity granularity
    (where_, params) ← time_clause (codes "metrics_daily") start until (
        text_clause (codes "service = :svc") (codes "svc") service
          (codes "metric_name = :metric" ∷ [], (codes "metric", value (string metric_name)) ∷ []))
    ok (record {
      sql =
          codes "SELECT date_trunc('"
          ++ granularity
          ++ codes "', date) AS bucket, avg(value) AS value FROM metrics_daily WHERE "
          ++ join (codes " AND ") where_
          ++ codes " GROUP BY bucket ORDER BY bucket LIMIT "
          ++ decimal max_rows;
      params = params;
    })

  -- `get_record`
  unfoldable pub record_query : (table record_id : Text) → Result (Query D)
  unfolding policy
  record_query table record_id = do
    policy table
    ok (record {
      sql = codes "SELECT * FROM " ++ table ++ codes " WHERE id = :id LIMIT 1";
      params = (codes "id", value (string record_id)) ∷ [];
    })
