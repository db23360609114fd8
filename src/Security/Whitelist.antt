-- ===== src/Security/Whitelist.antt =====
-- src/app/security/whitelist.py. A frozenset is a list; it is only asked for members.
pub mod Schema
use grounded_ops_agent.Core.Errors.{tool_error, Result, ok, raise, ◌>>=◌}
use grounded_ops_agent.Prelude.{
  Option, none, some, List, [], ◌∷◌, ◌++◌, if◌then◌else◌, nat_eq, Text, text_eq, contains,
}
use grounded_ops_agent.Prelude.Dict.{lookup}
use grounded_ops_agent.Text.Chars.{codes}

abbrev pub allowed_agg : List Text
allowed_agg = codes "count" ∷ codes "sum" ∷ codes "avg" ∷ codes "min" ∷ codes "max" ∷ []

abbrev pub allowed_granularity : List Text
allowed_granularity = codes "day" ∷ codes "week" ∷ codes "month" ∷ []

pub record TablePolicy : Type 0 where
  pub columns : List Text
  pub numeric_columns : List Text
  pub group_by : List Text
  pub filter_columns : List Text
  pub time_column : Option Text

abbrev incidents_policy : TablePolicy
incidents_policy = record {
  columns =
      codes "id"
      ∷ codes "severity"
      ∷ codes "service"
      ∷ codes "opened_at"
      ∷ codes "resolved_at"
      ∷ codes "root_cause_category"
      ∷ codes "customer_id"
      ∷ [];
  numeric_columns = [];
  group_by = codes "severity" ∷ codes "service" ∷ codes "root_cause_category" ∷ [];
  filter_columns =
      codes "severity" ∷ codes "service" ∷ codes "root_cause_category" ∷ codes "customer_id" ∷ [];
  time_column = some (codes "opened_at");
}

abbrev tickets_policy : TablePolicy
tickets_policy = record {
  columns =
      codes "id"
      ∷ codes "title"
      ∷ codes "priority"
      ∷ codes "status"
      ∷ codes "customer_id"
      ∷ codes "created_at"
      ∷ codes "resolved_at"
      ∷ [];
  numeric_columns = [];
  group_by = codes "priority" ∷ codes "status" ∷ [];
  filter_columns = codes "priority" ∷ codes "status" ∷ codes "customer_id" ∷ [];
  time_column = some (codes "created_at");
}

abbrev metrics_daily_policy : TablePolicy
metrics_daily_policy = record {
  columns = codes "id" ∷ codes "date" ∷ codes "service" ∷ codes "metric_name" ∷ codes "value" ∷ [];
  numeric_columns = codes "value" ∷ [];
  group_by = codes "service" ∷ codes "metric_name" ∷ [];
  filter_columns = codes "service" ∷ codes "metric_name" ∷ [];
  time_column = some (codes "date");
}

abbrev customers_policy : TablePolicy
customers_policy = record {
  columns =
      codes "id"
      ∷ codes "name"
      ∷ codes "plan"
      ∷ codes "region"
      ∷ codes "sla_id"
      ∷ codes "created_at"
      ∷ [];
  numeric_columns = [];
  group_by = codes "plan" ∷ codes "region" ∷ [];
  filter_columns = codes "plan" ∷ codes "region" ∷ codes "sla_id" ∷ [];
  time_column = some (codes "created_at");
}

abbrev slas_policy : TablePolicy
slas_policy = record {
  columns =
      codes "id"
      ∷ codes "name"
      ∷ codes "tier"
      ∷ codes "target_resolution_minutes"
      ∷ codes "uptime_target_pct"
      ∷ [];
  numeric_columns = codes "target_resolution_minutes" ∷ codes "uptime_target_pct" ∷ [];
  group_by = codes "tier" ∷ [];
  filter_columns = codes "tier" ∷ [];
  time_column = none;
}

unfoldable pub allowed : List (Text × TablePolicy)
allowed =
    (codes "incidents", incidents_policy)
    ∷ (codes "tickets", tickets_policy)
    ∷ (codes "metrics_daily", metrics_daily_policy)
    ∷ (codes "customers", customers_policy)
    ∷ (codes "slas", slas_policy)
    ∷ []

unfoldable pub policy : Text → Result TablePolicy
policy table = elim (lookup table allowed) [
  | none ↦ raise (
      tool_error (
        codes "table '"
        ++ table
        ++ codes "' is not allowed (whitelisted: "
        ++ codes "['customers', 'incidents', 'metrics_daily', 'slas', 'tickets'])"))
  | some p ↦ ok p
]

unfoldable pub validate_agg : Text → Result Text
validate_agg agg_fn =
    if contains allowed_agg agg_fn
    then ok agg_fn
    else raise (
        tool_error (
          codes "aggregate '"
          ++ agg_fn
          ++ codes "' is not allowed (allowed: ['avg', 'count', 'max', 'min', 'sum'])"))

-- The first of the columns that is not allowed raises, with the words before and behind it.
unfoldable pub check_columns : List Text → (before after : Text) → List Text → Result (List Text)
check_columns allowed_columns before after [] = ok []
check_columns allowed_columns before after (col ∷ cols) =
    let rest = check_columns allowed_columns before after cols in
    if contains allowed_columns col
    then (do cols' ← rest; ok (col ∷ cols'))
    else raise (tool_error (before ++ col ++ after))

unfoldable pub validate_group_by : Text → List Text → Result (List Text)
validate_group_by table columns = do
  p ← policy table
  check_columns p.group_by (codes "group_by '")
      (codes "' is not allowed on '" ++ table ++ codes "'") columns

unfoldable pub validate_filter_keys : Text → List Text → Result (List Text)
validate_filter_keys table ks = do
  p ← policy table
  check_columns p.filter_columns (codes "filter column '")
      (codes "' is not allowed on '" ++ table ++ codes "'") ks

unfoldable pub validate_numeric_column : Text → Text → Result Text
validate_numeric_column table column = do
  p ← policy table
  if contains p.numeric_columns column
      then ok column
      else raise (
          tool_error (
            codes "column '"
            ++ column
            ++ codes "' is not an aggregatable numeric column on '"
            ++ table
            ++ codes "'"))

unfoldable pub validate_granularity : Text → Result Text
validate_granularity granularity =
    if contains allowed_granularity granularity
    then ok granularity
    else raise (
        tool_error (
          codes "granularity '"
          ++ granularity
          ++ codes "' is not allowed (allowed: ['day', 'month', 'week'])"))
