-- ===== src/Analytics/OneStatement.antt =====
-- The queries of all tools, whatever the model asks for.
use grounded_ops_agent.Analytics.{
  max_group_by, max_filters, allowed_metrics, value, Query, Clauses, agg_expr, filter_clauses,
  time_clause, aggregate_query, text_clause, metric_query, timeseries_query, record_query,
}
use grounded_ops_agent.Analytics.Plain.{
  is_plain, plain-append, plain-join, policy-plain, all-listed, filter_clauses-plain,
  time_clause-plain,
}
use grounded_ops_agent.Analytics.Statement.{
  agg_expr-plain, IsOneStatement, aggregate_sql-IsOneStatement, text_clause-plain,
  metric_sql-IsOneStatement, granularity-plain, series_sql-IsOneStatement,
}
use grounded_ops_agent.Analytics.Whitelisted.{aggregate_query-IsChecked}
use grounded_ops_agent.Core.Errors.{Result, ok, raise, >>=-eq-ok}
use grounded_ops_agent.Core.Settings.{check}
use grounded_ops_agent.Llm.Types.{Json, string}
use grounded_ops_agent.Prelude.{
  ℕ, ◌≡◌, refl, subst, not, Option, List, [], ◌∷◌, ◌++◌, arith, ltb, length, Text, nat_eq, text_eq,
  contains, all-contains,
}
use grounded_ops_agent.Prelude.Dict.{keys}
use grounded_ops_agent.Security.Whitelist.{
  allowed_agg, policy, validate_agg, validate_group_by, validate_filter_keys, validate_granularity,
}
use grounded_ops_agent.Text.Chars.{codes}
use grounded_ops_agent.Text.Words.{join}

-- The arguments of the tools that query the database.
pub data ToolRequest : Type 0 where
  aggregate_request :
      (table : Text) (group_by : List Text) (agg_fn : Text) (column : Option Text)
      (filters : List (Text × Json)) (start until : Option Text)
      → ToolRequest
  metric_request : (metric : Text) (severity service start until : Option Text) → ToolRequest
  timeseries_request :
      (metric_name : Text) (service : Option Text) (granularity : Text) (start until : Option Text)
      → ToolRequest
  record_request : (table record_id : Text) → ToolRequest

module _ {D : Type 0} (iso : Text → Option D) (max_rows : ℕ) where
  -- What each tool hands to the database.
  unfoldable pub query_for : ToolRequest → Result (Query D)
  unfolding aggregate_query metric_query timeseries_query record_query
  query_for (aggregate_request table group_by agg_fn column filters start until) =
      aggregate_query iso table group_by agg_fn column filters start until max_rows
  query_for (metric_request metric severity service start until) =
      metric_query iso metric severity service start until
  query_for (timeseries_request metric_name service granularity start until) =
      timeseries_query iso metric_name service granularity start until max_rows
  query_for (record_request table record_id) = record_query iso table record_id

  abbrev sql_or : Result (Query D) → Text
  sql_or (ok q) = q.sql
  sql_or (raise e) = []

  aggregate_query-IsOneStatement :
      (table : Text) (group_by : List Text) (agg_fn : Text) (column : Option Text)
      (filters : List (Text × Json)) (start until : Option Text) (q : Query D)
      → aggregate_query iso table group_by agg_fn column filters start until max_rows ≡ ok q
      → IsOneStatement q.sql
  unfolding aggregate_query
  aggregate_query-IsOneStatement table group_by agg_fn column filters start until q made =
      let (w, few, few_) =
        aggregate_query-IsChecked iso table group_by agg_fn column filters start until max_rows q
          made in
      let p_plain = policy-plain table w.listed in
      let groups = all-listed w.table_policy.group_by group_by (ground arith) w.grouped in
      let names =
        all-listed w.table_policy.filter_columns (keys filters) (ground arith) w.filtered in
      let agg = all-contains is_plain allowed_agg agg_fn refl w.aggregate in
      let (_, _, h1) = >>=-eq-ok (check (ltb max_group_by (length group_by)) _) _ made in
      let (_, _, h2) = >>=-eq-ok (check (ltb max_filters (length filters)) _) _ h1 in
      let (_, _, h3) = >>=-eq-ok (policy table) _ h2 in
      let (_, _, h4) = >>=-eq-ok (validate_agg agg_fn) _ h3 in
      let (_, _, h5) = >>=-eq-ok (validate_group_by table group_by) _ h4 in
      let (_, _, h6) = >>=-eq-ok (validate_filter_keys table (keys filters)) _ h5 in
      let (expr, shown, h7) = >>=-eq-ok (agg_expr table agg_fn column) _ h6 in
      let ((where_, params), bounded, out) =
        >>=-eq-ok (time_clause iso table start until (filter_clauses 0 filters)) _ h7 in
      subst (λ r. IsOneStatement (sql_or r)) out
        (aggregate_sql-IsOneStatement table group_by expr where_ max_rows (ground arith) groups
          (agg_expr-plain table agg_fn column w.table_policy w.listed agg shown)
          (time_clause-plain iso table start until (filter_clauses 0 filters)
            (filter_clauses-plain D 0 filters names) bounded))

  metric_query-IsOneStatement :
      (metric : Text) (severity service start until : Option Text) (q : Query D)
      → metric_query iso metric severity service start until ≡ ok q
      → IsOneStatement q.sql
  unfolding metric_query
  metric_query-IsOneStatement metric severity service start until q made =
      let first =
        text_clause iso (codes "severity = :sev") (codes "sev") severity (codes "1=1" ∷ [], []) in
      let both = text_clause iso (codes "service = :svc") (codes "svc") service first in
      let (_, _, h1) = >>=-eq-ok (check (not (contains allowed_metrics metric)) _) _ made in
      let ((where_, params), bounded, out) =
        >>=-eq-ok (time_clause iso (codes "incidents") start until both) _ h1 in
      let clauses_plain =
        time_clause-plain iso (codes "incidents") start until both
          (text_clause-plain iso (codes "service = :svc") (codes "svc") service first refl (
            text_clause-plain iso (codes "severity = :sev") (codes "sev") severity
              (codes "1=1" ∷ [], []) refl refl))
          bounded in
      subst (λ r. IsOneStatement (sql_or r)) out
        (metric_sql-IsOneStatement iso metric (join (codes " AND ") where_)
          (plain-join (codes " AND ") where_ refl clauses_plain))

  timeseries_query-IsOneStatement :
      (metric_name : Text) (service : Option Text) (granularity : Text) (start until : Option Text)
      (q : Query D)
      → timeseries_query iso metric_name service granularity start until max_rows ≡ ok q
      → IsOneStatement q.sql
  unfolding timeseries_query
  timeseries_query-IsOneStatement metric_name service granularity start until q made =
      let first : Clauses D =
        (codes "metric_name = :metric" ∷ [], (codes "metric", value (string metric_name)) ∷ []) in
      let both = text_clause iso (codes "service = :svc") (codes "svc") service first in
      let (_, valid, h1) = >>=-eq-ok (validate_granularity granularity) _ made in
      let ((where_, params), bounded, out) =
        >>=-eq-ok (time_clause iso (codes "metrics_daily") start until both) _ h1 in
      let clauses_plain =
        time_clause-plain iso (codes "metrics_daily") start until both
          (text_clause-plain iso (codes "service = :svc") (codes "svc") service first refl refl)
          bounded in
      subst (λ r. IsOneStatement (sql_or r)) out
        (series_sql-IsOneStatement granularity (join (codes " AND ") where_) max_rows
          (granularity-plain granularity valid)
          (plain-join (codes " AND ") where_ refl clauses_plain))

  record_query-IsOneStatement :
      (table record_id : Text) (q : Query D)
      → record_query iso table record_id ≡ ok q
      → IsOneStatement q.sql
  unfolding record_query
  record_query-IsOneStatement table record_id q made =
      let (p, found, out) = >>=-eq-ok (policy table) _ made in
      let p_plain = policy-plain table found in
      let rest = codes " WHERE id = :id LIMIT 1" in
      subst (λ r. IsOneStatement (sql_or r)) out
        (
          refl,
          plain-append (codes "SELECT * FROM " ++ table) rest
              (plain-append (codes "SELECT * FROM ") table refl (ground arith)) refl,
        )

  -- Every query that a tool hands to the database is one `SELECT`: its text begins with `SELECT` and
  -- has no semicolon, whatever the model asks for.
  pub query_for-IsOneStatement :
      (request : ToolRequest) (q : Query D) → query_for request ≡ ok q → IsOneStatement q.sql
  unfolding query_for
  query_for-IsOneStatement (aggregate_request table group_by agg_fn column filters start until) q
        h =
      aggregate_query-IsOneStatement table group_by agg_fn column filters start until q h
  query_for-IsOneStatement (metric_request metric severity service start until) q h =
      metric_query-IsOneStatement metric severity service start until q h
  query_for-IsOneStatement (timeseries_request metric_name service granularity start until) q h =
      timeseries_query-IsOneStatement metric_name service granularity start until q h
  query_for-IsOneStatement (record_request table record_id) q h =
      record_query-IsOneStatement table record_id q h
