-- ===== src/Analytics/Tests.antt =====
-- A request for the most frequent root causes.
use grounded_ops_agent.Prelude.Equality.{text_beq}
use grounded_ops_agent.Analytics.{
  Query, agg_expr, filter_clauses, parse_dt, bound_clause, time_bounds, timed, time_clause,
  aggregate_query,
}
use grounded_ops_agent.Analytics.OneStatement.{
  aggregate_request, query_for, query_for-IsOneStatement,
}
use grounded_ops_agent.Analytics.Rendered.{aggregate_query-sql}
use grounded_ops_agent.Analytics.Statement.{IsOneStatement}
use grounded_ops_agent.Analytics.Whitelisted.{IsWhitelisted, aggregate_query-IsWhitelisted}
use grounded_ops_agent.Core.Errors.{Result, ok, raise}
use grounded_ops_agent.Llm.Types.{Json, string}
use grounded_ops_agent.Prelude.{
  ℕ, ◌≤◌, ◌≡◌, refl, Option, none, some, List, [], ◌∷◌, if◌then◌else◌, Text, nat_eq, text_eq,
}
use grounded_ops_agent.Prelude.Dict.{lookup, insert}
use grounded_ops_agent.Security.Whitelist.{
  allowed, policy, validate_agg, check_columns, validate_group_by, validate_filter_keys,
}
use grounded_ops_agent.Text.Chars.{codes}
use grounded_ops_agent.Prelude.{true, false}

abbrev undated : Text → Option ℕ
undated v = if text_beq v (codes "2024-01-01") then some 0 else none

abbrev p1 : List (Text × Json)
p1 = (codes "severity", string (codes "P1")) ∷ []

abbrev p2 : List (Text × Json)
p2 = (codes "severity", string (codes "P2' OR 1=1")) ∷ []

abbrev root_causes : List (Text × Json) → Result (Query ℕ)
root_causes filters =
    aggregate_query undated (codes "incidents") (codes "root_cause_category" ∷ []) (codes "count")
      none filters (some (codes "2024-01-01")) none 1000

abbrev query_of : Result (Query ℕ) → Query ℕ
query_of (ok q) = q
query_of (raise e) = record { sql = []; params = [] }

root_causes-p1 : root_causes p1 ≡ ok (query_of (root_causes p1))
unfolding aggregate_query policy validate_agg validate_group_by check_columns validate_filter_keys
    agg_expr time_clause timed time_bounds bound_clause parse_dt filter_clauses lookup insert
    allowed text_beq
root_causes-p1 = refl

root_causes-p2 : root_causes p2 ≡ ok (query_of (root_causes p2))
unfolding aggregate_query policy validate_agg validate_group_by check_columns validate_filter_keys
    agg_expr time_clause timed time_bounds bound_clause parse_dt filter_clauses lookup insert
    allowed text_beq
root_causes-p2 = refl

aggregate_query-IsWhitelisted_example :
    IsWhitelisted
      (codes "incidents")
      (codes "root_cause_category" ∷ [])
      (codes "count")
      none
      (codes "severity" ∷ [])
      true
      false
      1000
      (query_of (root_causes p1)).sql
    × (1 ≤ 3)
    × (1 ≤ 8)
aggregate_query-IsWhitelisted_example =
    aggregate_query-IsWhitelisted undated (codes "incidents") (codes "root_cause_category" ∷ [])
      (codes "count") none p1 (some (codes "2024-01-01")) none 1000 (query_of (root_causes p1))
      root_causes-p1

aggregate_query-sql_example : (query_of (root_causes p1)).sql ≡ (query_of (root_causes p2)).sql
aggregate_query-sql_example =
    aggregate_query-sql undated (codes "incidents") (codes "root_cause_category" ∷ [])
      (codes "count") none p1 p2 (some (codes "2024-01-01")) (some (codes "2024-01-01")) none none
      1000 (query_of (root_causes p1)) (query_of (root_causes p2)) refl refl refl root_causes-p1
      root_causes-p2

query_for-IsOneStatement_example : IsOneStatement (query_of (root_causes p1)).sql
unfolding query_for
query_for-IsOneStatement_example =
    query_for-IsOneStatement undated 1000
      (aggregate_request (codes "incidents") (codes "root_cause_category" ∷ []) (codes "count") none
        p1 (some (codes "2024-01-01")) none)
      (query_of (root_causes p1)) root_causes-p1
