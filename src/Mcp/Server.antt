-- ===== src/Mcp/Server.antt =====
-- The tools of src/app/mcp_server/server.py, over the retrieval service and the database. The tools
-- `list_schema` and `get_record` are `schema` of Security/Whitelist/Schema and `get_record` of
-- Analytics/Rows.
use grounded_ops_agent.Core.Errors.{◌>>=◌}
use grounded_ops_agent.Analytics.Rows.{
  Plain, Database, MetricResult, run_aggregate, run_query_metric, run_timeseries,
}
use grounded_ops_agent.Api.Requests.{
  filters_of, result_snippet, result_snippet-length, is_asked, IsAllowed-is_asked,
}
use grounded_ops_agent.Core.Errors.{Result, ok, >>=-eq-ok}
use grounded_ops_agent.Core.Settings.{Settings}
use grounded_ops_agent.Llm.Types.{Json}
use grounded_ops_agent.Prelude.{
  ℕ, suc, ◌≤◌, min, ◌≡◌, refl, ap, subst, true, false, Option, List, [], ◌∷◌, map, arith, length,
  take, All, Text,
}
use grounded_ops_agent.Prelude.Float.{Float, FloatOps}
use grounded_ops_agent.Prelude.Int.{ℤ, pos, negsuc}
use grounded_ops_agent.Retrieval.Service.{Backends, retrieve}
use grounded_ops_agent.Retrieval.Service.Filtered.{HonoursFilters, retrieve-IsAnswer}
use grounded_ops_agent.Retrieval.Types.{RetrievedChunk, IsAllowed}

pub record FoundRecord : Type 0 where
  pub chunk_id : Text
  pub doc_id : Text
  pub source_type : Text
  pub title : Text
  pub snippet : Text
  pub score : Float

unfoldable pub found_of : FloatOps → RetrievedChunk → FoundRecord
unfolding result_snippet
found_of floats c = record {
  chunk_id = c.chunk_id;
  doc_id = c.doc_id;
  source_type = c.source_type;
  title = c.title;
  snippet = result_snippet c.content;
  score = floats.round c.score 4;
}

-- `min(top_k, 20)`
abbrev pub at_most_20 : ℤ → ℤ
at_most_20 (pos k) = pos (min k 20)
at_most_20 (negsuc k) = negsuc k

-- The tools over the database: each opens a session and calls the query of its name, with the
-- configured cap on the rows where the query has one.
module _ {N D V : Type 0} (db : Database N D V) (settings : Settings) where
  unfoldable pub query_metrics :
      (metric : Text) (severity service start until : Option Text) → Result MetricResult
  unfolding run_query_metric
  query_metrics metric severity service start until =
      run_query_metric db metric severity service start until

  -- `filters` is an empty list for `None`.
  unfoldable pub aggregate :
      (table : Text) (group_by : List Text) (agg_fn : Text) (column : Option Text)
      (filters : List (Text × Json)) (start until : Option Text)
      → Result (List (List (Text × Plain V)))
  unfolding run_aggregate
  aggregate table group_by agg_fn column filters start until =
      run_aggregate db table group_by agg_fn column filters start until settings.mcp_max_result_rows

  unfoldable pub get_timeseries :
      (metric_name : Text) (service : Option Text) (granularity : Text) (start until : Option Text)
      → Result (List (Plain V × Float))
  unfolding run_timeseries
  get_timeseries metric_name service granularity start until =
      run_timeseries db metric_name service granularity start until settings.mcp_max_result_rows

module _ (b : Backends) (settings : Settings) where
  unfoldable pub search_records :
      (query : Text) (source_types : Option (List Text)) (top_k : ℤ) → Result (List FoundRecord)
  unfolding filters_of retrieve found_of
  search_records query source_types top_k = do
    chunks ←
        retrieve b (take settings.max_query_chars query) (at_most_20 top_k)
          (filters_of source_types) false
    ok (map (found_of b.floats) chunks)

  -- What the tool gives for a chunk.
  abbrev pub IsFound : Option (List Text) → FoundRecord → Type 0
  IsFound kinds r = (length r.snippet ≤ 300) × (is_asked kinds r.source_type ≡ true)

  map-IsFound :
      (kinds : Option (List Text)) (cs : List RetrievedChunk)
      → All (IsAllowed (filters_of kinds)) cs
      → All (IsFound kinds) (map (found_of b.floats) cs)
  unfolding found_of
  map-IsFound kinds [] h = tt
  map-IsFound kinds (c ∷ cs) h =
      ((result_snippet-length c.content, IsAllowed-is_asked kinds c h.0), map-IsFound kinds cs h.1)

  map-length : (cs : List RetrievedChunk) → length (map (found_of b.floats) cs) ≡ length cs
  map-length [] = refl
  map-length (c ∷ cs) = ap suc (map-length cs)

  -- A search that the model asks for returns at most the asked number of records and at most 20, each
  -- with a snippet of at most 300 characters and of an asked source type, when the number is not
  -- negative and the stores honour the filters.
  pub search_records_bounded :
      (query : Text) (kinds : Option (List Text)) (top_k : ℕ) (rs : List FoundRecord)
      → HonoursFilters b
      → search_records query kinds (pos top_k) ≡ ok rs
      → (length rs ≤ top_k) × (length rs ≤ 20) × All (IsFound kinds) rs
  unfolding search_records
  search_records_bounded query kinds top_k rs honours e =
      let asked = take settings.max_query_chars query in
      let (cs, got, e1) =
        >>=-eq-ok (retrieve b asked (pos (min top_k 20)) (filters_of kinds) false) _ e in
      let (allowed_, few) =
        retrieve-IsAnswer b asked (min top_k 20) (filters_of kinds) false honours got in
      let same : map (found_of b.floats) cs ≡ rs = cc e1 in
      let n = map-length cs in
      let short : length (map (found_of b.floats) cs) ≤ min top_k 20 = omega arith in
      (
        subst (λ xs. length xs ≤ top_k) same (omega arith),
        subst (λ xs. length xs ≤ 20) same (omega arith),
        subst (All (IsFound kinds)) same (map-IsFound kinds cs allowed_),
      )
