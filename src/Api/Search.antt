-- ===== src/Api/Search.antt =====
-- src/app/api/search.py over the retrieval service.
use grounded_ops_agent.Core.Errors.{◌>>=◌, ◌>>◌}
use grounded_ops_agent.Api.Requests.{
  SearchRequest, ChunkResult, SearchResponse, filters_of, check_length, exceeds, result_snippet,
  check_length-ok, result_snippet-length, is_asked, IsAllowed-is_asked,
}
use grounded_ops_agent.Core.Errors.{Result, ok, >>=-eq-ok}
use grounded_ops_agent.Core.Settings.{Settings}
use grounded_ops_agent.Prelude.{
  suc, ◌≤◌, ◌≡◌, refl, ap, subst, true, false, Option, List, [], ◌∷◌, map, arith, length, All, Text,
}
use grounded_ops_agent.Prelude.Float.{FloatOps}
use grounded_ops_agent.Prelude.Int.{pos}
use grounded_ops_agent.Retrieval.Service.{Backends, retrieve}
use grounded_ops_agent.Retrieval.Service.Filtered.{HonoursFilters, retrieve-IsAnswer}
use grounded_ops_agent.Retrieval.Types.{RetrievedChunk, IsAllowed}
use grounded_ops_agent.Text.Chars.{codes}

unfoldable pub chunk_result : FloatOps → RetrievedChunk → ChunkResult
unfolding result_snippet
chunk_result floats c = record {
  chunk_id = c.chunk_id;
  doc_id = c.doc_id;
  source_type = c.source_type;
  title = c.title;
  snippet = result_snippet c.content;
  score = floats.round c.score 4;
  retriever = c.retriever;
}

module _ (b : Backends) (settings : Settings) where
  -- The handler of `POST /search`.
  unfoldable pub search_endpoint : SearchRequest → Result SearchResponse
  unfolding check_length filters_of retrieve chunk_result
  search_endpoint req = do
    check_length settings.max_query_chars (exceeds (codes "query") settings.max_query_chars)
        req.query
    chunks ← retrieve b req.query (pos req.top_k) (filters_of req.source_types) false
    ok (record { query = req.query; results = map (chunk_result b.floats) chunks })

  -- What is shown of a chunk: a short text, of a source type that was asked for.
  abbrev pub IsShown : Option (List Text) → ChunkResult → Type 0
  IsShown kinds r = (length r.snippet ≤ 300) × (is_asked kinds r.source_type ≡ true)

  map-IsShown :
      (kinds : Option (List Text)) (cs : List RetrievedChunk)
      → All (IsAllowed (filters_of kinds)) cs
      → All (IsShown kinds) (map (chunk_result b.floats) cs)
  unfolding chunk_result
  map-IsShown kinds [] h = tt
  map-IsShown kinds (c ∷ cs) h =
      ((result_snippet-length c.content, IsAllowed-is_asked kinds c h.0), map-IsShown kinds cs h.1)

  map-length : (cs : List RetrievedChunk) → length (map (chunk_result b.floats) cs) ≡ length cs
  map-length [] = refl
  map-length (c ∷ cs) = ap suc (map-length cs)

  -- A search request that is answered was not longer than the limit, and the answer shows at most the
  -- asked number of chunks, each with a snippet of at most 300 characters and of an asked source type,
  -- when the stores honour the filters.
  pub search_endpoint_bounded :
      (req : SearchRequest) (response : SearchResponse)
      → HonoursFilters b
      → search_endpoint req ≡ ok response
      → (length req.query ≤ settings.max_query_chars)
        × (length response.results ≤ req.top_k)
        × All (IsShown req.source_types) response.results
  unfolding search_endpoint
  search_endpoint_bounded req response honours e =
      let limit = settings.max_query_chars in
      let (_, checked, e1) =
        >>=-eq-ok (check_length limit (exceeds (codes "query") limit) req.query) _ e in
      let kinds = req.source_types in
      let (cs, got, e2) =
        >>=-eq-ok (retrieve b req.query (pos req.top_k) (filters_of kinds) false) _ e1 in
      let (allowed_, few) =
        retrieve-IsAnswer b req.query req.top_k (filters_of kinds) false honours got in
      let n = map-length cs in
      let same : record { query = req.query; results = map (chunk_result b.floats) cs } ≡ response =
        cc e2 in
      let few' : length (map (chunk_result b.floats) cs) ≤ req.top_k = omega arith in
      (
        check_length-ok limit (exceeds (codes "query") limit) req.query checked,
        subst (λ (r : SearchResponse). length r.results ≤ req.top_k) same few',
        subst (λ (r : SearchResponse). All (IsShown kinds) r.results) same
            (map-IsShown kinds cs allowed_),
      )
