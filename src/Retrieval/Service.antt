-- ===== src/Retrieval/Service.antt =====
-- src/app/retrieval/service.py and src/app/retrieval/reranker.py, over what the stores, the
-- embedding provider and the cross encoder answer at the time of the call.
pub mod Filtered
pub mod Stores
pub mod Models
pub mod Tests
use grounded_ops_agent.Core.Errors.{◌>>=◌, ◌>>◌}
use grounded_ops_agent.Core.Errors.{Error, embedding_mismatch, value_error, Result, ok, raise}
use grounded_ops_agent.Prelude.{
  ℕ, ◌*◌, max, Bool, Option, none, some, List, [], ◌∷◌, ◌++◌, map, if◌then◌else◌, take, ◌==◌, Text,
  nat_eq, text_eq,
}
use grounded_ops_agent.Prelude.Float.{Float, FloatOps}
use grounded_ops_agent.Retrieval.Rrf.{reciprocal_rank_fusion}
use grounded_ops_agent.Retrieval.Types.{RetrievedChunk, SearchFilters}
use grounded_ops_agent.Text.Chars.{codes}
use grounded_ops_agent.Prelude.{suc, ◌-◌, length}
use grounded_ops_agent.Prelude.Int.{ℤ, pos, negsuc}
use grounded_ops_agent.Retrieval.Faiss.{search}
use grounded_ops_agent.Retrieval.Pgvector.{pg_search, keyword_search, stored_embedding_model}

pub record Backends : Type 0 where
  pub floats : FloatOps
  pub model_name : Text
  pub embed_query : Text → Result (List Float)
  -- `PgVectorStore`
  pub stored_embedding_model : Result (Option Text)
  pub pg_search : List Float → ℕ → Option SearchFilters → Result (List RetrievedChunk)
  pub keyword_search : Text → ℕ → Option SearchFilters → Result (List RetrievedChunk)
  -- a `FaissStore` that is there and ready
  pub faiss_search : Option (List Float → ℕ → Option SearchFilters → Result (List RetrievedChunk))
  pub rrf_k : ℕ
  -- `CrossEncoder.predict` of a reranker, with a score for each pair
  pub predict : Option (List (Text × Text) → Result (List Float))

-- `zip(chunks, scores, strict=True)`
unfoldable pub zip_strict :
    List RetrievedChunk → List Float → Result (List (RetrievedChunk × Float))
zip_strict [] [] = ok []
zip_strict (c ∷ cs) (x ∷ xs) = do pairs ← zip_strict cs xs; ok ((c, x) ∷ pairs)
zip_strict [] (x ∷ xs) = raise value_error
zip_strict (c ∷ cs) [] = raise value_error

-- A pair goes in front of the first one whose score is not greater, so equal scores keep their order.
unfoldable pub insert_scored :
    FloatOps
    → RetrievedChunk × Float
    → List (RetrievedChunk × Float)
    → List (RetrievedChunk × Float)
insert_scored floats (c, x) [] = (c, x) ∷ []
insert_scored floats (c, x) ((d, y) ∷ ps) =
    if floats.lt x y then (d, y) ∷ insert_scored floats (c, x) ps else (c, x) ∷ (d, y) ∷ ps

unfoldable pub sort_scored :
    FloatOps → List (RetrievedChunk × Float) → List (RetrievedChunk × Float)
unfolding insert_scored
sort_scored floats [] = []
sort_scored floats (p ∷ ps) = insert_scored floats p (sort_scored floats ps)

abbrev pub rerank_scored : RetrievedChunk × Float → RetrievedChunk
rerank_scored (c, x) = record c { score = x; retriever = codes "reranker" }

-- `xs[:k]`: a bound below 0 counts from the end.
abbrev pub slice_to {ℓ} : {A : Type ℓ} → ℤ → List A → List A
slice_to (pos k) xs = take k xs
slice_to (negsuc k) xs = take (length xs - suc k) xs

-- `max(top_k * 4, 25)`
abbrev pub pool_of : ℤ → ℕ
pool_of (pos top_k) = max (top_k * 4) 25
pool_of (negsuc k) = 25

-- `rerank` with a `top_k`.
unfoldable pub rerank :
    FloatOps
    → (List (Text × Text) → Result (List Float))
    → Text
    → List RetrievedChunk
    → ℤ
    → Result (List RetrievedChunk)
unfolding zip_strict sort_scored
rerank floats predict query [] top_k = ok []
rerank floats predict query (c ∷ cs) top_k = do
  scores ← predict (map (λ (x : RetrievedChunk). (query, x.content)) (c ∷ cs))
  pairs ← zip_strict (c ∷ cs) scores
  ok (slice_to top_k (map rerank_scored (sort_scored floats pairs)))

module _ (b : Backends) where
  abbrev pub mismatch : Text → Error
  mismatch stored = embedding_mismatch (
      codes "Query model '"
      ++ b.model_name
      ++ codes "' does not match the model stored in the index ('"
      ++ stored
      ++ codes "'). Re-embed the corpus or switch back.")

  unfoldable pub assert_model_matches : Result (Unit {0})
  assert_model_matches = do
    stored ← b.stored_embedding_model
    elim stored [ none ↦ ok tt | some m ↦ if m == b.model_name then ok tt else raise (mismatch m) ]

  -- The dense search: in the FAISS index if it is asked for, there and ready.
  unfoldable pub dense_search :
      (use_faiss : Bool) → List Float → ℕ → Option SearchFilters → Result (List RetrievedChunk)
  dense_search use_faiss query_vector pool filters = elim b.faiss_search [
    | none ↦ b.pg_search query_vector pool filters
    | some search ↦
        if use_faiss
        then search query_vector pool filters
        else b.pg_search query_vector pool filters
  ]

  unfoldable pub ranked : Text → ℤ → List RetrievedChunk → Result (List RetrievedChunk)
  ranked query top_k fused = elim b.predict [
    | none ↦ ok (slice_to top_k fused)
    | some predict ↦ rerank b.floats predict query fused top_k
  ]

  unfoldable pub retrieve :
      (query : Text) (top_k : ℤ) (filters : Option SearchFilters) (use_faiss : Bool)
      → Result (List RetrievedChunk)
  unfolding assert_model_matches dense_search ranked reciprocal_rank_fusion
  retrieve query top_k filters use_faiss = do
    assert_model_matches
    query_vector ← b.embed_query query
    let pool = pool_of top_k
    dense ← dense_search use_faiss query_vector pool filters
    keyword ← b.keyword_search query pool filters
    ranked query top_k (reciprocal_rank_fusion b.floats (dense ∷ keyword ∷ []) b.rrf_k none)
