-- ===== src/Retrieval/Service/Stores.antt =====
-- `build_retrieval_service` of src/app/retrieval/service.py: the service over the two stores.
use grounded_ops_agent.Core.Errors.{Result, ok}
use grounded_ops_agent.Core.Settings.{Settings}
use grounded_ops_agent.Ingestion.Indexer.{Table}
use grounded_ops_agent.Prelude.{
  ℕ, ◌≤◌, max, ◌≡◌, subst, inl, inr, Bool, true, false, Option, none, some, List, arith,
  if◌then◌else◌, Option-cases, All, Text,
}
use grounded_ops_agent.Prelude.Float.{Float, FloatOps}
use grounded_ops_agent.Prelude.Int.{pos}
use grounded_ops_agent.Retrieval.Faiss.{FaissLib, FaissStore, search, search-IsAllowed}
use grounded_ops_agent.Retrieval.Pgvector.{
  Postgres, pg_search, keyword_search, stored_embedding_model,
}
use grounded_ops_agent.Retrieval.Pgvector.Filtered.{
  KeepsRows, pg_search-IsAllowed, keyword_search-IsAllowed,
}
use grounded_ops_agent.Retrieval.Service.{Backends, dense_search, retrieve}
use grounded_ops_agent.Retrieval.Service.Filtered.{HonoursFilters, IsAnswer, retrieve-IsAnswer}
use grounded_ops_agent.Retrieval.Types.{RetrievedChunk, SearchFilters, IsAllowed}

-- What is left of the outside: the embedding provider, the cross encoder and the database.
pub record Outside : Type 0 where
  pub floats : FloatOps
  pub postgres : Postgres
  pub chunks : Table
  pub model_name : Text
  pub embed_query : Text → Result (List Float)
  pub predict : List (Text × Text) → Result (List Float)

module _ {Index : Type 0} (lib : FaissLib Index) (o : Outside) where
  -- `self.faiss_store is not None and self.faiss_store.ready`
  abbrev ready_search :
      Option (FaissStore Index)
      → Option (List Float → ℕ → Option SearchFilters → Result (List RetrievedChunk))
  ready_search none = none
  ready_search (some s) = elim s.index [ none ↦ none | some index ↦ some (search lib s) ]

  unfoldable pub build_retrieval_service : Settings → Option (FaissStore Index) → Backends
  build_retrieval_service settings faiss_store = record {
    floats = o.floats;
    model_name = o.model_name;
    embed_query = o.embed_query;
    stored_embedding_model = ok (stored_embedding_model o.postgres o.chunks);
    pg_search = λ v top_k filters. ok (pg_search o.floats o.postgres o.chunks v top_k filters);
    keyword_search =
        λ query top_k filters. ok (keyword_search o.floats o.postgres o.chunks query top_k filters);
    faiss_search = ready_search faiss_store;
    rrf_k = settings.rrf_k;
    predict = if settings.reranker_enabled then some o.predict else none;
  }

  module _ (keeps : KeepsRows o.postgres) (settings : Settings)
      (faiss_store : Option (FaissStore Index)) where
    abbrev service : Backends
    service = build_retrieval_service settings faiss_store

    pg-honours :
        (v : List Float) (k : ℕ) (filters : Option SearchFilters) {cs : List RetrievedChunk}
        → ok (pg_search o.floats o.postgres o.chunks v k filters) ≡ ok cs
        → All (IsAllowed filters) cs
    pg-honours v k filters {cs} e =
        let same : pg_search o.floats o.postgres o.chunks v k filters ≡ cs = cc e in
        subst (All (IsAllowed filters)) same
          (pg_search-IsAllowed o.floats o.postgres keeps o.chunks v k filters).0

    -- Either store, by the flag.
    chosen-honours :
        (s : FaissStore Index) (use_faiss : Bool) (v : List Float) (k : ℕ)
        (filters : Option SearchFilters) {cs : List RetrievedChunk}
        → 1 ≤ k
        → (if use_faiss
            then search lib s v k filters
            else ok (pg_search o.floats o.postgres o.chunks v k filters))
          ≡ ok cs
        → All (IsAllowed filters) cs
    chosen-honours s true v k filters {cs} one e = (search-IsAllowed lib s filters v k cs one e).0
    chosen-honours s false v k filters one e = pg-honours v k filters e

    dense-honours :
        (store : Option (FaissStore Index)) (use_faiss : Bool) (v : List Float) (k : ℕ)
        (filters : Option SearchFilters) {cs : List RetrievedChunk}
        → 1 ≤ k
        → dense_search (build_retrieval_service settings store) use_faiss v k filters ≡ ok cs
        → All (IsAllowed filters) cs
    unfolding dense_search build_retrieval_service
    dense-honours none use_faiss v k filters one e = pg-honours v k filters e
    dense-honours (some s) use_faiss v k filters one e = elim (Option-cases s.index) [
      | inl none_ ↦ let e' = rw none_ at e in pg-honours v k filters e'
      | inr (index, some_) ↦ let e' = rw some_ at e in chosen-honours s use_faiss v k filters one e'
    ]

    pub service-HonoursFilters : HonoursFilters service
    unfolding build_retrieval_service
    service-HonoursFilters = record {
      dense = λ use_faiss v pool filters e.
          dense-honours faiss_store use_faiss v (max pool 25) filters (omega arith) e;
      keyword = λ query pool filters {cs} e.
          let same : keyword_search o.floats o.postgres o.chunks query (max pool 25) filters ≡ cs =
            cc e in
          subst (All (IsAllowed filters)) same
            (keyword_search-IsAllowed o.floats o.postgres keeps o.chunks query (max pool 25)
              filters).0;
    }

    -- A retrieval over the database and a FAISS index gives chunks that the filters allow, at most
    -- `top_k` of them (which is not negative), whatever the index, the embedding model and the
    -- reranker answer.
    pub build_retrieval_service-IsAnswer :
        (query : Text) (top_k : ℕ) (filters : Option SearchFilters) (use_faiss : Bool)
        {out : List RetrievedChunk}
        → retrieve service query (pos top_k) filters use_faiss ≡ ok out
        → IsAnswer filters top_k out
    build_retrieval_service-IsAnswer query top_k filters use_faiss =
        retrieve-IsAnswer service query top_k filters use_faiss service-HonoursFilters
