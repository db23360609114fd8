-- ===== src/Retrieval/Service/Models.antt =====
-- The embedding models of the ingestion and of the retrieval.
use grounded_ops_agent.Core.Errors.{Result, ok, raise, >>=-eq-ok}
use grounded_ops_agent.Core.Settings.{Settings}
use grounded_ops_agent.Ingestion.Chunker.{ChunkPiece, Encoding}
use grounded_ops_agent.Ingestion.Indexer.{
  SourceDoc, ChunkRow, Table, pairs_of, make_row, make_rows, IngestStats, ingest_documents,
}
use grounded_ops_agent.Ingestion.Indexer.Rows.{all-write_docs, ingested}
use grounded_ops_agent.Prelude.{
  ℕ, ◌≤◌, ◌≡◌, refl, sym, ap, ◌∙◌, subst, Bool, true, false, Option, some, List, [], ◌∷◌, arith,
  length, all, counted, keep_if_all, all-same, ◌==◌, Text, nat_eq, text_eq, beq_refl,
}
use grounded_ops_agent.Prelude.Float.{Float}
use grounded_ops_agent.Prelude.Int.{ℤ}
use grounded_ops_agent.Retrieval.Faiss.{FaissLib, FaissStore}
use grounded_ops_agent.Retrieval.Pgvector.{Postgres, first_model, stored_embedding_model}
use grounded_ops_agent.Retrieval.Pgvector.Filtered.{KeepsRows}
use grounded_ops_agent.Retrieval.Service.{Backends, mismatch, assert_model_matches, retrieve}
use grounded_ops_agent.Retrieval.Service.Stores.{Outside, build_retrieval_service}
use grounded_ops_agent.Retrieval.Types.{SearchFilters}

abbrev pub is_of : Text → ChunkRow → Bool
is_of model row = row.embedding_model == model

all-make_rows :
    (model : Text) (created_at : ℕ) (pairs : List (SourceDoc × ChunkPiece))
    (vectors : List (List Float)) {rows : List ChunkRow}
    → make_rows model created_at pairs vectors ≡ ok rows
    → all (is_of model) rows ≡ true
unfolding make_rows make_row
all-make_rows model created_at [] [] made = cc
all-make_rows model created_at [] (v ∷ vs) made = cc
all-make_rows model created_at (p ∷ ps) [] made = cc
all-make_rows model created_at (p ∷ ps) (v ∷ vs) made =
    let (more, rest, out) = >>=-eq-ok (make_rows model created_at ps vs) _ made in
    ground (arith, all-make_rows model created_at ps vs rest, beq_refl model)

-- An ingestion into a table of one model leaves a table of that model.
ingest_documents-model :
    (enc : Encoding) (embed_documents : List Text → Result (List (List Float))) (model : Text)
    (docs : List SourceDoc) (batch_size created_at : ℕ) (t t' : Table) {stats : IngestStats}
    → all (is_of model) t ≡ true
    → ingest_documents enc embed_documents model docs batch_size created_at t ≡ (ok stats, t')
    → all (is_of model) t' ≡ true
ingest_documents-model enc embed_documents model docs batch_size created_at t t' h done_ =
    let (vectors, rows, total, made, wrote) =
      ingested enc embed_documents model docs batch_size created_at t t' done_ in
    subst (λ (x : Result ℕ × Table). all (is_of model) x.1 ≡ true) wrote
      (all-write_docs (is_of model) (λ row c. refl) rows docs t
        (all-make_rows model created_at (pairs_of enc docs) vectors made) h)

-- The first row that the database gives is one of the table.
first_model-scan :
    (model : Text) (pg : Postgres) (t : Table)
    → KeepsRows pg
    → all (is_of model) t ≡ true
    → 1 ≤ length t
    → stored_embedding_model pg t ≡ some model
unfolding stored_embedding_model first_model
first_model-scan model pg t keeps h many = go (pg.scan t) refl
  where
    go : (rows : Table) → pg.scan t ≡ rows → first_model rows ≡ some model
    go [] e =
        let none_there : length t ≡ 0 =
          sym (ap length (keep_if_all t))
          ∙ sym (keeps.scan (λ row. true) t)
          ∙ ap (counted (λ row. true)) e in
        absurd (omega arith)
    go (row ∷ rows) e =
        let same : all (is_of model) (row ∷ rows) ≡ true =
          subst (λ r. all (is_of model) r ≡ true) e
            (all-same (is_of model) (pg.scan t) t (λ q. keeps.scan q t) h) in
        ap some ((text_eq.beq_iff row.embedding_model model).0 (ground arith))

retrieve_mismatch :
    (b : Backends) (query stored : Text) (top_k : ℤ) (filters : Option SearchFilters)
    (use_faiss : Bool)
    → b.stored_embedding_model ≡ ok (some stored)
    → (stored == b.model_name) ≡ false
    → retrieve b query top_k filters use_faiss ≡ raise (mismatch b stored)
unfolding retrieve assert_model_matches
retrieve_mismatch b query stored top_k filters use_faiss e other =
    rw (e, retrieve, assert_model_matches) (rw (other, retrieve, assert_model_matches) refl)

module _ {Index : Type 0} (lib : FaissLib Index) (o : Outside) (settings : Settings)
    (faiss_store : Option (FaissStore Index)) where
  abbrev pub service_over : Table → Backends
  service_over t = build_retrieval_service lib (record o { chunks = t }) settings faiss_store

  -- After an ingestion with one embedding model, into a table that had rows of that model only, every
  -- retrieval by another model raises the mismatch as soon as the table has a row, with a FAISS index
  -- and without.
  pub retrieve-ingest_documents :
      (enc : Encoding) (embed_documents : List Text → Result (List (List Float))) (model : Text)
      (docs : List SourceDoc) (batch_size created_at : ℕ) (t t' : Table) {stats : IngestStats}
      (query : Text) (top_k : ℤ) (filters : Option SearchFilters) (use_faiss : Bool)
      → KeepsRows o.postgres
      → all (is_of model) t ≡ true
      → ingest_documents enc embed_documents model docs batch_size created_at t ≡ (ok stats, t')
      → 1 ≤ length t'
      → (model == o.model_name) ≡ false
      → retrieve (service_over t') query top_k filters use_faiss
        ≡ raise (mismatch (service_over t') model)
  unfolding build_retrieval_service
  retrieve-ingest_documents enc embed_documents model docs batch_size created_at t t' query top_k
        filters use_faiss keeps h returned many other =
      retrieve_mismatch (service_over t') query model top_k filters use_faiss
        (ap ok (
          first_model-scan model o.postgres t' keeps
            (ingest_documents-model enc embed_documents model docs batch_size created_at t t' h
              returned)
            many))
        other
