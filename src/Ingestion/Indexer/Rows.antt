-- ===== src/Ingestion/Indexer/Rows.antt =====
-- What the writer of the table keeps true of every row.
use grounded_ops_agent.Core.Effects.{◌>>=◌, ◌>>◌}
use grounded_ops_agent.Core.Effects.{Code, returns, attempted, writes, Code-eq-ok, state-mapped}
use grounded_ops_agent.Core.Errors.{Result, ok}
use grounded_ops_agent.Ingestion.Chunker.{ChunkPiece, Encoding}
use grounded_ops_agent.Ingestion.Indexer.{
  SourceDoc, ChunkRow, Table, upsert_row, upsert_rows, ids, is_distinct, upserted, upsert_chunks,
  delete_orphans, pairs_of, batches, embed_all, make_rows, rows_of, IngestStats, write_docs,
  ingest_documents,
}
use grounded_ops_agent.Prelude.{
  ℕ, ◌+◌, ◌≡◌, refl, sym, ap, subst, inl, inr, Bool, true, false, List, [], ◌∷◌, map, arith,
  Bool-cases, length, all, keep_if, ◌==◌, Text, nat_eq, text_eq,
}
use grounded_ops_agent.Prelude.Float.{Float}

module _ (p : ChunkRow → Bool) where
  pub all-keep_if-all :
      (q : ChunkRow → Bool) (t : Table) → all p t ≡ true → all p (keep_if q t) ≡ true
  all-keep_if-all q [] h = refl
  all-keep_if-all q (row ∷ t) h = ground (arith, all-keep_if-all q t)

  module _ (timeless : (row : ChunkRow) (c : ℕ) → p (record row { created_at = c }) ≡ p row) where
    all-upsert_row :
        (row : ChunkRow) (t : Table)
        → p row ≡ true
        → all p t ≡ true
        → all p (upsert_row row t) ≡ true
    unfolding upsert_row
    all-upsert_row row [] new h = rw new refl
    all-upsert_row row (old ∷ t) new h =
        let later = all-upsert_row row t new in
        elim (Bool-cases (old.chunk_id == row.chunk_id)) [
          | inl e ↦ rw (e, upsert_row) (rw (timeless row old.created_at) (ground (arith)))
          | inr e ↦ rw (e, upsert_row) (ground (arith, later))
        ]

    pub all-upsert_rows :
        (rows : List ChunkRow) (t : Table)
        → all p rows ≡ true
        → all p t ≡ true
        → all p (upsert_rows rows t) ≡ true
    unfolding upsert_rows
    all-upsert_rows [] t new h = h
    all-upsert_rows (row ∷ rows) t new h =
        all-upsert_rows rows (upsert_row row t) (ground arith)
          (all-upsert_row row t (ground arith) h)

    -- One document of the last loop, and the documents behind it.
    all-step :
        (b : Bool) (own : List ChunkRow) (doc_id : Text) (rest : Code Table ℕ) (n : ℕ) (t : Table)
        → all p own ≡ true
        → all p t ≡ true
        → ((t' : Table) → all p t' ≡ true → all p (rest t').1 ≡ true)
        → all p
            ((do
              upserted b own
              writes (delete_orphans doc_id n)
              total ← rest
              returns (n + total))
              t).1
          ≡ true
    unfolding delete_orphans
    all-step false own doc_id rest n t new h later = h
    all-step true own doc_id rest n t new h later =
        let t' = delete_orphans doc_id n (upsert_rows own t) in
        subst (λ x. all p x ≡ true) (sym (state-mapped rest (λ total. n + total) t'))
          (later t' (all-keep_if-all _ _ (all-upsert_rows own t new h)))

    -- A predicate that the new rows and the old ones have, the table has after the last loop, whether
    -- it returned or raised.
    pub all-write_docs :
        (rows : List ChunkRow) (docs : List SourceDoc) (t : Table)
        → all p rows ≡ true
        → all p t ≡ true
        → all p (write_docs rows docs t).1 ≡ true
    unfolding write_docs upsert_chunks
    all-write_docs rows [] t new h = h
    all-write_docs rows (doc ∷ docs) t new h =
        let own = rows_of doc.doc_id rows in
        all-step (is_distinct (ids own)) own doc.doc_id (write_docs rows docs) (length own) t
          (all-keep_if-all (λ (r : ChunkRow). r.doc_id == doc.doc_id) rows new) h
          (λ t' h'. all-write_docs rows docs t' new h')

module _ (enc : Encoding) (embed_documents : List Text → Result (List (List Float)))
    (model_name : Text) where
  -- An ingestion that returned has made rows of all chunks, and written them.
  pub ingested :
      (docs : List SourceDoc) (batch_size created_at : ℕ) (t t' : Table) {stats : IngestStats}
      → ingest_documents enc embed_documents model_name docs batch_size created_at t
        ≡ (ok stats, t')
      → (vectors : List (List Float)) × (rows : List ChunkRow) × (total : ℕ) × (make_rows model_name
            created_at
            (pairs_of enc docs)
            vectors
          ≡ ok rows)
        × (write_docs rows docs t ≡ (ok total, t'))
  unfolding ingest_documents
  ingested docs batch_size created_at t t' returned =
      let pairs = pairs_of enc docs in
      let texts = map (λ (p : SourceDoc × ChunkPiece). p.1.content) pairs in
      let stats_of : ℕ → IngestStats =
        λ total. record { documents = length docs; chunks = total; embedding_model = model_name } in
      let (vectors, embedded, h1) =
        Code-eq-ok (attempted (embed_all embed_documents (batches batch_size (length texts) texts)))
          (λ vectors. do
            rows ← attempted (make_rows model_name created_at pairs vectors)
            total ← write_docs rows docs
            returns (stats_of total))
          t returned in
      let (rows, made, h2) =
        Code-eq-ok (attempted (make_rows model_name created_at pairs vectors))
          (λ rows. do total ← write_docs rows docs; returns (stats_of total)) t h1 in
      let (total, wrote, h3) = Code-eq-ok (write_docs rows docs) (λ n. returns (stats_of n)) t h2 in
      let left : (write_docs rows docs t).1 ≡ t' = ap (λ x. x.1) h3 in
      (vectors, rows, total, made, cc (wrote, left))
