-- ===== src/Ingestion/Indexer/Orphans.antt =====
-- The rows of a document that the ingestion leaves in the table.
use grounded_ops_agent.Core.Effects.{◌>>=◌, ◌>>◌}
use grounded_ops_agent.Core.Effects.{Code, returns, writes, Code-eq-ok}
use grounded_ops_agent.Core.Errors.{Result, ok, >>=-eq-ok}
use grounded_ops_agent.Ingestion.Chunker.{ChunkPiece, Encoding}
use grounded_ops_agent.Ingestion.Indexer.{
  SourceDoc, ChunkRow, Table, upsert_rows, ids, is_distinct, upserted, upsert_chunks, is_orphan,
  delete_orphans, pairs_of, make_row, make_rows, rows_of, IngestStats, write_docs, ingest_documents,
}
use grounded_ops_agent.Ingestion.Indexer.Rows.{all-keep_if-all, all-upsert_rows, ingested}
use grounded_ops_agent.Prelude.{
  ℕ, ◌+◌, ◌≡◌, refl, sym, ap, subst, inl, inr, Bool, true, false, not, List, [], ◌∷◌, arith,
  Bool-cases, length, all, keep_if, all-keep_if, All, ◌==◌, Text, nat_eq, text_eq,
}
use grounded_ops_agent.Prelude.Float.{Float}

-- The row is not a chunk of the document from index `keep` on.
abbrev is_kept : Text → ℕ → ChunkRow → Bool
is_kept doc_id keep row = not (is_orphan doc_id keep row)

all-rows_of :
    (doc_id other : Text) (keep : ℕ) (rows : List ChunkRow)
    → (other == doc_id) ≡ false
    → all (is_kept doc_id keep) (rows_of other rows) ≡ true
all-rows_of doc_id other keep [] ne = refl
all-rows_of doc_id other keep (row ∷ rows) ne = elim (Bool-cases (row.doc_id == other)) [
  | inl same ↦
      let differs : (row.doc_id == doc_id) ≡ false =
        ground (arith, text_eq.beq_iff row.doc_id other) in
      ground (arith, all-rows_of doc_id other keep rows ne)
  | inr differs ↦ ground (arith, all-rows_of doc_id other keep rows ne)
]

module _ (doc_id : Text) (rows : List ChunkRow) where
  abbrev clean : ChunkRow → Bool
  clean = is_kept doc_id (length (rows_of doc_id rows))

  -- Writing a document keeps the table clean of the orphans of any other.
  step-all :
      (other : Text) (t : Table)
      → all clean t ≡ true
      → all clean
          (delete_orphans other (length (rows_of other rows)) (upsert_rows (rows_of other rows) t))
        ≡ true
  unfolding delete_orphans
  step-all other t h = elim (Bool-cases (other == doc_id)) [
    | inl same ↦
        subst
          (λ d.
            all clean (delete_orphans d (length (rows_of d rows)) (upsert_rows (rows_of d rows) t))
            ≡ true)
          (sym ((text_eq.beq_iff other doc_id).0 same))
          (all-keep_if clean (upsert_rows (rows_of doc_id rows) t))
    | inr differs ↦ all-keep_if-all clean _ _ (
        all-upsert_rows clean (λ row c. refl) (rows_of other rows) t
          (all-rows_of doc_id other (length (rows_of doc_id rows)) rows differs) h)
  ]

-- One document of the last loop and the documents behind it, when they were written.
step_written :
    (b : Bool) (own : List ChunkRow) (doc_id : Text) (rest : Code Table ℕ) (n : ℕ) (t t' : Table)
    {total : ℕ}
    → (do upserted b own; writes (delete_orphans doc_id n); more ← rest; returns (n + more)) t
      ≡ (ok total, t')
    → (more : ℕ) × (rest (delete_orphans doc_id n (upsert_rows own t)) ≡ (ok more, t'))
step_written false own doc_id rest n t t' h = cc h
step_written true own doc_id rest n t t' h =
    let start = delete_orphans doc_id n (upsert_rows own t) in
    let (more, wrote, left) = Code-eq-ok rest (λ m. returns (n + m)) start h in
    let same : (rest start).1 ≡ t' = ap (λ x. x.1) left in (more, cc (wrote, same))

write_docs-all :
    (doc_id : Text) (rows : List ChunkRow) (docs : List SourceDoc) (t t' : Table) {total : ℕ}
    → all (clean doc_id rows) t ≡ true
    → write_docs rows docs t ≡ (ok total, t')
    → all (clean doc_id rows) t' ≡ true
unfolding write_docs upsert_chunks
write_docs-all doc_id rows [] t t' h wrote =
    subst (λ (x : Result ℕ × Table). all (clean doc_id rows) x.1 ≡ true) wrote h
write_docs-all doc_id rows (doc ∷ docs) t t' h wrote =
    let own = rows_of doc.doc_id rows in
    let (more, later) =
      step_written (is_distinct (ids own)) own doc.doc_id (write_docs rows docs) (length own) t t'
        wrote in
    write_docs-all doc_id rows docs _ t' (step-all doc_id rows doc.doc_id t h) later

-- In the table no row of the document has an index from `keep` on.
abbrev pub HasNoOrphans : (keep : Text → ℕ) → Table → SourceDoc → Type 0
HasNoOrphans keep t doc = all (is_kept doc.doc_id (keep doc.doc_id)) t ≡ true

write_docs-HasNoOrphans :
    (keep : Text → ℕ) (rows : List ChunkRow) (docs : List SourceDoc) (t t' : Table) {total : ℕ}
    → ((d : Text) → length (rows_of d rows) ≡ keep d)
    → write_docs rows docs t ≡ (ok total, t')
    → All (HasNoOrphans keep t') docs
unfolding write_docs upsert_chunks delete_orphans
write_docs-HasNoOrphans keep rows [] t t' same wrote = tt
write_docs-HasNoOrphans keep rows (doc ∷ docs) t t' same wrote =
    let own = rows_of doc.doc_id rows in
    let (more, later) =
      step_written (is_distinct (ids own)) own doc.doc_id (write_docs rows docs) (length own) t t'
        wrote in
    (
      subst (λ k. all (is_kept doc.doc_id k) t' ≡ true) (same doc.doc_id)
          (write_docs-all doc.doc_id rows docs _ t'
            (all-keep_if (clean doc.doc_id rows) (upsert_rows own t)) later),
      write_docs-HasNoOrphans keep rows docs _ t' same later,
    )

-- The chunks that the documents with the id have now.
abbrev pub chunks_of : Text → List (SourceDoc × ChunkPiece) → List (SourceDoc × ChunkPiece)
chunks_of doc_id pairs = keep_if (λ (p : SourceDoc × ChunkPiece). p.0.doc_id == doc_id) pairs

length-make_rows :
    (model : Text) (created_at : ℕ) (doc_id : Text) (pairs : List (SourceDoc × ChunkPiece))
    (vectors : List (List Float)) {rows : List ChunkRow}
    → make_rows model created_at pairs vectors ≡ ok rows
    → length (rows_of doc_id rows) ≡ length (chunks_of doc_id pairs)
unfolding make_rows make_row
length-make_rows model created_at doc_id [] [] made = cc
length-make_rows model created_at doc_id [] (v ∷ vs) made = cc
length-make_rows model created_at doc_id (p ∷ ps) [] made = cc
length-make_rows model created_at doc_id (p ∷ ps) (v ∷ vs) made =
    let (more, rest, out) = >>=-eq-ok (make_rows model created_at ps vs) _ made in
    let later = length-make_rows model created_at doc_id ps vs rest in ground (arith, later)

-- After an ingestion that returned, the table has no row of an ingested document with an index from
-- the number of its chunks on, whatever rows it had before.
pub ingest_documents-HasNoOrphans :
    (enc : Encoding) (embed_documents : List Text → Result (List (List Float))) (model_name : Text)
    (docs : List SourceDoc) (batch_size created_at : ℕ) (t t' : Table) {stats : IngestStats}
    → ingest_documents enc embed_documents model_name docs batch_size created_at t ≡ (ok stats, t')
    → All (HasNoOrphans (λ d. length (chunks_of d (pairs_of enc docs))) t') docs
ingest_documents-HasNoOrphans enc embed_documents model_name docs batch_size created_at t t' done_ =
    let (vectors, rows, total, made, wrote) =
      ingested enc embed_documents model_name docs batch_size created_at t t' done_ in
    write_docs-HasNoOrphans (λ d. length (chunks_of d (pairs_of enc docs))) rows docs t t'
      (λ d. length-make_rows model_name created_at d (pairs_of enc docs) vectors made) wrote
