-- ===== src/Ingestion/Indexer.antt =====
-- src/app/ingestion/indexer.py and the writer of src/app/ingestion/store.py, whose table is a list
-- of rows: an upsert on `chunk_id` and a DELETE by `doc_id` and `chunk_index`. Each is a transaction of
-- its own, so what was written before a raise stays.
pub mod Idempotent
pub mod Rows
pub mod Orphans
use grounded_ops_agent.Core.Effects.{◌>>=◌, ◌>>◌}
use grounded_ops_agent.Core.Effects.{Code, returns, attempted, writes}
use grounded_ops_agent.Core.Errors.{value_error, external, Result, ok, raise, and_then}
use grounded_ops_agent.Ingestion.Chunker.{
  target_tokens, overlap_tokens, ChunkPiece, Encoding, chunk_document,
}
use grounded_ops_agent.Prelude.{
  ℕ, zero, suc, ◌+◌, Bool, true, false, not, ◌&&◌, List, [], ◌∷◌, ◌++◌, map, leb, if◌then◌else◌,
  length, take, drop, keep_if, ◌==◌, Text, nat_eq, text_eq, contains,
}
use grounded_ops_agent.Prelude.Float.{Float}
use grounded_ops_agent.Text.Chars.{codes}
use grounded_ops_agent.Text.Decimal.{decimal}

pub record SourceDoc : Type 0 where
  pub doc_id : Text
  pub source_type : Text
  pub title : Text
  pub text : Text
  pub markdown : Bool

-- An embedding is a list of floats; a time stamp is a number.
pub record ChunkRow : Type 0 where
  pub chunk_id : Text
  pub doc_id : Text
  pub source_type : Text
  pub title : Text
  pub chunk_index : ℕ
  pub char_start : ℕ
  pub char_end : ℕ
  pub content : Text
  pub embedding : List Float
  pub embedding_model : Text
  pub created_at : ℕ

abbrev pub Table : Type 0
Table = List ChunkRow

-- `ON CONFLICT (chunk_id) DO UPDATE`: `created_at` is kept, everything else is refreshed.
unfoldable pub upsert_row : ChunkRow → Table → Table
upsert_row row [] = row ∷ []
upsert_row row (old ∷ rows) =
    if old.chunk_id == row.chunk_id
    then record row { created_at = old.created_at } ∷ rows
    else old ∷ upsert_row row rows

unfoldable pub upsert_rows : List ChunkRow → Table → Table
unfolding upsert_row
upsert_rows [] t = t
upsert_rows (row ∷ rows) t = upsert_rows rows (upsert_row row t)

abbrev pub ids : List ChunkRow → List Text
ids rows = map (λ (r : ChunkRow). r.chunk_id) rows

abbrev pub is_distinct : List Text → Bool
is_distinct [] = true
is_distinct (x ∷ xs) = not (contains xs x) && is_distinct xs

-- The statement on rows whose ids are distinct, or are not.
abbrev pub upserted : (distinct_ids : Bool) → List ChunkRow → Code Table Unit
upserted true rows t = (ok tt, upsert_rows rows t)
upserted false rows t = (raise (external (codes "CardinalityViolation")), t)

-- One `INSERT ... ON CONFLICT DO UPDATE` of all rows, which raises when two of them have the same
-- `chunk_id`: it cannot affect a row twice.
unfoldable pub upsert_chunks : List ChunkRow → Code Table Unit
unfolding upsert_rows
upsert_chunks rows = upserted (is_distinct (ids rows)) rows

abbrev pub is_orphan : Text → ℕ → ChunkRow → Bool
is_orphan doc_id keep row = (row.doc_id == doc_id) && leb keep row.chunk_index

-- `DELETE ... WHERE doc_id = ... AND chunk_index >= keep`
unfoldable pub delete_orphans : Text → (keep : ℕ) → Table → Table
delete_orphans doc_id keep t = keep_if (λ row. not (is_orphan doc_id keep row)) t

-- `SELECT count(*)`
unfoldable pub count : Table → ℕ
count t = length t

abbrev pub pieces_of : Encoding → SourceDoc → List (SourceDoc × ChunkPiece)
pieces_of enc doc =
    map (λ p. (doc, p)) (chunk_document enc doc.text doc.markdown target_tokens overlap_tokens)

unfoldable pub pairs_of : Encoding → List SourceDoc → List (SourceDoc × ChunkPiece)
pairs_of enc [] = []
pairs_of enc (doc ∷ docs) = pieces_of enc doc ++ pairs_of enc docs

-- The batches of `batch_size` texts, for a positive size (`range` raises for 0): the number of texts
-- is fuel enough.
unfoldable pub batches : (batch_size fuel : ℕ) → List Text → List (List Text)
batches batch_size zero texts = []
batches batch_size (suc fuel) [] = []
batches batch_size (suc fuel) (t ∷ ts) =
    take batch_size (t ∷ ts) ∷ batches batch_size fuel (drop batch_size (t ∷ ts))

-- `provider.embed_documents` of one batch may raise.
unfoldable pub embed_all :
    (List Text → Result (List (List Float))) → List (List Text) → Result (List (List Float))
embed_all embed_documents [] = ok []
embed_all embed_documents (batch ∷ bs) =
    and_then (embed_documents batch)
      λ vectors. and_then (embed_all embed_documents bs) λ more. ok (vectors ++ more)

unfoldable pub make_row :
    (model : Text) (created_at : ℕ) → SourceDoc × ChunkPiece → List Float → ChunkRow
unfolding decimal
make_row model created_at (doc, piece) vector = record {
  chunk_id = doc.doc_id ++ codes "::" ++ decimal piece.chunk_index;
  doc_id = doc.doc_id;
  source_type = doc.source_type;
  title = doc.title;
  chunk_index = piece.chunk_index;
  char_start = piece.char_start;
  char_end = piece.char_end;
  content = piece.content;
  embedding = vector;
  embedding_model = model;
  created_at = created_at;
}

-- `zip(pairs, vectors, strict=True)`: lists of different lengths raise `ValueError`.
unfoldable pub make_rows :
    (model : Text) (created_at : ℕ)
    → List (SourceDoc × ChunkPiece)
    → List (List Float)
    → Result (List ChunkRow)
unfolding make_row
make_rows model created_at [] [] = ok []
make_rows model created_at (p ∷ ps) (v ∷ vs) =
    and_then (make_rows model created_at ps vs) λ rows. ok (make_row model created_at p v ∷ rows)
make_rows model created_at [] (v ∷ vs) = raise value_error
make_rows model created_at (p ∷ ps) [] = raise value_error

-- `rows_by_doc.get(doc_id, [])`
abbrev pub rows_of : Text → List ChunkRow → List ChunkRow
rows_of doc_id rows = keep_if (λ (r : ChunkRow). r.doc_id == doc_id) rows

pub record IngestStats : Type 0 where
  pub documents : ℕ
  pub chunks : ℕ
  pub embedding_model : Text

-- The last loop: the number of rows written.
unfoldable pub write_docs : List ChunkRow → List SourceDoc → Code Table ℕ
unfolding upsert_chunks delete_orphans
write_docs rows [] = returns 0
write_docs rows (doc ∷ docs) = do
  let own = rows_of doc.doc_id rows
  upsert_chunks own
  writes (delete_orphans doc.doc_id (length own))
  total ← write_docs rows docs
  returns (length own + total)

module _ (enc : Encoding) (embed_documents : List Text → Result (List (List Float)))
    (model_name : Text) where
  unfoldable pub ingest_documents :
      (docs : List SourceDoc) (batch_size created_at : ℕ) → Code Table IngestStats
  unfolding pairs_of batches embed_all make_rows write_docs
  ingest_documents docs batch_size created_at = do
    let pairs = pairs_of enc docs
    let texts = map (λ (p : SourceDoc × ChunkPiece). p.1.content) pairs
    vectors ← attempted (embed_all embed_documents (batches batch_size (length texts) texts))
    rows ← attempted (make_rows model_name created_at pairs vectors)
    total ← write_docs rows docs
    returns (record { documents = length docs; chunks = total; embedding_model = model_name })
