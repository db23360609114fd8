-- ===== src/Ingestion/Tests.antt =====
-- A tokenizer with one token for each character, and two rows.
use grounded_ops_agent.Prelude.Equality.{text_beq}
use grounded_ops_agent.Text.Words.{strip, rstrip, lstrip, strip_cons}
use grounded_ops_agent.Text.Chars.{is_space}
use grounded_ops_agent.Core.Errors.{external, Result, ok, raise}
use grounded_ops_agent.Ingestion.Chunker.{
  Encoding, is_break, split_lines, sections_from, split_markdown_sections, token_chunks_from,
  token_chunks, chunk_document,
}
use grounded_ops_agent.Ingestion.Chunker.Fuel.{token_chunks_from-fuel}
use grounded_ops_agent.Ingestion.Chunker.Numbers.{indices, chunk_document-indices}
use grounded_ops_agent.Ingestion.Chunker.Spans.{IsSpan, HasShortPrefixes, chunk_document-IsSpan}
use grounded_ops_agent.Ingestion.Indexer.{
  SourceDoc, ChunkRow, upsert_row, upsert_rows, upsert_chunks, delete_orphans, pairs_of, batches,
  embed_all, make_row, make_rows, IngestStats, write_docs, ingest_documents,
}
use grounded_ops_agent.Ingestion.Indexer.Idempotent.{restamped, upsert_chunks_idem}
use grounded_ops_agent.Ingestion.Indexer.Orphans.{
  HasNoOrphans, chunks_of, ingest_documents-HasNoOrphans,
}
use grounded_ops_agent.Prelude.{
  ◌≡◌, refl, true, false, List, [], ◌∷◌, map, arith, length, length-take, All, Text,
}
use grounded_ops_agent.Prelude.Ascending.{range_from}
use grounded_ops_agent.Prelude.Float.{Float}
use grounded_ops_agent.Text.Chars.{codes}
use grounded_ops_agent.Ingestion.Indexer.{Table, ids}
use grounded_ops_agent.Prelude.{nat_eq, text_eq, Distinct}

abbrev pub characters : Encoding
characters = record { encode = λ t. t; decode = λ t. t }

characters-HasShortPrefixes : HasShortPrefixes characters
characters-HasShortPrefixes text k = omega (arith, length-take k text)

abbrev notes : Text
notes = codes "# A\none two\n# B\nthree"

chunk_document-indices_example :
    indices (chunk_document characters notes true 4 1)
    ≡ range_from 0 (length (chunk_document characters notes true 4 1))
chunk_document-indices_example = chunk_document-indices characters notes true 4 1

chunk_document-IsSpan_example : All (IsSpan notes) (chunk_document characters notes true 4 1)
chunk_document-IsSpan_example =
    chunk_document-IsSpan characters characters-HasShortPrefixes notes true 4 1

sections_test :
    split_markdown_sections notes ≡ (codes "# A\none two\n", 0) ∷ (codes "# B\nthree", 12) ∷ []
unfolding split_markdown_sections split_lines sections_from is_break lstrip is_space
sections_test = refl

abbrev row : Text → ChunkRow
row id = record {
  chunk_id = id;
  doc_id = codes "d";
  source_type = codes "runbook";
  title = [];
  chunk_index = 0;
  char_start = 0;
  char_end = 3;
  content = codes "abc";
  embedding = [];
  embedding_model = codes "m";
  created_at = 7;
}

abbrev two_rows : List ChunkRow
two_rows = row (codes "d::0") ∷ row (codes "d::1") ∷ []

two_rows-Distinct : Distinct (ids two_rows)
unfolding text_beq
two_rows-Distinct = (refl, (refl, tt))

upsert_chunks_idem_example :
    (t' : Table) × (upsert_chunks two_rows [] ≡ (ok tt, t'))
    × (upsert_chunks (map (restamped 99) two_rows) t' ≡ (ok tt, t'))
upsert_chunks_idem_example = upsert_chunks_idem 99 two_rows [] two_rows-Distinct

-- Two rows with one id are not written.
same_ids_test :
    upsert_chunks (row (codes "d::0") ∷ row (codes "d::0") ∷ []) []
    ≡ (raise (external (codes "CardinalityViolation")), [])
unfolding upsert_chunks text_beq
same_ids_test = refl

token_chunks_from-fuel_example :
    token_chunks_from characters notes 0 4 1 25 0 0
    ≡ token_chunks_from characters notes 0 4 1 40 0 0
token_chunks_from-fuel_example =
    token_chunks_from-fuel characters notes 0 4 1 25 40 0 0 (omega arith) (omega arith)

-- A document that had two chunks, and has one now.
abbrev pub short_doc : SourceDoc
short_doc = record {
  doc_id = codes "d";
  source_type = codes "runbook";
  title = [];
  text = codes "abc";
  markdown = false;
}

abbrev old_rows : List ChunkRow
old_rows = row (codes "d::0") ∷ record (row (codes "d::1")) { chunk_index = 1 } ∷ []

abbrev no_vectors : List Text → Result (List (List Float))
no_vectors batch = ok (map (λ (t : Text). []) batch)

abbrev ingested : IngestStats × List ChunkRow
ingested =
    (record { documents = 1; chunks = 1; embedding_model = codes "m" }, row (codes "d::0") ∷ [])

ingest_documents_test :
    ingest_documents characters no_vectors (codes "m") (short_doc ∷ []) 64 9 old_rows
    ≡ (ok ingested.0, ingested.1)
unfolding ingest_documents batches embed_all make_rows write_docs pairs_of make_row upsert_chunks
    upsert_rows upsert_row delete_orphans chunk_document token_chunks strip rstrip lstrip is_space
    strip_cons text_beq
ingest_documents_test = refl

ingest_documents-HasNoOrphans_example :
    All
      (HasNoOrphans (λ d. length (chunks_of d (pairs_of characters (short_doc ∷ [])))) ingested.1)
      (short_doc ∷ [])
ingest_documents-HasNoOrphans_example =
    ingest_documents-HasNoOrphans characters no_vectors (codes "m") (short_doc ∷ []) 64 9 old_rows
      ingested.1 ingest_documents_test
