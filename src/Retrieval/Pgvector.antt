-- ===== src/Retrieval/Pgvector.antt =====
-- src/app/retrieval/pgvector_store.py over the rows of the table `chunks`.
pub mod Filtered
use grounded_ops_agent.Ingestion.Indexer.{ChunkRow, Table}
use grounded_ops_agent.Prelude.{
  ℕ, Bool, Option, none, some, List, [], ◌∷◌, map, take, keep_if, Text, nat_eq, text_eq, contains,
}
use grounded_ops_agent.Prelude.Dict.{values}
use grounded_ops_agent.Prelude.Float.{Float, FloatOps}
use grounded_ops_agent.Prelude.Int.{ℤ, pos}
use grounded_ops_agent.Retrieval.Types.{RetrievedChunk, SearchFilters}
use grounded_ops_agent.Text.Chars.{codes}

-- A chunk with its embedding.
pub record StoredChunk : Type 0 where
  pub chunk_id : Text
  pub doc_id : Text
  pub source_type : Text
  pub title : Text
  pub content : Text
  pub char_start : ℤ
  pub char_end : ℤ
  pub embedding : List Float

-- What the database does: the order in which it gives rows back, and its functions.
pub record Postgres : Type 0 where
  pub scan : Table → Table
  -- `ORDER BY`, ascending and `DESC`
  pub order_by : (ChunkRow → Float) → Table → Table
  pub order_by_desc : (ChunkRow → Float) → Table → Table
  pub cosine_distance : List Float → List Float → Float
  -- `to_tsvector('english', content) @@ plainto_tsquery('english', query)`
  pub matches : (content query : Text) → Bool
  pub ts_rank : (content query : Text) → Float

-- One `WHERE column IN (...)`, when it is asked for.
unfoldable pub where_in : (ChunkRow → Text) → Option (List Text) → Table → Table
where_in column none rows = rows
where_in column (some values) rows = keep_if (λ row. contains values (column row)) rows

unfoldable pub apply_filters : Option SearchFilters → Table → Table
unfolding where_in
apply_filters none rows = rows
apply_filters (some f) rows =
    where_in (λ row. row.doc_id) f.doc_ids (where_in (λ row. row.source_type) f.source_types rows)

unfoldable pub row_chunk : (retriever : Text) → (ChunkRow → Float) → ChunkRow → RetrievedChunk
row_chunk retriever score row = record {
  chunk_id = row.chunk_id;
  doc_id = row.doc_id;
  source_type = row.source_type;
  title = row.title;
  content = row.content;
  char_start = pos row.char_start;
  char_end = pos row.char_end;
  score = score row;
  retriever = retriever;
}

module _ (floats : FloatOps) (pg : Postgres) (chunks : Table) where
  unfoldable pub pg_search :
      (query_vector : List Float) (top_k : ℕ) → Option SearchFilters → List RetrievedChunk
  unfolding apply_filters row_chunk
  pg_search query_vector top_k filters =
      let distance = λ (row : ChunkRow). pg.cosine_distance row.embedding query_vector in
      map (row_chunk (codes "pgvector") (λ row. floats.sub (floats.of_ℕ 1) (distance row)))
        (take top_k (pg.order_by distance (apply_filters filters chunks)))

  unfoldable pub keyword_search :
      (query : Text) (top_k : ℕ) → Option SearchFilters → List RetrievedChunk
  unfolding apply_filters row_chunk
  keyword_search query top_k filters =
      let rank = λ (row : ChunkRow). pg.ts_rank row.content query in
      map (row_chunk (codes "keyword") rank) (
        take top_k (
          pg.order_by_desc rank
            (apply_filters filters (keep_if (λ row. pg.matches row.content query) chunks))))

-- `LIMIT 1` and `scalar_one_or_none`.
unfoldable pub first_model : Table → Option Text
first_model [] = none
first_model (row ∷ rows) = some row.embedding_model

unfoldable pub stored_embedding_model : Postgres → Table → Option Text
unfolding first_model
stored_embedding_model pg chunks = first_model (pg.scan chunks)

unfoldable pub stored_chunk : ChunkRow → StoredChunk
stored_chunk row = record {
  chunk_id = row.chunk_id;
  doc_id = row.doc_id;
  source_type = row.source_type;
  title = row.title;
  content = row.content;
  char_start = pos row.char_start;
  char_end = pos row.char_end;
  embedding = row.embedding;
}

unfoldable pub load_all : Postgres → Table → List StoredChunk
unfolding stored_chunk
load_all pg chunks = map stored_chunk (pg.scan chunks)
