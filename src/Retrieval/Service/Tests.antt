-- ===== src/Retrieval/Service/Tests.antt =====
-- A service over one row of a table.
use grounded_ops_agent.Prelude.Equality.{text_beq}
use grounded_ops_agent.Text.Words.{strip, rstrip, lstrip, strip_cons}
use grounded_ops_agent.Text.Chars.{is_space}
use grounded_ops_agent.Agent.Tests.{test_settings}
use grounded_ops_agent.Core.Errors.{ok, raise}
use grounded_ops_agent.Ingestion.Chunker.{token_chunks, chunk_document}
use grounded_ops_agent.Ingestion.Indexer.{
  ChunkRow, upsert_row, upsert_rows, upsert_chunks, delete_orphans, pairs_of, batches, embed_all,
  make_row, make_rows, IngestStats, write_docs, ingest_documents,
}
use grounded_ops_agent.Ingestion.Tests.{characters, short_doc}
use grounded_ops_agent.Prelude.{
  ◌≡◌, refl, true, false, Option, none, some, List, [], ◌∷◌, map, arith, keep_if, Text, nat_eq,
  text_eq,
}
use grounded_ops_agent.Prelude.Dict.{lookup, insert}
use grounded_ops_agent.Prelude.Float.{zero_float}
use grounded_ops_agent.Prelude.Int.{pos}
use grounded_ops_agent.Retrieval.Faiss.Tests.{bytes_lib}
use grounded_ops_agent.Retrieval.Pgvector.{
  Postgres, where_in, apply_filters, row_chunk, pg_search, keyword_search, first_model,
  stored_embedding_model,
}
use grounded_ops_agent.Retrieval.Pgvector.Filtered.{KeepsRows, apply_filters-allows}
use grounded_ops_agent.Retrieval.Rrf.{count_rankings, sort_ranked, reciprocal_rank_fusion}
use grounded_ops_agent.Retrieval.Service.{
  Backends, mismatch, assert_model_matches, dense_search, ranked, retrieve,
}
use grounded_ops_agent.Retrieval.Service.Filtered.{HonoursFilters, IsAnswer}
use grounded_ops_agent.Retrieval.Service.Models.{service_over, retrieve-ingest_documents}
use grounded_ops_agent.Retrieval.Service.Stores.{
  Outside, build_retrieval_service, service-HonoursFilters, build_retrieval_service-IsAnswer,
}
use grounded_ops_agent.Retrieval.Tests.{counting}
use grounded_ops_agent.Retrieval.Types.{RetrievedChunk, SearchFilters, allows}
use grounded_ops_agent.Text.Chars.{codes}

abbrev plain_postgres : Postgres
plain_postgres = record {
  scan = λ t. t;
  order_by = λ f t. t;
  order_by_desc = λ f t. t;
  cosine_distance = λ a b. zero_float;
  matches = λ content query. true;
  ts_rank = λ content query. zero_float;
}

plain_postgres-KeepsRows : KeepsRows plain_postgres
plain_postgres-KeepsRows = record {
  scan = λ p t. refl;
  order_by = λ f p t. refl;
  order_by_desc = λ f p t. refl;
}

abbrev one_row : ChunkRow
one_row = record {
  chunk_id = codes "d::0";
  doc_id = codes "d";
  source_type = codes "runbook";
  title = [];
  chunk_index = 0;
  char_start = 0;
  char_end = 4;
  content = codes "text";
  embedding = zero_float ∷ [];
  embedding_model = codes "m";
  created_at = 7;
}

abbrev pub outside : Outside
outside = record {
  floats = counting;
  postgres = plain_postgres;
  chunks = one_row ∷ [];
  model_name = codes "m";
  embed_query = λ q. ok (zero_float ∷ []);
  predict = λ pairs. ok [];
}

abbrev pub only_runbooks : Option SearchFilters
only_runbooks = some (record { source_types = some (codes "runbook" ∷ []); doc_ids = none })

abbrev pub small_service : Backends
small_service = build_retrieval_service bytes_lib outside test_settings none

pub small_service-HonoursFilters : HonoursFilters small_service
small_service-HonoursFilters =
    service-HonoursFilters bytes_lib outside plain_postgres-KeepsRows test_settings none

abbrev fused_row : List RetrievedChunk
fused_row =
    record {
      chunk_id = codes "d::0";
      doc_id = codes "d";
      source_type = codes "runbook";
      title = [];
      content = codes "text";
      char_start = pos 0;
      char_end = pos 4;
      score = record { bits = 32 };
      retriever = codes "rrf";
    }
    ∷ []

retrieve-runbooks : retrieve small_service (codes "why") (pos 3) only_runbooks false ≡ ok fused_row
unfolding retrieve build_retrieval_service assert_model_matches stored_embedding_model first_model
    dense_search ranked pg_search keyword_search apply_filters where_in row_chunk
    reciprocal_rank_fusion count_rankings sort_ranked text_beq lookup insert
retrieve-runbooks = refl

build_retrieval_service-IsAnswer_example : IsAnswer only_runbooks 3 fused_row
build_retrieval_service-IsAnswer_example =
    build_retrieval_service-IsAnswer bytes_lib outside plain_postgres-KeepsRows test_settings none
      (codes "why") 3 only_runbooks false retrieve-runbooks

abbrev other_model : Outside
other_model = record outside { model_name = codes "n" }

abbrev other_service : Backends
other_service = build_retrieval_service bytes_lib other_model test_settings none

abbrev ingested_text : IngestStats × List ChunkRow
ingested_text = (
  record { documents = 1; chunks = 1; embedding_model = codes "m" },
  record one_row { title = []; content = codes "abc"; char_end = 3 } ∷ [],
)

ingest_text :
    ingest_documents characters
      (λ batch. ok (map (λ (t : Text). zero_float ∷ []) batch))
      (codes "m")
      (short_doc ∷ [])
      64
      7
      (one_row ∷ [])
    ≡ (ok ingested_text.0, ingested_text.1)
unfolding ingest_documents batches embed_all make_rows write_docs pairs_of make_row upsert_chunks
    upsert_rows upsert_row delete_orphans chunk_document token_chunks strip rstrip lstrip is_space
    strip_cons text_beq
ingest_text = refl

retrieve-ingest_documents_example :
    retrieve
      (service_over bytes_lib other_model test_settings none ingested_text.1)
      (codes "why")
      (pos 3)
      none
      false
    ≡ raise (mismatch other_service (codes "m"))
unfolding build_retrieval_service text_beq
retrieve-ingest_documents_example =
    retrieve-ingest_documents bytes_lib other_model test_settings none characters
      (λ batch. ok (map (λ (t : Text). zero_float ∷ []) batch)) (codes "m") (short_doc ∷ []) 64 7
      (one_row ∷ []) ingested_text.1 (codes "why") (pos 3) none false plain_postgres-KeepsRows refl
      ingest_text (omega arith) refl

apply_filters-allows_example :
    apply_filters
      (some (record { source_types = none; doc_ids = some (codes "d" ∷ []) }))
      (one_row ∷ [])
    ≡ keep_if
        (λ row.
          allows
            (record { source_types = none; doc_ids = some (codes "d" ∷ []) })
            row.source_type
            row.doc_id)
        (one_row ∷ [])
apply_filters-allows_example =
    apply_filters-allows (record { source_types = none; doc_ids = some (codes "d" ∷ []) })
      (one_row ∷ [])
