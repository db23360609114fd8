-- ===== src/Api/Ingest.antt =====
-- src/app/api/ingest.py over the indexer.
use grounded_ops_agent.Core.Effects.{◌>>=◌, ◌>>◌}
use grounded_ops_agent.Api.Requests.{
  IngestDocument, IngestResponse, check_length, exceeds, check_length-ok,
}
use grounded_ops_agent.Core.Effects.{Code, returns, attempted}
use grounded_ops_agent.Core.Errors.{Result, ok, and_then, >>=-eq-ok}
use grounded_ops_agent.Core.Settings.{Settings}
use grounded_ops_agent.Ingestion.Chunker.{Encoding}
use grounded_ops_agent.Ingestion.Indexer.{SourceDoc, Table, ingest_documents}
use grounded_ops_agent.Prelude.{ℕ, ◌≤◌, ◌≡◌, List, [], ◌∷◌, ◌++◌, map, length, All, Text}
use grounded_ops_agent.Prelude.Float.{Float}
use grounded_ops_agent.Text.Chars.{codes}

unfoldable pub source_doc : IngestDocument → SourceDoc
source_doc d = record {
  doc_id = d.doc_id;
  source_type = d.source_type;
  title = d.title;
  text = d.text;
  markdown = d.markdown;
}

-- The first loop: no document is longer than the limit.
unfoldable pub check_documents : (limit : ℕ) → List IngestDocument → Result (Unit {0})
unfolding check_length
check_documents limit [] = ok tt
check_documents limit (d ∷ ds) =
    and_then
      (check_length limit (exceeds (codes "document '" ++ d.doc_id ++ codes "'") limit) d.text)
      λ u. check_documents limit ds

module _ (settings : Settings) (enc : Encoding)
    (embed_documents : List Text → Result (List (List Float))) (model_name : Text) where
  -- The handler of `POST /ingest`, with the default batch size.
  unfoldable pub ingest_endpoint :
      List IngestDocument → (created_at : ℕ) → Code Table IngestResponse
  unfolding check_documents source_doc ingest_documents
  ingest_endpoint documents created_at = do
    attempted (check_documents settings.max_document_chars documents)
    stats ← ingest_documents enc embed_documents model_name (map source_doc documents) 64 created_at
    returns (record {
      documents = stats.documents;
      chunks = stats.chunks;
      embedding_model = stats.embedding_model;
    })

  check_documents-ok :
      (limit : ℕ) (ds : List IngestDocument) {u : Unit {0}}
      → check_documents limit ds ≡ ok u
      → All (λ (d : IngestDocument). length d.text ≤ limit) ds
  unfolding check_documents
  check_documents-ok limit [] h = tt
  check_documents-ok limit (d ∷ ds) h =
      let message = exceeds (codes "document '" ++ d.doc_id ++ codes "'") limit in
      let (_, first_, h1) = >>=-eq-ok (check_length limit message d.text) _ h in
      (check_length-ok limit message d.text first_, check_documents-ok limit ds h1)
