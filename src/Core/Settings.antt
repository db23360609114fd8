-- ===== src/Core/Settings.antt =====
-- src/app/core/settings.py: the validated configuration. Where `Settings` bounds a field from below
-- the bound is part of `HasBounds`; reading the environment is pydantic's.
use grounded_ops_agent.Core.Errors.{Error, key_error, value_error, Result, ok, raise, ◌>>◌}
use grounded_ops_agent.Prelude.{
  ℕ, ◌≤◌, ◌≡◌, refl, Bool, true, false, not, ◌&&◌, Option, none, some, List, [], ◌∷◌, Text, nat_eq,
  text_eq, contains,
}
use grounded_ops_agent.Prelude.Dict.{keys, lookup}
use grounded_ops_agent.Text.Chars.{codes}

pub data EmbeddingProviderName : Type 0 where
  huggingface openai_embeddings fake_embeddings : EmbeddingProviderName

pub data LlmProviderName : Type 0 where
  anthropic openai fake : LlmProviderName

pub data McpTransport : Type 0 where
  stdio streamable_http : McpTransport

pub record Settings : Type 0 where
  pub database_url : Text
  pub db_pool_size : ℕ
  pub embedding_provider : EmbeddingProviderName
  pub embedding_model : Text
  pub llm_provider : LlmProviderName
  pub llm_model : Text
  pub openai_api_key : Option Text
  pub anthropic_api_key : Option Text
  pub reranker_enabled : Bool
  pub rrf_k : ℕ
  pub retrieval_top_k : ℕ
  pub mcp_transport : McpTransport
  pub mcp_server_url : Text
  pub mcp_max_result_rows : ℕ
  pub max_agent_steps : ℕ
  pub per_request_token_budget : ℕ
  pub tool_timeout_seconds : ℕ
  pub max_tool_retries : ℕ
  pub max_output_tokens : ℕ
  pub llm_thinking : Bool
  pub eval_judge_model : Text
  pub data_seed : ℕ
  pub app_host : Text
  pub app_port : ℕ
  pub log_level : Text
  pub max_query_chars : ℕ
  pub max_document_chars : ℕ

-- The `ge=` constraints of the fields.
pub record HasBounds (s : Settings) : Type 0 where
  pub rrf_k : 1 ≤ s.rrf_k
  pub retrieval_top_k : 1 ≤ s.retrieval_top_k
  pub mcp_max_result_rows : 1 ≤ s.mcp_max_result_rows
  pub max_agent_steps : 1 ≤ s.max_agent_steps
  pub per_request_token_budget : 1000 ≤ s.per_request_token_budget
  pub tool_timeout_seconds : 1 ≤ s.tool_timeout_seconds
  pub max_output_tokens : 256 ≤ s.max_output_tokens
  pub max_query_chars : 1 ≤ s.max_query_chars
  pub max_document_chars : 1 ≤ s.max_document_chars

unfoldable pub embedding_dims : List (Text × ℕ)
embedding_dims =
    (codes "BAAI/bge-small-en-v1.5", 384)
    ∷ (codes "all-MiniLM-L6-v2", 384)
    ∷ (codes "sentence-transformers/all-MiniLM-L6-v2", 384)
    ∷ (codes "text-embedding-3-small", 1536)
    ∷ (codes "text-embedding-3-large", 3072)
    ∷ []

-- `EMBEDDING_DIMS[self.embedding_model]`
unfoldable pub embedding_dim : Settings → Result ℕ
unfolding embedding_dims
embedding_dim s = elim (lookup s.embedding_model embedding_dims) [
  | none ↦ raise key_error
  | some d ↦ ok d
]

-- `not key`: no key, or the empty one.
abbrev pub is_unset : Option Text → Bool
is_unset none = true
is_unset (some []) = true
is_unset (some (c ∷ s)) = false

abbrev pub check : Bool → Error → Result (Unit {0})
check true e = raise e
check false e = ok tt

abbrev pub is_anthropic : LlmProviderName → Bool
is_anthropic anthropic = true
is_anthropic _ = false

abbrev pub is_openai : LlmProviderName → Bool
is_openai openai = true
is_openai _ = false

abbrev pub is_openai_embeddings : EmbeddingProviderName → Bool
is_openai_embeddings openai_embeddings = true
is_openai_embeddings _ = false

-- The model validator: it returns the settings or raises `ValueError`.
unfoldable pub check_consistency : Settings → Result Settings
unfolding embedding_dims
check_consistency s = do
  check (not (contains (keys embedding_dims) s.embedding_model)) value_error
  check (is_anthropic s.llm_provider && is_unset s.anthropic_api_key) value_error
  check (is_openai s.llm_provider && is_unset s.openai_api_key) value_error
  check (is_openai_embeddings s.embedding_provider && is_unset s.openai_api_key) value_error
  ok s

-- A check that passed.
pub check-ok : (b : Bool) (e : Error) {u : Unit {0}} → check b e ≡ ok u → b ≡ false
check-ok true e h = cc
check-ok false e h = refl
