-- ===== src/Llm/Tests.antt =====
-- A conversation with two tool results in a row.
use grounded_ops_agent.Prelude.Equality.{text_beq}
use grounded_ops_agent.Core.Errors.{ok}
use grounded_ops_agent.Core.Settings.{
  fake_embeddings, openai, stdio, Settings, embedding_dims, check_consistency,
}
use grounded_ops_agent.Llm.Anthropic.{to_messages}
use grounded_ops_agent.Llm.Anthropic.Merged.{taken_apart, turn_of, is_merged, to_messages-results}
use grounded_ops_agent.Llm.EchoTests.{hashing_libs}
use grounded_ops_agent.Llm.Embeddings.{Embedder, get_embedding_provider}
use grounded_ops_agent.Llm.Factory.{ProviderChoice, get_llm_provider}
use grounded_ops_agent.Llm.Factory.Consistent.{check_consistency_provider}
use grounded_ops_agent.Llm.Types.{Role, user, assistant, tool, LlmMessage}
use grounded_ops_agent.Prelude.{◌≡◌, refl, true, false, none, some, List, [], ◌∷◌, map, Text}
use grounded_ops_agent.Text.Chars.{codes}

abbrev said : Role → Text → LlmMessage
said r t = record {
  role = r;
  content = some t;
  tool_calls = [];
  tool_call_id = none;
  is_error = false;
}

abbrev conversation : List LlmMessage
conversation =
    said user (codes "q")
    ∷ said assistant (codes "a")
    ∷ said tool (codes "1")
    ∷ said tool (codes "2")
    ∷ said user (codes "stop")
    ∷ []

to_messages-results_example :
    (taken_apart (to_messages conversation) ≡ map turn_of conversation)
    × (is_merged (to_messages conversation) ≡ true)
to_messages-results_example = to_messages-results conversation

abbrev offline : Settings
offline = record {
  database_url = [];
  db_pool_size = 5;
  embedding_provider = fake_embeddings;
  embedding_model = codes "all-MiniLM-L6-v2";
  llm_provider = openai;
  llm_model = codes "m";
  openai_api_key = some (codes "k");
  anthropic_api_key = none;
  reranker_enabled = false;
  rrf_k = 60;
  retrieval_top_k = 8;
  mcp_transport = stdio;
  mcp_server_url = [];
  mcp_max_result_rows = 1000;
  max_agent_steps = 3;
  per_request_token_budget = 30000;
  tool_timeout_seconds = 15;
  max_tool_retries = 2;
  max_output_tokens = 2000;
  llm_thinking = false;
  eval_judge_model = [];
  data_seed = 1337;
  app_host = [];
  app_port = 8000;
  log_level = [];
  max_query_chars = 4000;
  max_document_chars = 200000;
}

offline-consistent : check_consistency offline ≡ ok offline
unfolding check_consistency embedding_dims text_beq
offline-consistent = refl

check_consistency_provider_example :
    (offline ≡ offline)
    × ((p : ProviderChoice) × (get_llm_provider offline ≡ ok p))
    × ((b : Embedder) × (get_embedding_provider hashing_libs offline ≡ ok b))
check_consistency_provider_example =
    check_consistency_provider hashing_libs offline offline offline-consistent
