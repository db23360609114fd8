-- ===== src/Api/Tests.antt =====
-- Requests on a service over one row, and a chat with a scripted model.
use grounded_ops_agent.Prelude.Equality.{text_beq}
use grounded_ops_agent.Agent.Tests.{test_settings, scripted}
use grounded_ops_agent.Api.Chat.{ChatServer, event_stream, Ends, event_stream-Ends}
use grounded_ops_agent.Api.Requests.{
  SearchRequest, ChunkResult, SearchResponse, filters_of, check_length, result_snippet,
}
use grounded_ops_agent.Api.Search.{chunk_result, search_endpoint, IsShown, search_endpoint_bounded}
use grounded_ops_agent.Api.Status.{
  status_of_code, message_of, ErrorResponse, handle_app_error, handle_app_error-is_fault_of_caller,
}
use grounded_ops_agent.Core.Errors.{embedding_mismatch, code, ok}
use grounded_ops_agent.Prelude.{
  ℕ, ◌≤◌, ◌≡◌, refl, true, none, some, [], ◌∷◌, length, All, nat_eq, text_eq,
}
use grounded_ops_agent.Prelude.Dict.{lookup, insert}
use grounded_ops_agent.Retrieval.Pgvector.{pg_search, keyword_search, stored_embedding_model}
use grounded_ops_agent.Retrieval.Service.{retrieve}
use grounded_ops_agent.Retrieval.Service.Stores.{build_retrieval_service}
use grounded_ops_agent.Retrieval.Service.Tests.{small_service, small_service-HonoursFilters}
use grounded_ops_agent.Text.Chars.{codes, is_space}
use grounded_ops_agent.Text.Words.{end_word, split_from, split, join}
use grounded_ops_agent.Prelude.{ltb}

abbrev asked_runbooks : SearchRequest
asked_runbooks = record {
  query = codes "why";
  top_k = 3;
  source_types = some (codes "runbook" ∷ []);
}

abbrev one_result : ChunkResult
one_result = record {
  chunk_id = codes "d::0";
  doc_id = codes "d";
  source_type = codes "runbook";
  title = [];
  snippet = codes "text";
  score = record { bits = 32 };
  retriever = codes "rrf";
}

abbrev one_response : SearchResponse
one_response = record { query = codes "why"; results = one_result ∷ [] }

one_response-found : search_endpoint small_service test_settings asked_runbooks ≡ ok one_response
unfolding search_endpoint check_length filters_of retrieve build_retrieval_service
    stored_embedding_model pg_search keyword_search text_beq lookup insert chunk_result
    result_snippet join split split_from end_word is_space
one_response-found = refl

search_endpoint_bounded_example :
    (length asked_runbooks.query ≤ test_settings.max_query_chars)
    × (length one_response.results ≤ 3)
    × All (IsShown small_service test_settings asked_runbooks.source_types) one_response.results
search_endpoint_bounded_example =
    search_endpoint_bounded small_service test_settings asked_runbooks one_response
      small_service-HonoursFilters one_response-found

abbrev conflict : ErrorResponse
conflict = record {
  error = codes "embedding_mismatch";
  detail = codes "m";
  request_id = some (codes "r");
}

conflict-handled :
    handle_app_error (some (codes "r")) (embedding_mismatch (codes "m")) ≡ some (409, conflict)
unfolding handle_app_error code status_of_code message_of text_beq lookup
conflict-handled = refl

handle_app_error-is_fault_of_caller_example :
    (http : ℕ) × (body : ErrorResponse) × (handle_app_error
        (some (codes "r"))
        (embedding_mismatch (codes "m"))
      ≡ some (http, body))
    × (ltb http 500 ≡ true)
    × (400 ≤ http)
    × (code (embedding_mismatch (codes "m")) ≡ some body.error)
    × (body.detail ≡ message_of (embedding_mismatch (codes "m")))
    × (body.request_id ≡ some (codes "r"))
handle_app_error-is_fault_of_caller_example =
    handle_app_error-is_fault_of_caller (some (codes "r")) (embedding_mismatch (codes "m")) refl

abbrev chat_server : ChatServer ℕ
chat_server = record {
  settings = test_settings;
  enter = λ w. (ok tt, w);
  leave = λ w. (ok tt, w);
  environment = λ p. scripted;
  dumps_data = λ e. [];
  dumps_error = λ e. [];
}

event_stream-Ends_example : Ends chat_server (
    event_stream chat_server
      (record { question = codes "why?"; top_k = some 3; source_types = none })
      none
      0)
event_stream-Ends_example =
    event_stream-Ends chat_server
      (record { question = codes "why?"; top_k = some 3; source_types = none }) none 0
