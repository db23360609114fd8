-- ===== src/Mcp/Tests.antt =====
-- The tool on a service over one row, and a client whose initialization fails.
use grounded_ops_agent.Prelude.Equality.{text_beq}
use grounded_ops_agent.Agent.Tests.{test_settings}
use grounded_ops_agent.Api.Requests.{filters_of, result_snippet}
use grounded_ops_agent.Core.Errors.{ok}
use grounded_ops_agent.Mcp.Server.{
  FoundRecord, found_of, search_records, IsFound, search_records_bounded,
}
use grounded_ops_agent.Prelude.{
  ◌≤◌, ◌≡◌, refl, Option, some, List, [], ◌∷◌, length, All, Text, nat_eq, text_eq,
}
use grounded_ops_agent.Prelude.Dict.{lookup, insert}
use grounded_ops_agent.Prelude.Int.{pos}
use grounded_ops_agent.Retrieval.Pgvector.{pg_search, keyword_search, stored_embedding_model}
use grounded_ops_agent.Retrieval.Service.{retrieve}
use grounded_ops_agent.Retrieval.Service.Stores.{build_retrieval_service}
use grounded_ops_agent.Retrieval.Service.Tests.{small_service, small_service-HonoursFilters}
use grounded_ops_agent.Text.Chars.{codes, is_space}
use grounded_ops_agent.Text.Words.{end_word, split_from, split, join}

abbrev one_found : List FoundRecord
one_found =
    record {
      chunk_id = codes "d::0";
      doc_id = codes "d";
      source_type = codes "runbook";
      title = [];
      snippet = codes "text";
      score = record { bits = 32 };
    }
    ∷ []

abbrev kinds : Option (List Text)
kinds = some (codes "runbook" ∷ [])

one_found-found :
    search_records small_service test_settings (codes "why") kinds (pos 50) ≡ ok one_found
unfolding search_records filters_of retrieve build_retrieval_service stored_embedding_model
    pg_search keyword_search text_beq lookup insert found_of result_snippet join split split_from
    end_word is_space
one_found-found = refl

search_records_bounded_example :
    (length one_found ≤ 50)
    × (length one_found ≤ 20)
    × All (IsFound small_service test_settings kinds) one_found
search_records_bounded_example =
    search_records_bounded small_service test_settings (codes "why") kinds 50 one_found
      small_service-HonoursFilters one_found-found
