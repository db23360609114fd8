-- ===== src/Agent/Tests.antt =====
-- A scripted run and small registries, on which the theorems of the agent are applied.
use grounded_ops_agent.Prelude.Equality.{text_beq}
use grounded_ops_agent.Text.Words.{strip}
use grounded_ops_agent.Agent.Citations.{
  digits_close, cite_match, citations_from, citations, collapse_spaces, validate_and_strip,
}
use grounded_ops_agent.Agent.Citations.Cleaned.{
  digits_open, has_nested, citations-validate_and_strip,
}
use grounded_ops_agent.Agent.Citations.Kept.{visible, validate_and_strip_known}
use grounded_ops_agent.Agent.Citations.Valid.{known_only, validate_and_strip-used}
use grounded_ops_agent.Agent.Consumer.Grounded.{Supported}
use grounded_ops_agent.Agent.Generation.{Source, sources_for}
use grounded_ops_agent.Agent.Generation.Grounding.{IsSourceOf, sources_for_used}
use grounded_ops_agent.Agent.Grounded.{
  GroundedAnswer, answer_from, generate_grounded_answer, generate_grounded_answer-Supported,
}
use grounded_ops_agent.Agent.Prompts.{build_answer_prompt}
use grounded_ops_agent.Agent.Registry.{
  CitationEntry, CitationRegistry, empty_registry, make_entry, add, entries, has_index, get,
  render_for_prompt,
}
use grounded_ops_agent.Agent.Registry.Invariant.{IsIndexed, IsIndexed-empty, add-IsIndexed}
use grounded_ops_agent.Agent.Registry.Stability.{get-add, Labels, add-Labels, add_idem}
use grounded_ops_agent.Agent.Session.{Environment}
use grounded_ops_agent.Core.Errors.{tool_error, Result, ok, raise}
use grounded_ops_agent.Core.Settings.{fake_embeddings, fake, stdio, Settings}
use grounded_ops_agent.Llm.Types.{null, no_fields, field, ToolCall, LlmUsage, no_usage, LlmResponse}
use grounded_ops_agent.Prelude.{
  ℕ, zero, suc, ◌+◌, ◌-◌, ◌*◌, ◌≡◌, refl, true, false, ◌&&◌, none, some, List, [], ◌∷◌, map, ltb,
  all, All, Text, nat_eq, text_eq, contains,
}
use grounded_ops_agent.Prelude.Ascending.{Ascending}
use grounded_ops_agent.Prelude.Float.{zero_float, FloatOps}
use grounded_ops_agent.Prelude.Int.{pos}
use grounded_ops_agent.Retrieval.Types.{RetrievedChunk}
use grounded_ops_agent.Text.Chars.{codes, is_digit}
use grounded_ops_agent.Text.Decimal.{int}

-- The world counts the completions: the first asks for a tool, the second answers.
abbrev first_call : ToolCall
first_call = record {
  id = codes "c1";
  name = codes "search_records";
  arguments = field (codes "q") null no_fields;
}

abbrev spent : LlmUsage
spent = record { input_tokens = 10; output_tokens = 5 }

abbrev pub reply : ℕ → LlmResponse
reply zero = record {
  text = [];
  tool_calls = first_call ∷ [];
  usage = spent;
  stop_reason = codes "tool_use";
  model = [];
}
reply (suc n) = record {
  text = codes "Latency rose [1] [7].";
  tool_calls = [];
  usage = spent;
  stop_reason = codes "end_turn";
  model = codes "m";
}

abbrev pub chunk : Text → RetrievedChunk
chunk id = record {
  chunk_id = id;
  doc_id = codes "d";
  source_type = codes "ticket";
  title = codes "t";
  content = codes "slow  queries";
  char_start = pos 0;
  char_end = pos 5;
  score = zero_float;
  retriever = codes "dense";
}

abbrev pub test_settings : Settings
test_settings = record {
  database_url = [];
  db_pool_size = 5;
  embedding_provider = fake_embeddings;
  embedding_model = codes "all-MiniLM-L6-v2";
  llm_provider = fake;
  llm_model = codes "m";
  openai_api_key = none;
  anthropic_api_key = none;
  reranker_enabled = false;
  rrf_k = 60;
  retrieval_top_k = 8;
  mcp_transport = stdio;
  mcp_server_url = [];
  mcp_max_result_rows = 1000;
  max_agent_steps = 3;
  per_request_token_budget = 30000;
  tool_timeout_seconds = 15;
  max_tool_retries = 2;
  max_output_tokens = 2000;
  llm_thinking = false;
  eval_judge_model = [];
  data_seed = 1337;
  app_host = [];
  app_port = 8000;
  log_level = [];
  max_query_chars = 4000;
  max_document_chars = 200000;
}

abbrev pub test_floats : FloatOps
test_floats = record {
  of_ℕ = λ n. record { bits = n };
  add = λ a b. record { bits = a.bits + b.bits };
  sub = λ a b. record { bits = a.bits - b.bits };
  mul = λ a b. record { bits = a.bits * b.bits };
  div = λ a b. a;
  lt = λ a b. ltb a.bits b.bits;
  round = λ a n. a;
}

abbrev pub scripted : Environment ℕ
scripted = record {
  settings = test_settings;
  floats = test_floats;
  prices = [];
  model_name = codes "m";
  count_tokens = λ messages system tools w. (ok 100, w);
  complete = λ system messages tools max_tokens w. (ok (reply w), suc w);
  retrieve = λ question top_k filters w. (ok (chunk (codes "a") ∷ chunk (codes "b") ∷ []), w);
  list_tools = λ w. (ok [], w);
  call_tool = λ name arguments timeout w. (raise (tool_error (codes "timed out")), w);
  perf_counter = λ w. (zero_float, w);
  loads = λ text. none;
  to_str = λ v. [];
  to_int = λ v. ok (pos 0);
  to_float = λ v. ok zero_float;
}

abbrev two_chunks : List RetrievedChunk
two_chunks = chunk (codes "a") ∷ chunk (codes "b") ∷ []

abbrev two_entries : CitationRegistry
two_entries = (add two_chunks empty_registry).0

two_entries-IsIndexed : IsIndexed two_entries
two_entries-IsIndexed = add-IsIndexed two_chunks empty_registry IsIndexed-empty

add-IsIndexed_example : IsIndexed (add (chunk (codes "a") ∷ two_chunks) two_entries).0
add-IsIndexed_example =
    add-IsIndexed (chunk (codes "a") ∷ two_chunks) two_entries two_entries-IsIndexed

abbrev second_entry : CitationEntry
second_entry = make_entry 2 (chunk (codes "b"))

get-second : get two_entries 2 ≡ ok (some second_entry)
unfolding get add text_beq
get-second = refl

get-add_example : get (add (chunk (codes "c") ∷ []) two_entries).0 2 ≡ ok (some second_entry)
get-add_example =
    get-add (chunk (codes "c") ∷ []) two_entries 2 second_entry two_entries-IsIndexed get-second

add-Labels_example : Labels (add two_chunks two_entries).0 two_chunks (add two_chunks two_entries).1
add-Labels_example = add-Labels two_chunks two_entries two_entries-IsIndexed

add_idem_example : add two_chunks (add two_chunks two_entries).0 ≡ add two_chunks two_entries
add_idem_example = add_idem two_chunks two_entries two_entries-IsIndexed

abbrev cited : Text
cited = codes "Slow [2], then [9] and [1]."

validate_and_strip-used_example :
    let used = (validate_and_strip cited two_entries).1 in
    Ascending used
    × ((i : ℕ) → contains used i ≡ (has_index two_entries i && contains (citations cited) i))
validate_and_strip-used_example = validate_and_strip-used cited two_entries

cited-flat : has_nested cited ≡ false
unfolding has_nested digits_open is_digit
cited-flat = refl

citations-validate_and_strip_example :
    citations (validate_and_strip cited two_entries).0
    ≡ known_only (has_index two_entries) (citations cited)
citations-validate_and_strip_example = citations-validate_and_strip cited two_entries cited-flat

abbrev well_cited : Text
well_cited = codes "Slow [2]  and [1]."

well_cited-known : all (has_index two_entries) (citations well_cited) ≡ true
unfolding citations_from has_index cite_match add digits_close text_beq is_digit int
well_cited-known = refl

validate_and_strip_known_example :
    (visible (validate_and_strip well_cited two_entries).0 ≡ visible well_cited)
    × ((validate_and_strip well_cited two_entries).0 ≡ strip (collapse_spaces well_cited))
validate_and_strip_known_example = validate_and_strip_known well_cited two_entries well_cited-known

sources_for_used_example :
    let used = (validate_and_strip cited two_entries).1 in
    (sources : List Source) × (sources_for two_entries used ≡ ok sources)
    × (map (λ (s : Source). s.index) sources ≡ used)
    × All (IsSourceOf two_entries) sources
sources_for_used_example = sources_for_used cited two_entries two_entries-IsIndexed

abbrev short_answer : LlmResponse
short_answer = record {
  text = codes "Slow [2].";
  tool_calls = [];
  usage = spent;
  stop_reason = codes "end_turn";
  model = [];
}

abbrev generated : Result GroundedAnswer
generated =
    generate_grounded_answer test_floats [] (codes "m") (λ q k f. ok two_chunks)
      (λ s m n. ok short_answer) (codes "why?") 8 1500 none

abbrev answer_or : Result GroundedAnswer → GroundedAnswer
answer_or (ok a) = a
answer_or (raise e) = record {
  answer = [];
  sources = [];
  used_indices = [];
  usage = no_usage;
  cost_usd = zero_float;
  model = [];
}

generated-ok : generated ≡ ok (answer_or generated)
unfolding generate_grounded_answer add text_beq build_answer_prompt render_for_prompt entries
    sources_for answer_from
generated-ok = refl

generate_grounded_answer-Supported_example :
    (chunks : List RetrievedChunk) × (ok two_chunks ≡ ok chunks)
    × (prompt : Text) × (build_answer_prompt (codes "why?") (add chunks empty_registry).0
        ≡ ok prompt)
    × (response : LlmResponse) × (ok short_answer ≡ ok response)
    × (validate_and_strip response.text (add chunks empty_registry).0
        ≡ ((answer_or generated).answer, (answer_or generated).used_indices))
    × Supported
        (add chunks empty_registry).0
        (answer_or generated).used_indices
        (answer_or generated).sources
generate_grounded_answer-Supported_example =
    generate_grounded_answer-Supported test_floats [] (codes "m") (λ q k f. ok two_chunks)
      (λ s m n. ok short_answer) (codes "why?") 8 1500 none (answer_or generated) generated-ok
