-- ===== src/Agent/Consumer/Tests.antt =====
-- A run whose world records what its collaborators answer: the first completion asks for a tool, which
-- finds a third chunk.
use grounded_ops_agent.Prelude.Equality.{text_beq}
use grounded_ops_agent.Agent.Consumer.{run}
use grounded_ops_agent.Agent.Consumer.Grounded.{IsGrounded}
use grounded_ops_agent.Agent.Consumer.Recorded.{Recorded}
use grounded_ops_agent.Agent.Consumer.Results.{Reliable, run-IsGrounded, run-total}
use grounded_ops_agent.Agent.Events.{ToolOutcome, AgentResult}
use grounded_ops_agent.Agent.Extract.{
  field?, truthy, chunk_of, item_chunk, item_chunks, unwrap_result, extract_chunk_records,
}
use grounded_ops_agent.Agent.Session.{Environment}
use grounded_ops_agent.Agent.Tests.{reply, chunk, test_settings, test_floats}
use grounded_ops_agent.Core.Errors.{Result, ok}
use grounded_ops_agent.Llm.Types.{Json, string, arr, obj, nil, cons, no_fields, field}
use grounded_ops_agent.Prelude.{
  ℕ, suc, ◌≡◌, refl, ap, false, Option, none, some, List, [], ◌∷◌, ◌++◌, Text,
}
use grounded_ops_agent.Prelude.Float.{zero_float}
use grounded_ops_agent.Prelude.Int.{pos}
use grounded_ops_agent.Retrieval.Types.{RetrievedChunk}
use grounded_ops_agent.Text.Chars.{codes}

pub record Log : Type 0 where
  pub made : ℕ
  pub said : Option Text
  pub given : List (List RetrievedChunk)

abbrev found_json : Json
found_json = arr (cons (obj (field (codes "chunk_id") (string (codes "c")) no_fields)) nil)

abbrev found_outcome : ToolOutcome
found_outcome = record { text = codes "found"; structured = found_json; is_error = false }

abbrev text_of : Json → Text
text_of (string t) = t
text_of _ = []

abbrev found_chunk : RetrievedChunk
found_chunk = record {
  chunk_id = codes "c";
  doc_id = [];
  source_type = [];
  title = [];
  content = [];
  char_start = pos 0;
  char_end = pos 0;
  score = zero_float;
  retriever = codes "tool";
}

abbrev seed_chunks : List RetrievedChunk
seed_chunks = chunk (codes "a") ∷ chunk (codes "b") ∷ []

abbrev logged : Environment Log
logged = record {
  settings = test_settings;
  floats = test_floats;
  prices = [];
  model_name = codes "m";
  count_tokens = λ messages system tools w. (ok 100, w);
  complete = λ system messages tools max_tokens w.
      (ok (reply w.made), record w { made = suc w.made; said = some (reply w.made).text });
  retrieve = λ question top_k filters w.
      (ok seed_chunks, record w { given = w.given ++ seed_chunks ∷ [] });
  list_tools = λ w. (ok [], w);
  call_tool = λ name arguments timeout w.
      (ok found_outcome, record w { given = w.given ++ (found_chunk ∷ []) ∷ [] });
  perf_counter = λ w. (zero_float, w);
  loads = λ text. none;
  to_str = text_of;
  to_int = λ v. ok (pos 0);
  to_float = λ v. ok zero_float;
}

found-extracts : extract_chunk_records logged found_outcome ≡ ok (found_chunk ∷ [])
unfolding extract_chunk_records item_chunks item_chunk chunk_of unwrap_result field? truthy text_beq
found-extracts = refl

came :
    {outcome : ToolOutcome} {chunks : List RetrievedChunk}
    → ok found_outcome ≡ ok outcome
    → extract_chunk_records logged outcome ≡ ok chunks
    → found_chunk ∷ [] ≡ chunks
came h k = cc (h, k, found-extracts)

logged-Recorded : Recorded logged (λ w. w.said) (λ w. w.given)
logged-Recorded = record {
  complete = λ m t w {r} h. cc h;
  complete_gives = λ m t w. refl;
  retrieve = λ q k f w {chunks} h. cc h;
  call_tool = λ n a t w {outcome} {chunks} h k. ap (λ cs. w.given ++ cs ∷ []) (came h k);
  failed_call = λ n a t w {e} h. cc h;
  count_tokens = λ m t w. refl;
  list_tools = λ w. refl;
  perf_counter = λ w. refl;
  not_json = λ m. refl;
}

logged-Reliable : Reliable logged
logged-Reliable = record {
  count_tokens = λ m t w. (100, refl);
  complete = λ m t w. (reply w.made, refl);
  retrieve = λ q k f w. (_, refl);
  list_tools = λ w. ([], refl);
  call_tool = λ n a t w {e} h. cc h;
  extracted = λ n a t w outcome h. (found_chunk ∷ [], cc (h, found-extracts));
}

abbrev start : Log
start = record { made = 0; said = none; given = [] }

abbrev whole_run : Result AgentResult × Log
whole_run = run logged (codes "why?") none none start

run-total_example :
    (a : AgentResult) × (whole_run.0 ≡ ok a) × IsGrounded 3 whole_run.1.given whole_run.1.said a
run-total_example = run-total logged-Recorded (codes "why?") none none start refl logged-Reliable

run-IsGrounded_example :
    IsGrounded 3 whole_run.1.given whole_run.1.said
      (run-total logged-Recorded (codes "why?") none none start refl logged-Reliable).0
run-IsGrounded_example =
    run-IsGrounded logged-Recorded (codes "why?") none none start
      (run-total logged-Recorded (codes "why?") none none start refl logged-Reliable).0 refl
      (run-total logged-Recorded (codes "why?") none none start refl logged-Reliable).1
