-- ===== src/Agent/Extract.antt =====
-- The chunk records of a tool result: `_extract_chunk_records`, `_summary` and
-- `_register_and_format` of src/app/agent/orchestrator.py.
use grounded_ops_agent.Agent.Events.{ToolOutcome}
use grounded_ops_agent.Agent.Session.{Environment}
use grounded_ops_agent.Core.Errors.{Result, ok, ◌>>=◌}
use grounded_ops_agent.Llm.Types.{
  Json, null, bool, integer, floating, string, arr, obj, Items, nil, cons, Fields, no_fields, field,
}
use grounded_ops_agent.Prelude.{
  zero, Bool, true, false, not, ◌&&◌, Option, none, some, List, [], ◌∷◌, if◌then◌else◌, take, ◌==◌,
  nat_eq, Text, text_eq,
}
use grounded_ops_agent.Prelude.Int.{pos}
use grounded_ops_agent.Retrieval.Types.{RetrievedChunk}
use grounded_ops_agent.Text.Chars.{codes}
use grounded_ops_agent.Text.Words.{split, join}

unfoldable pub summary : Text → Text
summary text = take 200 (join (codes " ") (split text))

unfoldable pub field? : Text → Fields → Option Json
field? k no_fields = none
field? k (field j v fs) = if j == k then some v else field? k fs

-- `bool(value)`
unfoldable pub truthy : Json → Bool
truthy null = false
truthy (bool b) = b
truthy (integer (pos zero)) = false
truthy (floating t) = not (t == codes "0.0") && not (t == codes "-0.0")
truthy (string []) = false
truthy (arr nil) = false
truthy (obj no_fields) = false
truthy _ = true

-- `value or default`, where a missing value is `None`
abbrev pub or_json : Option Json → Json → Json
or_json none d = d
or_json (some v) d = if truthy v then v else d

abbrev get_json : Option Json → Json → Json
get_json none d = d
get_json (some v) d = v

module _ {W : Type 0} (env : Environment W) where
  -- `RetrievedChunk(...)` of one item that has a `chunk_id`.
  unfoldable pub chunk_of : Fields → Json → Result RetrievedChunk
  unfolding field? truthy
  chunk_of item chunk_id = do
    let text = λ (k : Text). env.to_str (get_json (field? k item) (string []))
    let content = env.to_str (
        or_json (field? (codes "snippet") item)
          (or_json (field? (codes "content") item) (string [])))
    char_start ← env.to_int (or_json (field? (codes "char_start") item) (integer (pos 0)))
    char_end ← env.to_int (or_json (field? (codes "char_end") item) (integer (pos 0)))
    score ← env.to_float (or_json (field? (codes "score") item) (floating (codes "0.0")))
    ok (record {
      chunk_id = env.to_str chunk_id;
      doc_id = text (codes "doc_id");
      source_type = text (codes "source_type");
      title = text (codes "title");
      content = content;
      char_start = char_start;
      char_end = char_end;
      score = score;
      retriever = codes "tool";
    })

  -- An item that is no dict, or a dict without a `chunk_id`, is passed over.
  unfoldable pub item_chunk : Json → Option (Result RetrievedChunk)
  unfolding chunk_of
  item_chunk (obj item) = elim (field? (codes "chunk_id") item) [
    | none ↦ none
    | some chunk_id ↦ some (chunk_of item chunk_id)
  ]
  item_chunk _ = none

  unfoldable pub item_chunks : Items → Result (List RetrievedChunk)
  unfolding item_chunk
  item_chunks nil = ok []
  item_chunks (cons item items) =
      let rest = item_chunks items in
      elim (item_chunk item) [ none ↦ rest | some made ↦ (do c ← made; cs ← rest; ok (c ∷ cs)) ]

  -- The dict form of a result: `{"result": [...]}`.
  unfoldable pub unwrap_result : Json → Json
  unfolding field?
  unwrap_result (obj fs) = elim (field? (codes "result") fs) [ none ↦ obj fs | some v ↦ v ]
  unwrap_result v = v

  abbrev pub records_in : Json → Result (List RetrievedChunk)
  records_in (arr items) = item_chunks items
  records_in _ = ok []

  -- `json.loads(outcome.text)`, or an empty list where it raises.
  abbrev pub read_text : Option Json → Result (List RetrievedChunk)
  read_text none = ok []
  read_text (some v) = records_in (unwrap_result v)

  abbrev pub records_from : Text → Json → Result (List RetrievedChunk)
  records_from text null = read_text (env.loads text)
  records_from text v = records_in (unwrap_result v)

  unfoldable pub extract_chunk_records : ToolOutcome → Result (List RetrievedChunk)
  unfolding item_chunks unwrap_result
  extract_chunk_records outcome = records_from outcome.text outcome.structured
