-- ===== src/Agent/Consumer/Recorded.antt =====
-- What the collaborators of a run answered, as the world records it.
use grounded_ops_agent.Agent.Events.{ToolOutcome}
use grounded_ops_agent.Agent.Extract.{extract_chunk_records}
use grounded_ops_agent.Agent.Prompts.{agent_system}
use grounded_ops_agent.Agent.Registry.{CitationRegistry, empty_registry, add}
use grounded_ops_agent.Agent.Session.{Environment}
use grounded_ops_agent.Core.Errors.{Error, ok, raise}
use grounded_ops_agent.Llm.Types.{Fields, ToolSpec, LlmMessage, LlmResponse}
use grounded_ops_agent.Prelude.{
  ℕ, ◌≡◌, refl, sym, ap, ◌∙◌, Option, none, some, List, [], ◌∷◌, ◌++◌, Text,
}
use grounded_ops_agent.Retrieval.Types.{RetrievedChunk, SearchFilters}
use grounded_ops_agent.Text.Chars.{codes}

-- `said` is the last text that the model answered, and `given` the chunks that each retrieval and each
-- tool call gave, in order: no other call adds to them. The last condition is that `json.loads` does
-- not read the text of a failed tool call, which begins with a `T`.
pub record Recorded {W : Type 0} (env : Environment W) (said : W → Option Text)
    (given : W → List (List RetrievedChunk)) : Type 0 where
  pub complete :
      (messages : List LlmMessage) (tools : Option (List ToolSpec)) (w : W) {r : LlmResponse}
      → (env.complete agent_system messages tools env.settings.max_output_tokens w).0 ≡ ok r
      → said (env.complete agent_system messages tools env.settings.max_output_tokens w).1
        ≡ some r.text
  pub complete_gives :
      (messages : List LlmMessage) (tools : Option (List ToolSpec)) (w : W)
      → given (env.complete agent_system messages tools env.settings.max_output_tokens w).1
        ≡ given w
  pub retrieve :
      (question : Text) (top_k : ℕ) (filters : Option SearchFilters) (w : W)
      {chunks : List RetrievedChunk}
      → (env.retrieve question top_k filters w).0 ≡ ok chunks
      → given (env.retrieve question top_k filters w).1 ≡ given w ++ chunks ∷ []
  pub call_tool :
      (name : Text) (arguments : Fields) (timeout : ℕ) (w : W) {outcome : ToolOutcome}
      {chunks : List RetrievedChunk}
      → (env.call_tool name arguments timeout w).0 ≡ ok outcome
      → extract_chunk_records env outcome ≡ ok chunks
      → given (env.call_tool name arguments timeout w).1 ≡ given w ++ chunks ∷ []
  pub failed_call :
      (name : Text) (arguments : Fields) (timeout : ℕ) (w : W) {e : Error}
      → (env.call_tool name arguments timeout w).0 ≡ raise e
      → given (env.call_tool name arguments timeout w).1 ≡ given w
  pub count_tokens :
      (messages : List LlmMessage) (tools : List ToolSpec) (w : W)
      → given (env.count_tokens messages agent_system tools w).1 ≡ given w
  pub list_tools : (w : W) → given (env.list_tools w).1 ≡ given w
  pub perf_counter : (w : W) → given (env.perf_counter w).1 ≡ given w
  pub not_json : (m : Text) → env.loads (codes "Tool error: " ++ m) ≡ none

-- The registry after the chunks were added, one list after the other.
unfoldable pub registered_from : CitationRegistry → List (List RetrievedChunk) → CitationRegistry
registered_from r [] = r
registered_from r (chunks ∷ batches) = registered_from (add chunks r).0 batches

-- The registry of a run that was given these chunks.
abbrev pub registered : List (List RetrievedChunk) → CitationRegistry
registered batches = registered_from empty_registry batches

registered_from-snoc :
    (r : CitationRegistry) (batches : List (List RetrievedChunk)) (chunks : List RetrievedChunk)
    → registered_from r (batches ++ chunks ∷ []) ≡ (add chunks (registered_from r batches)).0
unfolding registered_from
registered_from-snoc r [] chunks = refl
registered_from-snoc r (b ∷ batches) chunks = registered_from-snoc (add b r).0 batches chunks

-- Chunks that were given and not registered yet.
pub registered-given :
    (r : CitationRegistry) (before after : List (List RetrievedChunk))
    (chunks : List RetrievedChunk)
    → r ≡ registered before
    → after ≡ before ++ chunks ∷ []
    → (add chunks r).0 ≡ registered after
registered-given r before after chunks h k =
    ap (λ x. (add chunks x).0) h
    ∙ sym (registered_from-snoc empty_registry before chunks)
    ∙ ap registered (sym k)
