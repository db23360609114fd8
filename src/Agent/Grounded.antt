-- ===== src/Agent/Grounded.antt =====
-- `generate_grounded_answer` of src/app/agent/generation.py, over what the retrieval and the model
-- answer.
use grounded_ops_agent.Core.Errors.{◌>>=◌}
use grounded_ops_agent.Agent.Citations.{validate_and_strip}
use grounded_ops_agent.Agent.Consumer.Grounded.{Supported, sources_for-Supported}
use grounded_ops_agent.Agent.Generation.{Source, sources_for}
use grounded_ops_agent.Agent.Prompts.{answer_system, or_text, build_answer_prompt}
use grounded_ops_agent.Agent.Registry.{CitationRegistry, empty_registry, add}
use grounded_ops_agent.Agent.Registry.Invariant.{IsIndexed-empty, add-IsIndexed}
use grounded_ops_agent.Core.Errors.{Result, ok, raise, >>=-eq-ok}
use grounded_ops_agent.Core.Pricing.{Prices, cost_usd}
use grounded_ops_agent.Llm.Types.{LlmMessage, user_message, LlmUsage, LlmResponse}
use grounded_ops_agent.Prelude.{ℕ, ◌≡◌, ap, subst, Option, List, [], ◌∷◌, Text}
use grounded_ops_agent.Prelude.Float.{Float, FloatOps}
use grounded_ops_agent.Retrieval.Types.{RetrievedChunk, SearchFilters}

pub record GroundedAnswer : Type 0 where
  pub answer : Text
  pub sources : List Source
  pub used_indices : List ℕ
  pub usage : LlmUsage
  pub cost_usd : Float
  pub model : Text

-- The answer made of the response, with the registry of the retrieved chunks.
unfoldable pub answer_from :
    FloatOps → Prices → (model_name : Text) → CitationRegistry → LlmResponse → Result GroundedAnswer
answer_from floats prices model_name registry response = do
  let (cleaned, used) = validate_and_strip response.text registry
  let model = or_text response.model model_name
  found ← sources_for registry used
  ok (record {
    answer = cleaned;
    sources = found;
    used_indices = used;
    usage = response.usage;
    cost_usd =
        cost_usd floats prices model response.usage.input_tokens response.usage.output_tokens;
    model = model;
  })

module _ (floats : FloatOps) (prices : Prices) (model_name : Text)
    (retrieve : Text → ℕ → Option SearchFilters → Result (List RetrievedChunk))
    (complete : Text → List LlmMessage → (max_tokens : ℕ) → Result LlmResponse) where
  unfoldable pub generate_grounded_answer :
      (question : Text) (top_k max_tokens : ℕ) (filters : Option SearchFilters)
      → Result GroundedAnswer
  unfolding answer_from
  generate_grounded_answer question top_k max_tokens filters = do
    chunks ← retrieve question top_k filters
    let registry = (add chunks empty_registry).0
    prompt ← build_answer_prompt question registry
    response ← complete answer_system (user_message prompt ∷ []) max_tokens
    answer_from floats prices model_name registry response

  -- A single-shot answer rests on the retrieved chunks and on the model's response: the model is
  -- asked, under the system prompt for answers, with the prompt made of the question and the retrieved
  -- chunks; the answer is the text of its response without the citations of indices that no retrieved
  -- chunk has, and the sources are the entries of the indices that it uses, one for each, in order.
  pub generate_grounded_answer-Supported :
      (question : Text) (top_k max_tokens : ℕ) (filters : Option SearchFilters) (a : GroundedAnswer)
      → generate_grounded_answer question top_k max_tokens filters ≡ ok a
      → (chunks : List RetrievedChunk) × (retrieve question top_k filters ≡ ok chunks)
        × (prompt : Text) × (build_answer_prompt question (add chunks empty_registry).0 ≡ ok prompt)
        × (response : LlmResponse) × (complete answer_system (user_message prompt ∷ []) max_tokens
            ≡ ok response)
        × (validate_and_strip response.text (add chunks empty_registry).0
            ≡ (a.answer, a.used_indices))
        × Supported (add chunks empty_registry).0 a.used_indices a.sources
  unfolding generate_grounded_answer answer_from
  generate_grounded_answer-Supported question top_k max_tokens filters a h =
      let (chunks, got, h1) = >>=-eq-ok (retrieve question top_k filters) _ h in
      let r = (add chunks empty_registry).0 in
      let (prompt, asked, h2) = >>=-eq-ok (build_answer_prompt question r) _ h1 in
      let (response, said, h3) =
        >>=-eq-ok (complete answer_system (user_message prompt ∷ []) max_tokens) _ h2 in
      let (found, listed, h4) =
        >>=-eq-ok (sources_for r (validate_and_strip response.text r).1) _ h3 in
      let supported =
        sources_for-Supported r response.text found
          (add-IsIndexed chunks empty_registry IsIndexed-empty) listed in
      let answer = ap (read_answer (λ (x : GroundedAnswer). x.answer) []) h4 in
      let used = ap (read_answer (λ (x : GroundedAnswer). x.used_indices) []) h4 in
      let sources = ap (read_answer (λ (x : GroundedAnswer). x.sources) []) h4 in
      (
        chunks,
        got,
        prompt,
        asked,
        response,
        said,
        cc (answer, used),
        subst (λ u. Supported r u a.sources) used
            (subst (λ x. Supported r (validate_and_strip response.text r).1 x) sources supported),
      )
    where
      read_answer : {A : Type 0} → (GroundedAnswer → A) → A → Result GroundedAnswer → A
      read_answer f d (ok x) = f x
      read_answer f d (raise e) = d
