-- ===== src/Agent/Watched/Completions.antt =====
-- How many completions a run asks the model for.
use grounded_ops_agent.Agent.Consumer.{run}
use grounded_ops_agent.Agent.Events.{StopReason}
use grounded_ops_agent.Agent.Orchestrator.{emit_tokens, report_found, report, events, new_session}
use grounded_ops_agent.Agent.Prompts.{agent_system}
use grounded_ops_agent.Agent.Session.{Environment, Session}
use grounded_ops_agent.Agent.Session.Triples.{
  Post, Triple, Triple-pure, Triple-lift, Triple-gets, Triple-emit, Triple-bind,
}
use grounded_ops_agent.Agent.Watched.{Watched, events-Watched}
use grounded_ops_agent.Core.Errors.{Result, ok, raise}
use grounded_ops_agent.Llm.Types.{Fields, ToolSpec, LlmMessage}
use grounded_ops_agent.Prelude.{ℕ, ◌+◌, ◌≤◌, ◌≡◌, Option, List, [], ◌∷◌, arith, Text}
use grounded_ops_agent.Retrieval.Types.{SearchFilters}

-- `made` counts the completions in the world: nothing else that the run calls makes one.
pub record Counts {W : Type 0} (env : Environment W) (made : W → ℕ) : Type 0 where
  pub complete :
      (messages : List LlmMessage) (tools : Option (List ToolSpec)) (w : W)
      → made (env.complete agent_system messages tools env.settings.max_output_tokens w).1
        ≡ made w + 1
  pub count_tokens :
      (messages : List LlmMessage) (tools : List ToolSpec) (w : W)
      → made (env.count_tokens messages agent_system tools w).1 ≡ made w
  pub retrieve :
      (question : Text) (top_k : ℕ) (filters : Option SearchFilters) (w : W)
      → made (env.retrieve question top_k filters w).1 ≡ made w
  pub list_tools : (w : W) → made (env.list_tools w).1 ≡ made w
  pub call_tool :
      (name : Text) (arguments : Fields) (timeout : ℕ) (w : W)
      → made (env.call_tool name arguments timeout w).1 ≡ made w
  pub perf_counter : (w : W) → made (env.perf_counter w).1 ≡ made w

module _ {W : Type 0} (env : Environment W) (made : W → ℕ) (counts : Counts env made) where
  abbrev max_steps : ℕ
  max_steps = env.settings.max_agent_steps

  -- A report calls nothing.
  emit_tokens-quiet :
      (bound : ℕ) (ts : List Text)
      → Triple
          (λ s. made s.world ≤ bound)
          (emit_tokens ts)
          (λ _ s. made s.world ≤ bound)
          (λ s. made s.world ≤ bound)
  unfolding emit_tokens
  emit_tokens-quiet bound [] = Triple-pure _ (λ s p. p)
  emit_tokens-quiet bound (t ∷ ts) =
      Triple-bind _ _ (Triple-emit _ (λ s p. p)) λ _. emit_tokens-quiet bound ts

  report-quiet :
      (bound : ℕ) (x : Text × StopReason × ℕ)
      → Triple
          (λ s. made s.world ≤ bound)
          (report env x)
          (λ _ s. made s.world ≤ bound)
          (λ s. made s.world ≤ bound)
  unfolding report report_found
  report-quiet bound x =
      let Q = λ (s : Session W). made s.world ≤ bound in
      Triple-bind {Q = λ _. Q} _ _ (Triple-gets _ (λ s p. p)) λ registry.
        Triple-bind {Q = λ _. Q} _ _ (emit_tokens-quiet bound _) λ _.
          Triple-bind {Q = λ _. Q} _ _ (Triple-lift _ (λ a s h p. p) (λ e s h p. p)) λ found.
            Triple-bind {Q = λ _. Q} _ _ (Triple-emit _ (λ s p. p)) λ _.
              Triple-bind {Q = λ _. Q} _ _ (Triple-gets _ (λ s p. p)) λ steps_trace.
                Triple-bind {Q = λ _. Q} _ _ (Triple-emit _ (λ s p. p)) λ _.
                  Triple-bind {Q = λ _. Q} _ _ (Triple-gets _ (λ s p. p)) λ usage.
                    Triple-bind {Q = λ _. Q} _ _ (Triple-gets _ (λ s p. p))
                      λ model. Triple-emit _ (λ s p. p)

  counted_rules :
      (start : ℕ)
      → Watched env
          (λ n w es. made w ≤ start + n)
          (λ w es. made w ≤ start + (max_steps + 1))
          (λ s. made s.world ≤ start + (max_steps + 1))
  counted_rules start = record {
    progress = λ n w es e h p. p;
    later = λ n w es p. omega arith;
    complete = λ m t n w es p. let k = counts.complete m t w in omega arith;
    count_tokens = λ m t n w es p. let k = counts.count_tokens m t w in omega arith;
    retrieve = λ q k f n w es p. let e = counts.retrieve q k f w in omega arith;
    list_tools = λ n w es p. let e = counts.list_tools w in omega arith;
    call_tool = λ name a t n w es p. let e = counts.call_tool name a t w in omega arith;
    perf_counter = λ n w es p. let e = counts.perf_counter w in omega arith;
    raised = λ n w es h p. omega arith;
    reported = λ x. report-quiet (start + (max_steps + 1)) x;
  }

  Post-always :
      (bound : ℕ) (x : Result (Unit {0}) × Session W)
      → Post (λ _ s. made s.world ≤ bound) (λ s. made s.world ≤ bound) x
      → made x.1.world ≤ bound
  Post-always bound (ok u, s) p = p
  Post-always bound (raise e, s) p = p

  -- A run asks for at most `max_agent_steps` + 1 completions, whether it returns or raises, whatever
  -- the model, the tools and the retrieval answer.
  pub run_completions :
      (question : Text) (top_k : Option ℕ) (filters : Option SearchFilters) (w : W)
      → made (run env question top_k filters w).1 ≤ made w + (env.settings.max_agent_steps + 1)
  unfolding run
  run_completions question top_k filters w =
      Post-always (made w + (max_steps + 1)) (events env question top_k filters (new_session env w))
        ((events-Watched (counted_rules (made w)) question top_k filters).at (new_session env w)
          (omega arith))
