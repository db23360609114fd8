-- ===== src/Agent/Consumer/Rounds.antt =====
-- The rounds of the loop, and the whole run.
use grounded_ops_agent.Agent.Consumer.Grounded.{Finished, report-Triple}
use grounded_ops_agent.Agent.Consumer.Recorded.{Recorded}
use grounded_ops_agent.Agent.Consumer.Sound.{
  Collaborators, Post-cases, Sound, Owed, Spoken, owed, call-Sound, complete-Sound, frame-Sound,
  register-Sound, tool_rules,
}
use grounded_ops_agent.Agent.Orchestrator.{account, plan, events}
use grounded_ops_agent.Agent.Orchestrator.Rules.{LoopRules, loop-Triple}
use grounded_ops_agent.Agent.Prompts.{build_agent_prompt}
use grounded_ops_agent.Agent.Registry.{CitationRegistry, render_for_prompt}
use grounded_ops_agent.Agent.Registry.Entries.{entries-eq}
use grounded_ops_agent.Agent.Registry.Invariant.{IsIndexed}
use grounded_ops_agent.Agent.Session.{Environment, Session, call}
use grounded_ops_agent.Agent.Session.Triples.{
  Triple, Triple-pure, Triple-lift, Triple-gets, Triple-call, Triple-modify, Triple-bind,
}
use grounded_ops_agent.Agent.ToolRun.Rules.{emit-Keeps, append_message-Keeps, run_tool-Keeps}
use grounded_ops_agent.Core.Errors.{Error, raise}
use grounded_ops_agent.Llm.Types.{ToolSpec}
use grounded_ops_agent.Prelude.{ℕ, ◌≡◌, refl, Option, none, some, List, arith, Text}
use grounded_ops_agent.Retrieval.Types.{RetrievedChunk, SearchFilters}

module _ {W : Type 0} {env : Environment W} {said : W → Option Text}
    {given : W → List (List RetrievedChunk)} (log : Recorded env said given)
    {E : Session W → Type 0} (trusted : Collaborators env E) where
  plan-Sound :
      (tools : List ToolSpec) (n : ℕ)
      → Triple (Sound given) (plan env tools n) (λ r s. Sound given s × Spoken said r.text s) E
  unfolding plan account
  plan-Sound tools n =
      Triple-bind {Q = λ _. Sound given} _ _ (emit-Keeps (frame-Sound log trusted) _ refl) λ _.
        Triple-bind {Q = λ _. Sound given} _ _ (Triple-gets _ (λ s p. p)) λ messages.
          Triple-bind {Q = λ r s. Sound given s × Spoken said r.text s} _ _
            ((complete-Sound log trusted) messages (some tools))
            λ response.
              Triple-bind {Q = λ _ s. Sound given s × Spoken said response.text s} _ _
                (Triple-modify _ (λ s p. p))
                λ _.
                  Triple-bind {Q = λ _ s. Sound given s × Spoken said response.text s} _ _
                    (Triple-modify _ (λ s p. p)) λ _. Triple-pure _ (λ s p. p)

  -- The rounds of the loop keep the session sound.
  pub loop_rules :
      LoopRules env (λ _. Sound given) (λ _ _. Sound given) (λ _. Sound given) (Spoken said) E
  loop_rules = record {
    frame = λ n. (frame-Sound log trusted);
    accounted = λ t s u m h. h;
    later = λ n s p. p;
    counted = λ n messages tools h.
        (call-Sound log trusted) _ (log.count_tokens messages tools)
          (λ s e h. trusted.count_tokens messages tools s h);
    affordable = λ n p s c h. c;
    exhausted = λ n p s c h. c;
    planned = λ n tools h. plan-Sound tools n;
    finished = λ n messages h. (complete-Sound log trusted) messages none;
    tool_run = λ n tc step h. run_tool-Keeps (tool_rules log trusted) tc step;
  }

  prompt-total :
      (question : Text) (r : CitationRegistry) {e : Error}
      → IsIndexed r
      → build_agent_prompt question r ≡ raise e
      → ⊥
  unfolding build_agent_prompt render_for_prompt
  prompt-total question r v h = let k = entries-eq v in ground (arith, k)

  retrieve-Sound :
      (question : Text) (top_k : ℕ) (filters : Option SearchFilters)
      → Triple (Sound given) (call (env.retrieve question top_k filters)) (Owed given) E
  retrieve-Sound question top_k filters = Triple-call _ (λ s p.
      Post-cases (Owed given) E (env.retrieve question top_k filters s.world).0 _
        (λ chunks h. owed log trusted s _ chunks (log.retrieve question top_k filters s.world h) p)
        (λ e h. trusted.retrieve question top_k filters s h))

  -- Where a run returns, the consumer has read a grounded result.
  pub events-Triple :
      (question : Text) (top_k : Option ℕ) (filters : Option SearchFilters)
      → Triple (Sound given) (events env question top_k filters) (λ _. Finished env said given) E
  unfolding events
  events-Triple question top_k filters =
      let K = λ (s : Session W). Sound given s in
      Triple-bind {Q = λ _. K} _ _ (emit-Keeps (frame-Sound log trusted) _ refl) λ _.
        Triple-bind {Q = Owed given} _ _ (retrieve-Sound question _ filters) λ seed.
          Triple-bind {Q = λ _. K} _ _ ((register-Sound log trusted) seed) λ _.
            Triple-bind {Q = λ _. K} _ _
              ((call-Sound log trusted) _ log.list_tools (λ s e h. trusted.list_tools s h))
              λ tools.
                Triple-bind {Q = λ r s. K s × IsIndexed r} _ _ (Triple-gets _ (λ s p. (p, p.0.0)))
                  λ r.
                    Triple-bind {Q = λ _. K} _ _
                      (Triple-lift _ (λ x s h p. p.0)
                        (λ e s h p. absurd (prompt-total question r p.1 h)))
                      λ prompt.
                        Triple-bind {Q = λ _. K} _ _
                          (append_message-Keeps (frame-Sound log trusted) _)
                          λ _.
                            Triple-bind _ _ (loop-Triple loop_rules tools _ 0 (omega arith))
                              λ final. record {
                                at = λ s (((v, m), r), t, o).
                                    (report-Triple env said given final o).at s
                                      (record { indexed = v; made = m; spoken = t }, r);
                              }
