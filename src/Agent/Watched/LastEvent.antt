-- ===== src/Agent/Watched/LastEvent.antt =====
-- Where the stream of events ends.
use grounded_ops_agent.Agent.Events.{
  StopReason, Done, AgentEvent, status, tool_call, tool_result, token, sources, trace, done, error,
}
use grounded_ops_agent.Agent.Orchestrator.{emit_tokens, report_found, report, events, new_session}
use grounded_ops_agent.Agent.Session.{Environment, Session, emit}
use grounded_ops_agent.Agent.Session.Triples.{
  Post, Triple, Triple-pure, Triple-lift, Triple-gets, Triple-emit, Triple-bind,
}
use grounded_ops_agent.Agent.ToolRun.Rules.{is_progress}
use grounded_ops_agent.Agent.Watched.{Watched, events-Watched}
use grounded_ops_agent.Prelude.{
  ℕ, ◌≡◌, refl, Bool, true, false, Option, List, [], ◌∷◌, ◌++◌, All, Text,
}
use grounded_ops_agent.Retrieval.Types.{SearchFilters}

-- The events that end a stream.
abbrev pub is_terminal : AgentEvent → Bool
is_terminal (done d) = true
is_terminal (error m) = true
is_terminal _ = false

-- No event so far ends the stream.
abbrev pub IsOpen : List AgentEvent → Type 0
IsOpen es = All (λ e. is_terminal e ≡ false) es

-- The events end with `done`, and none before it ends the stream.
pub record IsDone (es : List AgentEvent) : Type 0 where
  pub before : List AgentEvent
  pub last : Done
  pub ends : es ≡ before ++ done last ∷ []
  pub is_open : IsOpen before

IsOpen-snoc :
    (es : List AgentEvent) (e : AgentEvent)
    → is_terminal e ≡ false
    → IsOpen es
    → IsOpen (es ++ e ∷ [])
IsOpen-snoc [] e h p = (h, tt)
IsOpen-snoc (d ∷ es) e h p = (p.0, IsOpen-snoc es e h p.1)

progress-not_terminal : (e : AgentEvent) → is_progress e ≡ true → is_terminal e ≡ false
progress-not_terminal (status p n) h = refl
progress-not_terminal (tool_call n a) h = refl
progress-not_terminal (tool_result n t b l) h = refl
progress-not_terminal (token t) h = refl
progress-not_terminal (sources ss) h = refl
progress-not_terminal (trace ts) h = refl
progress-not_terminal (done d) h = cc
progress-not_terminal (error d) h = cc

module _ {W : Type 0} where
  abbrev Open : Session W → Type 0
  Open s = IsOpen s.emitted

  emit-Open : (e : AgentEvent) → is_terminal e ≡ false → Triple Open (emit e) (λ _. Open) Open
  emit-Open e h = Triple-emit e (λ s p. IsOpen-snoc s.emitted e h p)

  emit_tokens-Open : (ts : List Text) → Triple Open (emit_tokens ts) (λ _. Open) Open
  unfolding emit_tokens
  emit_tokens-Open [] = Triple-pure _ (λ s p. p)
  emit_tokens-Open (t ∷ ts) = Triple-bind _ _ (emit-Open (token t) refl) λ _. emit_tokens-Open ts

module _ {W : Type 0} (env : Environment W) where
  report-IsDone :
      (x : Text × StopReason × ℕ) → Triple Open (report env x) (λ _ s. IsDone s.emitted) Open
  unfolding report report_found
  report-IsDone x = Triple-bind {Q = λ _. Open} _ _ (Triple-gets _ (λ s p. p)) λ registry.
      Triple-bind {Q = λ _. Open} _ _ (emit_tokens-Open _) λ _.
        Triple-bind {Q = λ _. Open} _ _ (Triple-lift _ (λ a s h p. p) (λ e s h p. p)) λ found.
          Triple-bind {Q = λ _. Open} _ _ (emit-Open _ refl) λ _.
            Triple-bind {Q = λ _. Open} _ _ (Triple-gets _ (λ s p. p)) λ steps_trace.
              Triple-bind {Q = λ _. Open} _ _ (emit-Open _ refl) λ _.
                Triple-bind {Q = λ _. Open} _ _ (Triple-gets _ (λ s p. p)) λ usage.
                  Triple-bind {Q = λ _. Open} _ _ (Triple-gets _ (λ s p. p)) λ model.
                    Triple-emit _
                      (λ s p. record { before = s.emitted; last = _; ends = refl; is_open = p })

  IsOpen-rules : Watched env (λ n w es. IsOpen es) (λ w es. IsOpen es) (λ s. IsDone s.emitted)
  IsOpen-rules = record {
    progress = λ n w es e h p. IsOpen-snoc es e (progress-not_terminal e h) p;
    later = λ n w es p. p;
    complete = λ m t n w es p. p;
    count_tokens = λ m t n w es p. p;
    retrieve = λ q k f n w es p. p;
    list_tools = λ n w es p. p;
    call_tool = λ name a t n w es p. p;
    perf_counter = λ n w es p. p;
    raised = λ n w es h p. p;
    reported = report-IsDone;
  }

  -- The events of a run that returns end with its one `done`; a run that raises has emitted no event
  -- that ends the stream.
  pub events-IsDone :
      (question : Text) (top_k : Option ℕ) (filters : Option SearchFilters) (w : W)
      → Post (λ _ s. IsDone s.emitted) Open (events env question top_k filters (new_session env w))
  events-IsDone question top_k filters w =
      (events-Watched IsOpen-rules question top_k filters).at (new_session env w) tt
