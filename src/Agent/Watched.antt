-- ===== src/Agent/Watched.antt =====
-- Invariants of a run that look at the world outside and at the events alone: what one completion,
-- every other call and every event may do to them is enough for the whole run.
pub mod Completions
pub mod LastEvent
pub mod Tests
use grounded_ops_agent.Agent.Session.{◌>>=◌}
use grounded_ops_agent.Agent.Events.{StopReason, AgentEvent}
use grounded_ops_agent.Agent.Orchestrator.{account, plan, report, events}
use grounded_ops_agent.Agent.Orchestrator.Rules.{LoopRules, loop-Triple}
use grounded_ops_agent.Agent.Prompts.{agent_system}
use grounded_ops_agent.Agent.Session.{Environment, Session, Action, pure, call}
use grounded_ops_agent.Agent.Session.Triples.{
  Post, Triple, Triple-pure, Triple-lift, Triple-gets, Triple-call, Triple-modify, Triple-bind,
  Triple-weaken,
}
use grounded_ops_agent.Agent.ToolRun.{
  check_repeat, register, recover, try_except, attempt, read_clock, call_with_retries,
}
use grounded_ops_agent.Agent.ToolRun.Rules.{
  is_progress, Frame, emit-Keeps, append_message-Keeps, Checked, ToolRules, run_tool-Keeps,
}
use grounded_ops_agent.Core.Errors.{
  app_error, config_error, validation_error, not_found, retrieval_error, embedding_mismatch,
  provider_error, tool_error, guardrail_error, key_error, value_error, type_error, assertion_error,
  external, Result, ok, raise,
}
use grounded_ops_agent.Ingestion.Chunker.Numbers.{indices}
use grounded_ops_agent.Llm.OpenAi.{count_tokens}
use grounded_ops_agent.Llm.Types.{Fields, ToolCall, ToolSpec, LlmMessage}
use grounded_ops_agent.Prelude.{
  ℕ, zero, suc, ◌+◌, ◌≤◌, ◌≡◌, refl, subst, Bool, true, false, Option, none, some, List, [], ◌∷◌,
  ◌++◌, arith, counted, Text,
}
use grounded_ops_agent.Retrieval.Service.{retrieve}
use grounded_ops_agent.Retrieval.Types.{SearchFilters}

-- `I n` holds when at most `n` completions were asked for, and `F` wherever the run raises.
pub record Watched {W : Type 0} (env : Environment W) (I : ℕ → W → List AgentEvent → Type 0)
    (F : W → List AgentEvent → Type 0) (R : Session W → Type 0) : Type 0 where
  pub progress :
      (n : ℕ) (w : W) (es : List AgentEvent) (e : AgentEvent)
      → is_progress e ≡ true
      → I n w es
      → I n w (es ++ e ∷ [])
  pub later : (n : ℕ) (w : W) (es : List AgentEvent) → I n w es → I (suc n) w es
  pub complete :
      (messages : List LlmMessage) (tools : Option (List ToolSpec)) (n : ℕ) (w : W)
      (es : List AgentEvent)
      → I n w es
      → I (suc n) (env.complete agent_system messages tools env.settings.max_output_tokens w).1 es
  pub count_tokens :
      (messages : List LlmMessage) (tools : List ToolSpec) (n : ℕ) (w : W) (es : List AgentEvent)
      → I n w es
      → I n (env.count_tokens messages agent_system tools w).1 es
  pub retrieve :
      (question : Text) (top_k : ℕ) (filters : Option SearchFilters) (n : ℕ) (w : W)
      (es : List AgentEvent)
      → I n w es
      → I n (env.retrieve question top_k filters w).1 es
  pub list_tools : (n : ℕ) (w : W) (es : List AgentEvent) → I n w es → I n (env.list_tools w).1 es
  pub call_tool :
      (name : Text) (arguments : Fields) (timeout n : ℕ) (w : W) (es : List AgentEvent)
      → I n w es
      → I n (env.call_tool name arguments timeout w).1 es
  pub perf_counter :
      (n : ℕ) (w : W) (es : List AgentEvent) → I n w es → I n (env.perf_counter w).1 es
  pub raised :
      (n : ℕ) (w : W) (es : List AgentEvent)
      → n ≤ env.settings.max_agent_steps + 1
      → I n w es
      → F w es
  pub reported :
      (x : Text × StopReason × ℕ)
      → Triple
          (λ s. I (env.settings.max_agent_steps + 1) s.world s.emitted)
          (report env x)
          (λ _. R)
          (λ s. F s.world s.emitted)

module _ {W A : Type 0} (Q : A → Session W → Type 0) (E : Session W → Type 0) where
  Post-both : (r : Result A) (s : Session W) → ((a : A) → Q a s) → E s → Post Q E (r, s)
  Post-both (ok a) s q e = q a
  Post-both (raise x) s q e = e

  Post-recovered :
      (r : Result A) (handler : Text → Action W A) (s : Session W)
      → ((a : A) → Q a s)
      → E s
      → ((m : Text) → Post Q E (handler m s))
      → Post Q E (recover r handler s)
  Post-recovered (ok a) handler s q e h = q a
  Post-recovered (raise (tool_error m)) handler s q e h = h m
  Post-recovered (raise (app_error m)) handler s q e h = e
  Post-recovered (raise (config_error m)) handler s q e h = e
  Post-recovered (raise (validation_error m)) handler s q e h = e
  Post-recovered (raise (not_found m)) handler s q e h = e
  Post-recovered (raise (retrieval_error m)) handler s q e h = e
  Post-recovered (raise (embedding_mismatch m)) handler s q e h = e
  Post-recovered (raise (provider_error m)) handler s q e h = e
  Post-recovered (raise (guardrail_error m)) handler s q e h = e
  Post-recovered (raise key_error) handler s q e h = e
  Post-recovered (raise value_error) handler s q e h = e
  Post-recovered (raise type_error) handler s q e h = e
  Post-recovered (raise assertion_error) handler s q e h = e
  Post-recovered (raise (external m)) handler s q e h = e

module _ {W : Type 0} {env : Environment W} {I : ℕ → W → List AgentEvent → Type 0}
    {F : W → List AgentEvent → Type 0} {R : Session W → Type 0} (rules : Watched env I F R) where
  abbrev Seen : ℕ → Session W → Type 0
  Seen n s = I n s.world s.emitted

  abbrev Failed : Session W → Type 0
  Failed s = F s.world s.emitted

  abbrev Bounded : ℕ → Type 0
  Bounded n = n ≤ env.settings.max_agent_steps + 1

  failed : (n : ℕ) → Bounded n → (s : Session W) → Seen n s → Failed s
  failed n b s = rules.raised n s.world s.emitted b

  -- A call that takes the invariant from `n` to `m`.
  call-Seen :
      {A : Type 0} (n m : ℕ) (f : W → Result A × W)
      → Bounded m
      → ((w : W) (es : List AgentEvent) → I n w es → I m (f w).1 es)
      → Triple (Seen n) (call f) (λ _. Seen m) Failed
  call-Seen n m f b h = Triple-call f (λ s p.
      let moved = h s.world s.emitted p in
      Post-both (λ _. Seen m) Failed (f s.world).0 _ (λ a. moved) (rules.raised m _ _ b moved))

  attempt-Seen :
      (n : ℕ) (tc : ToolCall) (retries : ℕ)
      → Bounded n
      → Triple (Seen n) (attempt env tc retries) (λ _. Seen n) Failed
  unfolding attempt try_except call pure
  attempt-Seen n tc zero b = record {
    at = λ s p.
        let t = env.settings.tool_timeout_seconds in
        let moved = rules.call_tool tc.name tc.arguments t n s.world s.emitted p in
        Post-recovered (λ _. Seen n) Failed (env.call_tool tc.name tc.arguments t s.world).0 _ _
          (λ a. moved) (rules.raised n _ _ b moved) (λ m. moved);
  }
  attempt-Seen n tc (suc retries) b = record {
    at = λ s p.
        let t = env.settings.tool_timeout_seconds in
        let moved = rules.call_tool tc.name tc.arguments t n s.world s.emitted p in
        Post-recovered (λ _. Seen n) Failed (env.call_tool tc.name tc.arguments t s.world).0 _ _
          (λ a. moved) (rules.raised n _ _ b moved) (λ m. (attempt-Seen n tc retries b).at _ moved);
  }

  read_clock-Seen : (n : ℕ) → Bounded n → Triple (Seen n) (read_clock env) (λ _. Seen n) Failed
  unfolding read_clock
  read_clock-Seen n b = call-Seen n n _ b (λ w es. rules.perf_counter n w es)

  call_with_retries-Seen :
      (n : ℕ) (tc : ToolCall)
      → Bounded n
      → Triple (Seen n) (call_with_retries env tc) (λ _. Seen n) Failed
  unfolding call_with_retries
  call_with_retries-Seen n tc b = Triple-bind {Q = λ _. Seen n} _ _ (read_clock-Seen n b) λ t.
      Triple-bind {Q = λ _. Seen n} _ _ (attempt-Seen n tc _ b) λ outcome.
        Triple-bind {Q = λ _. Seen n} _ _ (read_clock-Seen n b) λ now. Triple-pure _ (λ s p. p)

  frame-Seen : (n : ℕ) → Frame (Seen n)
  frame-Seen n = record {
    messages = λ s m p. p;
    steps_trace = λ s t p. p;
    emitted = λ s e h p. rules.progress n s.world s.emitted e h p;
    usage = λ s u m p. p;
  }

  Checked-Seen :
      (n : ℕ) (tc : ToolCall) (b : Bool) (s : Session W)
      → Seen n s
      → Checked (Seen n) (λ _. Seen n) tc b s
  Checked-Seen n tc true s p = p
  Checked-Seen n tc false s p = p

  tool_rules-Seen : (n : ℕ) → Bounded n → ToolRules env (Seen n) (λ _. Seen n) (λ _. Seen n) Failed
  unfolding check_repeat register
  tool_rules-Seen n b = record {
    frame = frame-Seen n;
    checked = λ tc. record { at = λ s p. Checked-Seen n tc _ _ p };
    called = λ tc. call_with_retries-Seen n tc b;
    extracted = λ outcome h s p. failed n b s p;
    no_chunks = λ outcome s h p. p;
    registered = λ outcome chunks h. record { at = λ s p. p };
    found = λ indices s h p. failed n b s p;
  }

  plan-Seen :
      (n : ℕ) (tools : List ToolSpec)
      → n ≤ env.settings.max_agent_steps
      → Triple (Seen n) (plan env tools n) (λ _ s. Seen (suc n) s × Unit {0}) Failed
  unfolding plan account
  plan-Seen n tools b = Triple-bind {Q = λ _. Seen n} _ _ (emit-Keeps (frame-Seen n) _ refl) λ _.
      Triple-bind {Q = λ _. Seen n} _ _ (Triple-gets _ (λ s p. p)) λ messages.
        Triple-bind {Q = λ _. Seen (suc n)} _ _
          (call-Seen n (suc n) _ (omega arith) (rules.complete messages (some tools) n))
          λ response. Triple-bind {Q = λ _. Seen (suc n)} _ _ (Triple-modify _ (λ s p. p)) λ _.
            Triple-bind {Q = λ _. Seen (suc n)} _ _ (Triple-modify _ (λ s p. p))
              λ _. Triple-pure _ (λ s p. (p, tt))

  loop_rules-Seen : LoopRules env Seen (λ n _. Seen n) Seen (λ _ _. Unit {0}) Failed
  loop_rules-Seen = record {
    frame = frame-Seen;
    accounted = λ t s u m h. h;
    later = λ n s p. rules.later n s.world s.emitted p;
    counted =
        λ n messages tools h. call-Seen n n _ (omega arith) (rules.count_tokens messages tools n);
    affordable = λ n p s c h. c;
    exhausted = λ n p s c h. c;
    planned = λ n tools h. plan-Seen n tools h;
    finished = λ n messages h.
        Triple-weaken (call-Seen n (suc n) _ (omega arith) (rules.complete messages none n))
          (λ s p. p) (λ r s p. (p, tt)) (λ s p. p);
    tool_run = λ n tc step h. run_tool-Keeps (tool_rules-Seen n h) tc step;
  }

  -- The whole run.
  pub events-Watched :
      (question : Text) (top_k : Option ℕ) (filters : Option SearchFilters)
      → Triple (Seen 0) (events env question top_k filters) (λ _. R) Failed
  unfolding events register
  events-Watched question top_k filters =
      Triple-bind {Q = λ _. Seen 0} _ _ (emit-Keeps (frame-Seen 0) _ refl) λ _.
        Triple-bind {Q = λ _. Seen 0} _ _
          (call-Seen 0 0 _ (omega arith) (rules.retrieve question _ filters 0))
          λ seed.
            Triple-bind {Q = λ _. Seen 0} _ _ (record { at = λ s p. p })
              λ _.
                Triple-bind {Q = λ _. Seen 0} _ _
                  (call-Seen 0 0 _ (omega arith) (rules.list_tools 0))
                  λ tools. Triple-bind {Q = λ _. Seen 0} _ _ (Triple-gets _ (λ s p. p)) λ registry.
                    Triple-bind {Q = λ _. Seen 0} _ _
                      (Triple-lift _ (λ x s h p. p) (λ e s h p. failed 0 (omega arith) s p))
                      λ prompt.
                        Triple-bind {Q = λ _. Seen 0} _ _ (append_message-Keeps (frame-Seen 0) _)
                          λ _.
                            Triple-bind _ _ (loop-Triple loop_rules-Seen tools _ 0 (omega arith))
                              λ final. record {
                                at = λ s q.
                                    let last : 0 + env.settings.max_agent_steps + 1
                                        ≡ env.settings.max_agent_steps + 1 =
                                      omega arith in
                                    (rules.reported final).at s
                                      (subst (λ k. I k s.world s.emitted) last (q.0));
                              }
