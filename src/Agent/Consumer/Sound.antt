-- ===== src/Agent/Consumer/Sound.antt =====
-- What holds of the session while the loop runs: the registry is the one of the chunks that were given
-- and the consumer has read nothing yet. `E` holds where a collaborator raises.
use grounded_ops_agent.Agent.ToolRun.{read_clock}
use grounded_ops_agent.Agent.Consumer.{nothing_collected, consume_event}
use grounded_ops_agent.Agent.Consumer.Recorded.{Recorded, registered, registered-given}
use grounded_ops_agent.Agent.Consumer.Report.{consume-append, Reading}
use grounded_ops_agent.Agent.Events.{
  ToolOutcome, AgentEvent, status, tool_call, tool_result, token, sources, trace, done, error,
}
use grounded_ops_agent.Agent.Extract.{extract_chunk_records}
use grounded_ops_agent.Agent.Prompts.{agent_system}
use grounded_ops_agent.Agent.Registry.{add, entries_for}
use grounded_ops_agent.Agent.Registry.Entries.{entries_for_from-answers}
use grounded_ops_agent.Agent.Registry.Invariant.{IsIndexed, add-IsIndexed}
use grounded_ops_agent.Agent.Session.{Environment, Session, Action, pure, call}
use grounded_ops_agent.Agent.Session.Triples.{Post, Triple, Triple-pure, Triple-call, Triple-bind}
use grounded_ops_agent.Agent.ToolRun.{
  check_repeat, register, recover, try_except, attempt, call_with_retries,
}
use grounded_ops_agent.Agent.ToolRun.Rules.{is_progress, Frame, Checked, ToolRules}
use grounded_ops_agent.Core.Errors.{
  Error, app_error, config_error, validation_error, not_found, retrieval_error, embedding_mismatch,
  provider_error, tool_error, guardrail_error, key_error, value_error, type_error, assertion_error,
  external, Result, ok, raise,
}
use grounded_ops_agent.Llm.Types.{null, Fields, ToolCall, ToolSpec, LlmMessage}
use grounded_ops_agent.Prelude.{
  ℕ, zero, suc, ◌≡◌, refl, sym, ap, ◌∙◌, subst, ◌⊎◌, inl, inr, Bool, true, false, Option, some,
  List, [], ◌∷◌, ◌++◌, Text,
}
use grounded_ops_agent.Retrieval.Types.{RetrievedChunk, SearchFilters}
use grounded_ops_agent.Text.Chars.{codes}

-- A tool error does not end the run.
abbrev pub is_tool_error : Error → Bool
is_tool_error (tool_error m) = true
is_tool_error _ = false

-- The outcome of a call that failed on every retry.
abbrev pub error_outcome : Text → ToolOutcome
error_outcome m = record { text = codes "Tool error: " ++ m; structured = null; is_error = true }

-- What the run asks of its collaborators, so that `E` holds where it raises.
pub record Collaborators {W : Type 0} (env : Environment W) (E : Session W → Type 0) : Type 0 where
  pub count_tokens :
      (messages : List LlmMessage) (tools : List ToolSpec) (s : Session W) {e : Error}
      → (env.count_tokens messages agent_system tools s.world).0 ≡ raise e
      → E (record s { world = (env.count_tokens messages agent_system tools s.world).1 })
  pub complete :
      (messages : List LlmMessage) (tools : Option (List ToolSpec)) (s : Session W) {e : Error}
      → (env.complete agent_system messages tools env.settings.max_output_tokens s.world).0
        ≡ raise e
      → E (record s {
        world = (env.complete agent_system messages tools env.settings.max_output_tokens s.world).1;
      })
  pub retrieve :
      (question : Text) (top_k : ℕ) (filters : Option SearchFilters) (s : Session W) {e : Error}
      → (env.retrieve question top_k filters s.world).0 ≡ raise e
      → E (record s { world = (env.retrieve question top_k filters s.world).1 })
  pub list_tools :
      (s : Session W) {e : Error}
      → (env.list_tools s.world).0 ≡ raise e
      → E (record s { world = (env.list_tools s.world).1 })
  pub call_tool :
      (name : Text) (arguments : Fields) (timeout : ℕ) (s : Session W) {e : Error}
      → (env.call_tool name arguments timeout s.world).0 ≡ raise e
      → is_tool_error e ≡ false
      → E (record s { world = (env.call_tool name arguments timeout s.world).1 })
  pub extracted :
      (name : Text) (arguments : Fields) (timeout : ℕ) (w : W) {outcome : ToolOutcome} {e : Error}
      → (env.call_tool name arguments timeout w).0 ≡ ok outcome
      → extract_chunk_records env outcome ≡ raise e
      → (s : Session W) → E s

module _ {W A : Type 0} (Q : A → Session W → Type 0) (E : Session W → Type 0) where
  pub Post-cases :
      (r : Result A) (s : Session W)
      → ((a : A) → r ≡ ok a → Q a s)
      → ((e : Error) → r ≡ raise e → E s)
      → Post Q E (r, s)
  Post-cases (ok a) s q h = q a refl
  Post-cases (raise e) s q h = h e refl

  Post-recover :
      (r : Result A) (handler : Text → Action W A) (s : Session W)
      → ((a : A) → r ≡ ok a → Q a s)
      → ((e : Error) → r ≡ raise e → is_tool_error e ≡ false → E s)
      → ((m : Text) → r ≡ raise (tool_error m) → Post Q E (handler m s))
      → Post Q E (recover r handler s)
  Post-recover (ok a) handler s q h k = q a refl
  Post-recover (raise (tool_error m)) handler s q h k = k m refl
  Post-recover (raise (app_error m)) handler s q h k = h _ refl refl
  Post-recover (raise (config_error m)) handler s q h k = h _ refl refl
  Post-recover (raise (validation_error m)) handler s q h k = h _ refl refl
  Post-recover (raise (not_found m)) handler s q h k = h _ refl refl
  Post-recover (raise (retrieval_error m)) handler s q h k = h _ refl refl
  Post-recover (raise (embedding_mismatch m)) handler s q h k = h _ refl refl
  Post-recover (raise (provider_error m)) handler s q h k = h _ refl refl
  Post-recover (raise (guardrail_error m)) handler s q h k = h _ refl refl
  Post-recover (raise key_error) handler s q h k = h _ refl refl
  Post-recover (raise value_error) handler s q h k = h _ refl refl
  Post-recover (raise type_error) handler s q h k = h _ refl refl
  Post-recover (raise assertion_error) handler s q h k = h _ refl refl
  Post-recover (raise (external m)) handler s q h k = h _ refl refl

pub ok_not_raise : {A : Type 0} {r : Result A} {a : A} {e : Error} → r ≡ ok a → r ≡ raise e → ⊥
ok_not_raise h k = cc

module _ {W : Type 0} (given : W → List (List RetrievedChunk)) where
  -- The registry is the one of the chunks that were given, and the consumer has read nothing yet.
  abbrev pub Sound : Session W → Type 0
  Sound s =
      Reading (λ s. IsIndexed s.registry × (s.registry ≡ registered (given s.world)))
        nothing_collected s

  -- Some chunks were given and are not registered yet.
  abbrev pub Owed : List RetrievedChunk → Session W → Type 0
  Owed chunks s =
      Reading (λ s. IsIndexed s.registry × ((add chunks s.registry).0 ≡ registered (given s.world)))
        nothing_collected s

-- The text of the last response.
abbrev pub Spoken : {W : Type 0} → (W → Option Text) → Text → Session W → Type 0
Spoken said t s = said s.world ≡ some t

module _ {W : Type 0} {env : Environment W} {said : W → Option Text}
    {given : W → List (List RetrievedChunk)} (log : Recorded env said given)
    {E : Session W → Type 0} (trusted : Collaborators env E) where
  -- An outcome that a call gave, or the one of a call that failed, with its chunks.
  abbrev Came : ToolOutcome → Type 0
  Came outcome =
      ((name : Text) × (arguments : Fields) × (timeout : ℕ) × (w : W) × ((env.call_tool name
            arguments timeout w).0
          ≡ ok outcome))
      ⊎ ((m : Text) × (outcome ≡ error_outcome m))

  abbrev Pending : ToolOutcome → Session W → Type 0
  Pending outcome s =
      Came outcome
      × ((chunks : List RetrievedChunk)
          → extract_chunk_records env outcome ≡ ok chunks
          → Owed given chunks s)

  pub kept :
      (s : Session W) (w : W)
      → given w ≡ given s.world
      → Sound given s
      → Sound given (record s { world = w })
  kept s w e ((v, m), r) = ((v, m ∙ ap registered (sym e)), r)

  pub owed :
      (s : Session W) (w : W) (chunks : List RetrievedChunk)
      → given w ≡ given s.world ++ chunks ∷ []
      → Sound given s
      → Owed given chunks (record s { world = w })
  owed s w chunks e ((v, m), r) =
      ((v, registered-given s.registry (given s.world) (given w) chunks m e), r)

  error_outcome-extracts : (m : Text) → extract_chunk_records env (error_outcome m) ≡ ok []
  unfolding extract_chunk_records
  error_outcome-extracts m = rw (log.not_json m) refl

  Pending-error : (m : Text) (s : Session W) → Sound given s → Pending (error_outcome m) s
  unfolding add
  Pending-error m s p = (
    inr (m, refl),
    λ chunks h.
        let none_there : [] ≡ chunks = cc (h, error_outcome-extracts m) in
        subst (λ cs. Owed given cs s) none_there p,
  )

  pub call-Sound :
      {A : Type 0} (f : W → Result A × W)
      → ((w : W) → given (f w).1 ≡ given w)
      → ((s : Session W) (e : Error)
          → (f s.world).0 ≡ raise e
          → E (record s { world = (f s.world).1 }))
      → Triple (Sound given) (call f) (λ _. Sound given) E
  call-Sound f same raised = Triple-call f (λ s p.
      Post-cases (λ _. Sound given) E (f s.world).0 _ (λ x h. kept s _ (same s.world) p)
        (λ e h. raised s e h))

  pub complete-Sound :
      (messages : List LlmMessage) (tools : Option (List ToolSpec))
      → Triple
          (Sound given)
          (call (env.complete agent_system messages tools env.settings.max_output_tokens))
          (λ r s. Sound given s × Spoken said r.text s)
          E
  complete-Sound messages tools = Triple-call _ (λ s p.
      Post-cases (λ r s'. Sound given s' × Spoken said r.text s') E
        (env.complete agent_system messages tools env.settings.max_output_tokens s.world).0 _
        (λ r h. (
          kept s _ (log.complete_gives messages tools s.world) p,
          log.complete messages tools s.world h,
        ))
        (λ e h. trusted.complete messages tools s h))

  answered_call :
      (tc : ToolCall) (s : Session W) (outcome : ToolOutcome)
      → (env.call_tool tc.name tc.arguments env.settings.tool_timeout_seconds s.world).0
        ≡ ok outcome
      → Sound given s
      → Pending outcome (record s {
        world = (env.call_tool tc.name tc.arguments env.settings.tool_timeout_seconds s.world).1;
      })
  answered_call tc s outcome h p =
      let t = env.settings.tool_timeout_seconds in
      (
        inl (tc.name, tc.arguments, t, s.world, h),
        λ chunks k. owed s _ chunks (log.call_tool tc.name tc.arguments t s.world h k) p,
      )

  attempt-Sound :
      (tc : ToolCall) (retries : ℕ) → Triple (Sound given) (attempt env tc retries) Pending E
  unfolding attempt try_except call pure
  attempt-Sound tc zero = record {
    at = λ s p.
        let t = env.settings.tool_timeout_seconds in
        Post-recover Pending E (env.call_tool tc.name tc.arguments t s.world).0 _ _
          (λ a h. answered_call tc s a h p)
          (λ e h k. trusted.call_tool tc.name tc.arguments t s h k)
          (λ m h.
            let w = (env.call_tool tc.name tc.arguments t s.world).1 in
            Pending-error m (record s { world = w })
              (kept s w (log.failed_call tc.name tc.arguments t s.world h) p));
  }
  attempt-Sound tc (suc retries) = record {
    at = λ s p.
        let t = env.settings.tool_timeout_seconds in
        Post-recover Pending E (env.call_tool tc.name tc.arguments t s.world).0 _ _
          (λ a h. answered_call tc s a h p)
          (λ e h k. trusted.call_tool tc.name tc.arguments t s h k)
          (λ m h.
            (attempt-Sound tc retries).at _
              (kept s _ (log.failed_call tc.name tc.arguments t s.world h) p));
  }

  read_clock-Sound : Triple (Sound given) (read_clock env) (λ _. Sound given) E
  unfolding read_clock
  read_clock-Sound = Triple-call _ (λ s p. kept s _ (log.perf_counter s.world) p)

  read_clock-Pending :
      (outcome : ToolOutcome) → Triple (Pending outcome) (read_clock env) (λ _. Pending outcome) E
  unfolding read_clock
  read_clock-Pending outcome = Triple-call _ (λ s (c, p). (
    c,
    λ chunks h.
        let ((v, m), r) = p chunks h in
        ((v, m ∙ ap registered (sym (log.perf_counter s.world))), r),
  ))

  call_with_retries-Sound :
      (tc : ToolCall) → Triple (Sound given) (call_with_retries env tc) (λ a. Pending a.0) E
  unfolding call_with_retries
  call_with_retries-Sound tc = Triple-bind {Q = λ _. Sound given} _ _ read_clock-Sound λ t.
      Triple-bind {Q = Pending} _ _ (attempt-Sound tc _) λ outcome.
        Triple-bind {Q = λ _. Pending outcome} _ _ (read_clock-Pending outcome)
          λ now. Triple-pure _ (λ s p. p)

  Checked-both :
      (P : Session W → Type 0) (tc : ToolCall) (b : Bool) (s : Session W)
      → P s
      → Checked P (λ _. P) tc b s
  Checked-both P tc true s p = p
  Checked-both P tc false s p = p

  pub frame-Sound : Frame (Sound given)
  unfolding consume_event
  frame-Sound = record {
    messages = λ s m p. p;
    steps_trace = λ s t p. p;
    emitted = λ s e h (v, r). (v, consume-append s.emitted e _ _ r ∙ progress e h);
    usage = λ s u m p. p;
  }
    where
      progress :
          (e : AgentEvent)
          → is_progress e ≡ true
          → consume_event e nothing_collected ≡ ok nothing_collected
      progress (status p n) h = refl
      progress (tool_call n a) h = refl
      progress (tool_result n t b l) h = refl
      progress (token t) h = cc
      progress (sources ss) h = cc
      progress (trace ts) h = cc
      progress (done d) h = cc
      progress (error d) h = cc

  pub register-Sound :
      (chunks : List RetrievedChunk)
      → Triple (Owed given chunks) (register chunks) (λ _. Sound given) E
  unfolding register
  register-Sound chunks = record {
    at = λ s ((v, m), r). ((add-IsIndexed chunks s.registry v, m), r);
  }

  extracted-Sound :
      (outcome : ToolOutcome) {e : Error}
      → extract_chunk_records env outcome ≡ raise e
      → (s : Session W) → Pending outcome s
      → E s
  extracted-Sound outcome {e = e} h s (inl (name, arguments, t, w, k), p) =
      trusted.extracted name arguments t w k h s
  extracted-Sound outcome {e = e} h s (inr (m, k), p) = absurd (
      ok_not_raise (error_outcome-extracts m)
        (subst (λ o. extract_chunk_records env o ≡ raise e) k h))

  pub tool_rules : ToolRules env (Sound given) (λ _. Sound given) Pending E
  unfolding check_repeat entries_for add
  tool_rules = record {
    frame = frame-Sound;
    checked = λ tc. record { at = λ s p. Checked-both (Sound given) tc _ _ p };
    called = call_with_retries-Sound;
    extracted = extracted-Sound;
    no_chunks = λ outcome s h (c, p). p [] h;
    registered =
        λ outcome chunks h. record { at = λ s (c, p). (register-Sound chunks).at s (p chunks h) };
    found = λ indices s h p.
        let (es, k) = entries_for_from-answers p.0.0 [] indices in absurd (ok_not_raise k h);
  }
