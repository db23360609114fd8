-- ===== src/Agent/ToolRun/Rules.antt =====
-- How an invariant of the session passes through a tool call.
use grounded_ops_agent.Agent.Events.{
  ToolOutcome, TraceStep, AgentEvent, status, tool_call, tool_result,
}
use grounded_ops_agent.Agent.Extract.{extract_chunk_records}
use grounded_ops_agent.Agent.Registry.{entries_for}
use grounded_ops_agent.Agent.Session.{Environment, Session, emit}
use grounded_ops_agent.Agent.Session.Triples.{
  Triple, Triple-pure, Triple-lift, Triple-gets, Triple-modify, Triple-emit, Triple-bind,
}
use grounded_ops_agent.Agent.ToolRun.{
  append_message, append_step, check_repeat, register, call_with_retries, format_chunks,
  register_and_format, blocked_call, record_outcome, made_call, blocked_or_made, run_tool,
  run_tools,
}
use grounded_ops_agent.Core.Errors.{Error, ok, raise}
use grounded_ops_agent.Llm.Types.{ToolCall, LlmMessage, LlmUsage}
use grounded_ops_agent.Prelude.{ℕ, ◌≡◌, refl, Bool, true, false, List, [], ◌∷◌, ◌++◌, Text}
use grounded_ops_agent.Prelude.Float.{Float}
use grounded_ops_agent.Retrieval.Types.{RetrievedChunk}

-- The events of the loop, as opposed to those that report the result.
abbrev pub is_progress : AgentEvent → Bool
is_progress (status phase step) = true
is_progress (tool_call name arguments) = true
is_progress (tool_result name text is_error latency) = true
is_progress _ = false

-- `P` does not depend on the messages, the trace and the usage, and the events of the loop keep it.
pub record Frame {W : Type 0} (P : Session W → Type 0) : Type 0 where
  pub messages : (s : Session W) (m : List LlmMessage) → P s → P (record s { messages = m })
  pub steps_trace : (s : Session W) (t : List TraceStep) → P s → P (record s { steps_trace = t })
  pub emitted :
      (s : Session W) (e : AgentEvent)
      → is_progress e ≡ true
      → P s
      → P (record s { emitted = s.emitted ++ e ∷ [] })
  pub usage :
      (s : Session W) (u : LlmUsage) (m : Text) → P s → P (record s { usage = u; model = m })

module _ {W : Type 0} {P E : Session W → Type 0} (frame : Frame P) where
  pub emit-Keeps : (e : AgentEvent) → is_progress e ≡ true → Triple P (emit e) (λ _. P) E
  emit-Keeps e h = Triple-emit e (λ s. frame.emitted s e h)

  pub append_message-Keeps : (m : LlmMessage) → Triple P (append_message m) (λ _. P) E
  unfolding append_message
  append_message-Keeps m = Triple-modify _ (λ s. frame.messages s (s.messages ++ m ∷ []))

  pub append_step-Keeps : (t : TraceStep) → Triple P (append_step t) (λ _. P) E
  unfolding append_step
  append_step-Keeps t = Triple-modify _ (λ s. frame.steps_trace s (s.steps_trace ++ t ∷ []))

module _ {W : Type 0} (P : Session W → Type 0) (M : ToolCall → Session W → Type 0) where
  -- A repeated call is blocked; a new one goes on.
  abbrev pub Checked : ToolCall → Bool → Session W → Type 0
  Checked tc true = P
  Checked tc false = M tc

-- The parts of `run_tool` that an invariant may depend on; `M` holds between the cycle check and the
-- call that it let through, `K` of its outcome until the chunks in it are registered, and `E` where
-- the tool call raises.
pub record ToolRules {W : Type 0} (env : Environment W) (P : Session W → Type 0)
    (M : ToolCall → Session W → Type 0) (K : ToolOutcome → Session W → Type 0)
    (E : Session W → Type 0) : Type 0 where
  pub frame : Frame P
  pub checked : (tc : ToolCall) → Triple P (check_repeat tc) (Checked P M tc) E
  pub called : (tc : ToolCall) → Triple (M tc) (call_with_retries env tc) (λ a. K a.0) E
  pub extracted :
      (outcome : ToolOutcome) {e : Error}
      → extract_chunk_records env outcome ≡ raise e
      → (s : Session W) → K outcome s
      → E s
  pub no_chunks :
      (outcome : ToolOutcome) (s : Session W)
      → extract_chunk_records env outcome ≡ ok []
      → K outcome s
      → P s
  pub registered :
      (outcome : ToolOutcome) (chunks : List RetrievedChunk)
      → extract_chunk_records env outcome ≡ ok chunks
      → Triple (K outcome) (register chunks) (λ _. P) E
  pub found :
      (indices : List ℕ) (s : Session W) {e : Error}
      → entries_for s.registry indices ≡ raise e
      → P s
      → E s

module _ {W : Type 0} {env : Environment W} {P : Session W → Type 0}
    {M : ToolCall → Session W → Type 0} {K : ToolOutcome → Session W → Type 0}
    {E : Session W → Type 0} (rules : ToolRules env P M K E) where
  open rules use {frame, checked, called, extracted, no_chunks, registered, found}

  -- The outcome of a call, with the chunks that were extracted from it.
  abbrev Extracted : ToolOutcome → List RetrievedChunk → Session W → Type 0
  Extracted outcome chunks s = K outcome s × (extract_chunk_records env outcome ≡ ok chunks)

  format_chunks-Keeps :
      (outcome : ToolOutcome) (chunks : List RetrievedChunk)
      → Triple (Extracted outcome chunks) (format_chunks env outcome chunks) (λ _. P) E
  unfolding format_chunks
  format_chunks-Keeps outcome [] = Triple-pure _ (λ s (k, h). no_chunks outcome s h k)
  format_chunks-Keeps outcome (c ∷ cs) =
      Triple-bind {Q = λ _. P} _ _
        (record { at = λ s (k, h). (registered outcome (c ∷ cs) h).at s k })
        λ indices.
          Triple-bind {Q = λ registry s. P s × (registry ≡ s.registry)} _ _
            (Triple-gets _ (λ s p. (p, refl)))
            λ registry.
              Triple-bind {Q = λ _. P} _ _
                (Triple-lift _ (λ es s _ p. p.0)
                  (λ e s h p. found indices s {e = e} (cc (h, p.1)) p.0))
                λ es. Triple-pure _ (λ s p. p)

  register_and_format-Keeps :
      (outcome : ToolOutcome) → Triple (K outcome) (register_and_format env outcome) (λ _. P) E
  unfolding register_and_format
  register_and_format-Keeps outcome =
      Triple-bind {Q = Extracted outcome} _ _
        (Triple-lift _ (λ chunks s h k. (k, h)) (λ e s h. extracted outcome h s))
        (format_chunks-Keeps outcome)

  record_outcome-Keeps :
      (tc : ToolCall) (step : ℕ) (answer : ToolOutcome × Float)
      → Triple (K answer.0) (record_outcome env tc step answer) (λ _. P) E
  unfolding record_outcome
  record_outcome-Keeps tc step (outcome, latency) =
      Triple-bind _ _ (register_and_format-Keeps outcome) λ content.
        Triple-bind _ _ (append_step-Keeps frame _)
          λ _. Triple-bind _ _ (append_message-Keeps frame _) λ _. emit-Keeps frame _ refl

  blocked_or_made-Keeps :
      (tc : ToolCall) (step : ℕ) (repeated : Bool)
      → Triple (Checked P M tc repeated) (blocked_or_made env tc step repeated) (λ _. P) E
  unfolding blocked_or_made blocked_call made_call
  blocked_or_made-Keeps tc step true =
      Triple-bind _ _ (append_step-Keeps frame _)
        λ _. Triple-bind _ _ (append_message-Keeps frame _) λ _. emit-Keeps frame _ refl
  blocked_or_made-Keeps tc step false = Triple-bind _ _ (called tc) (record_outcome-Keeps tc step)

  -- A tool call, blocked or made, keeps `P`.
  pub run_tool-Keeps : (tc : ToolCall) (step : ℕ) → Triple P (run_tool env tc step) (λ _. P) E
  unfolding run_tool
  run_tool-Keeps tc step =
      Triple-bind _ _ (emit-Keeps frame _ refl)
        λ _. Triple-bind _ _ (checked tc) (blocked_or_made-Keeps tc step)

  pub run_tools-Keeps :
      (tcs : List ToolCall) (step : ℕ) → Triple P (run_tools env tcs step) (λ _. P) E
  unfolding run_tools
  run_tools-Keeps [] step = Triple-pure _ (λ s p. p)
  run_tools-Keeps (tc ∷ tcs) step =
      Triple-bind _ _ (run_tool-Keeps tc step) λ _. run_tools-Keeps tcs step
