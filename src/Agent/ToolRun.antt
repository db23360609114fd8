-- ===== src/Agent/ToolRun.antt =====
-- The tool calls of src/app/agent/orchestrator.py: `_run_tool`, `_call_with_retries` and
-- `_register_and_format`.
pub mod Rules
use grounded_ops_agent.Agent.Session.{◌>>=◌, ◌>>◌}
use grounded_ops_agent.Agent.Events.{ToolOutcome, TraceStep, tool_call, tool_result}
use grounded_ops_agent.Agent.Extract.{summary, extract_chunk_records}
use grounded_ops_agent.Agent.Guardrails.{is_repeat}
use grounded_ops_agent.Agent.Registry.{render_records, add, entries, entries_for}
use grounded_ops_agent.Agent.Session.{Environment, Action, pure, lift, call, gets, modify, emit}
use grounded_ops_agent.Core.Errors.{tool_error, Result, ok, raise}
use grounded_ops_agent.Llm.Types.{null, tool, ToolCall, LlmMessage, tool_result_message}
use grounded_ops_agent.Prelude.{
  ℕ, zero, suc, Bool, true, false, none, some, List, [], ◌∷◌, ◌++◌, Text,
}
use grounded_ops_agent.Prelude.Float.{Float}
use grounded_ops_agent.Retrieval.Types.{RetrievedChunk}
use grounded_ops_agent.Text.Chars.{codes}

module _ {W : Type 0} where
  unfoldable pub append_message : LlmMessage → Action W Unit
  append_message m = modify (λ s. record s { messages = s.messages ++ m ∷ [] })

  unfoldable pub append_step : TraceStep → Action W Unit
  append_step step = modify (λ s. record s { steps_trace = s.steps_trace ++ step ∷ [] })

  -- `cycles.is_repeat(tc.name, tc.arguments)`
  unfoldable pub check_repeat : ToolCall → Action W Bool
  check_repeat tc s =
      let (cycles', repeated) = is_repeat tc.name tc.arguments s.cycles in
      (ok repeated, record s { cycles = cycles' })

  -- `registry.add(chunks)`
  unfoldable pub register : List RetrievedChunk → Action W (List ℕ)
  register chunks s =
      let (registry', indices) = add chunks s.registry in
      (ok indices, record s { registry = registry' })

module _ {W A : Type 0} where
  -- `except ToolError as exc`
  abbrev pub recover : Result A → (Text → Action W A) → Action W A
  recover (ok a) handler s = (ok a, s)
  recover (raise (tool_error m)) handler s = handler m s
  recover (raise e) handler s = (raise e, s)

  unfoldable pub try_except : Action W A → (Text → Action W A) → Action W A
  try_except body handler s = let (r, s') = body s in recover r handler s'

module _ {W : Type 0} (env : Environment W) where
  open env use {settings, floats}

  -- The `while True` loop, on the retries that are left.
  unfoldable pub attempt : ToolCall → ℕ → Action W ToolOutcome
  attempt tc zero =
      try_except (call (env.call_tool tc.name tc.arguments settings.tool_timeout_seconds)) (λ m.
        pure (record { text = codes "Tool error: " ++ m; structured = null; is_error = true }))
  attempt tc (suc retries) =
      try_except (call (env.call_tool tc.name tc.arguments settings.tool_timeout_seconds))
        (λ m. attempt tc retries)

  unfoldable pub read_clock : Action W Float
  read_clock = call (λ w. let (t, w') = env.perf_counter w in (ok t, w'))

  unfoldable pub call_with_retries : ToolCall → Action W (ToolOutcome × Float)
  call_with_retries tc = do
    start ← read_clock
    outcome ← attempt tc settings.max_tool_retries
    now ← read_clock
    pure (outcome, floats.mul (floats.sub now start) (floats.of_ℕ 1000))

  -- `_register_and_format` behind the extraction of the chunks.
  unfoldable pub format_chunks : ToolOutcome → List RetrievedChunk → Action W Text
  format_chunks outcome [] = pure outcome.text
  format_chunks outcome (c ∷ cs) = do
    indices ← register (c ∷ cs)
    registry ← gets (λ s. s.registry)
    entries ← lift (entries_for registry indices)
    pure (codes "Search results (cite these by index):\n" ++ render_records entries)

  unfoldable pub register_and_format : ToolOutcome → Action W Text
  register_and_format outcome = do
    chunks ← lift (extract_chunk_records env outcome)
    format_chunks outcome chunks

  abbrev pub blocked : Text
  blocked = codes "blocked: duplicate call"

  unfoldable pub blocked_call : ToolCall → ℕ → Action W Unit
  blocked_call tc step = do
    append_step (record {
      step = step;
      tool = tc.name;
      arguments = tc.arguments;
      latency_ms = floats.of_ℕ 0;
      result_summary = blocked;
      is_error = true;
    })
    append_message (
        tool_result_message tc.id
          (codes "Duplicate call blocked. Try a different approach or answer.") true)
    emit (tool_result tc.name blocked true none)

  -- What `_run_tool` does once a call is answered.
  unfoldable pub record_outcome : ToolCall → ℕ → ToolOutcome × Float → Action W Unit
  record_outcome tc step (outcome, latency) = do
    content ← register_and_format outcome
    append_step (record {
      step = step;
      tool = tc.name;
      arguments = tc.arguments;
      latency_ms = latency;
      result_summary = summary outcome.text;
      is_error = outcome.is_error;
    })
    append_message (tool_result_message tc.id content outcome.is_error)
    emit (
        tool_result tc.name (summary outcome.text) outcome.is_error (some (floats.round latency 1)))

  unfoldable pub made_call : ToolCall → ℕ → Action W Unit
  made_call tc step = do answer ← call_with_retries tc; record_outcome tc step answer

  -- The two ways on from the cycle check.
  unfoldable pub blocked_or_made : ToolCall → ℕ → Bool → Action W Unit
  blocked_or_made tc step true = blocked_call tc step
  blocked_or_made tc step false = made_call tc step

  unfoldable pub run_tool : ToolCall → ℕ → Action W Unit
  run_tool tc step = do
    emit (tool_call tc.name tc.arguments)
    repeated ← check_repeat tc
    blocked_or_made tc step repeated

  unfoldable pub run_tools : List ToolCall → ℕ → Action W Unit
  run_tools [] step = pure tt
  run_tools (tc ∷ tcs) step = do run_tool tc step; run_tools tcs step
