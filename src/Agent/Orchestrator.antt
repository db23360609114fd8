-- ===== src/Agent/Orchestrator.antt =====
-- src/app/agent/orchestrator.py: the loop of `Orchestrator.events`. The generator is an action that
-- appends the events it yields; `while step < max_agent_steps` recurs on the rounds left.
pub mod Rules
use grounded_ops_agent.Agent.Session.{◌>>=◌, ◌>>◌}
use grounded_ops_agent.Agent.Citations.{validate_and_strip}
use grounded_ops_agent.Agent.Events.{
  StopReason, answered, step_cap, token_budget, status, token, sources, trace, done,
}
use grounded_ops_agent.Agent.Generation.{Source, sources_for}
use grounded_ops_agent.Agent.Guardrails.{new_detector, new_budget, can_afford, reconcile}
use grounded_ops_agent.Agent.Prompts.{or_text, agent_system, build_agent_prompt}
use grounded_ops_agent.Agent.Registry.{empty_registry}
use grounded_ops_agent.Agent.Session.{
  Environment, Session, Action, pure, lift, call, gets, modify, emit,
}
use grounded_ops_agent.Agent.ToolRun.{append_message, register, run_tools}
use grounded_ops_agent.Core.Pricing.{cost_usd}
use grounded_ops_agent.Llm.Types.{
  assistant, ToolCall, ToolSpec, user_message, no_usage, add_usage, LlmResponse,
}
use grounded_ops_agent.Prelude.{
  ℕ, zero, suc, ◌+◌, Bool, true, false, Option, none, some, List, [], ◌∷◌, length, take, drop, Text,
}
use grounded_ops_agent.Retrieval.Types.{SearchFilters}
use grounded_ops_agent.Text.Chars.{codes}

abbrev pub token_chunk : ℕ
token_chunk = 24

-- The pieces of the cleaned text, `fuel` of them at most; the length of the text is enough.
unfoldable pub token_pieces : ℕ → Text → List Text
token_pieces zero s = []
token_pieces (suc fuel) [] = []
token_pieces (suc fuel) (c ∷ s) =
    take token_chunk (c ∷ s) ∷ token_pieces fuel (drop token_chunk (c ∷ s))

-- `text or None`
abbrev pub or_none : Text → Option Text
or_none [] = none
or_none (c ∷ s) = some (c ∷ s)

module _ {W : Type 0} where
  -- `usage = usage + response.usage; model = response.model or model`
  unfoldable pub account : LlmResponse → Action W Unit
  account response = modify (λ s. record s {
    usage = add_usage s.usage response.usage;
    model = or_text response.model s.model;
  })

  unfoldable pub emit_tokens : List Text → Action W Unit
  emit_tokens [] = pure tt
  emit_tokens (t ∷ ts) = do emit (token t); emit_tokens ts

module _ {W : Type 0} (env : Environment W) where
  open env use {settings, floats}

  unfoldable pub final_completion : Action W LlmResponse
  final_completion = do
    append_message (
        user_message
          (codes "Stop using tools. Give your final grounded answer now with [n] citations."))
    messages ← gets (λ s. s.messages)
    call (env.complete agent_system messages none settings.max_output_tokens)

  -- `self._final_completion` with the accounting of its caller: the final text.
  unfoldable pub finish_with : StopReason → ℕ → Action W (Text × StopReason × ℕ)
  finish_with reason step = do
    final ← final_completion
    account final
    pure (final.text, reason, step)

  unfoldable pub plan : List ToolSpec → ℕ → Action W LlmResponse
  plan tools step = do
    emit (status (codes "planning") (some step))
    messages ← gets (λ s. s.messages)
    response ← call (env.complete agent_system messages (some tools) settings.max_output_tokens)
    account response
    modify (λ s. record s { budget = reconcile response.usage s.budget })
    pure response

  -- The rest of the loop's body behind the completion; `next` is the next round.
  unfoldable pub answer_or_run :
      LlmResponse
      → List ToolCall
      → ℕ
      → Action W (Text × StopReason × ℕ)
      → Action W (Text × StopReason × ℕ)
  answer_or_run response [] step next = pure (response.text, answered, step)
  answer_or_run response (tc ∷ tcs) step next = do
    append_message (record {
      role = assistant;
      content = or_none response.text;
      tool_calls = tc ∷ tcs;
      tool_call_id = none;
      is_error = false;
    })
    run_tools env (tc ∷ tcs) step
    next

  -- The loop's body behind the budget check.
  unfoldable pub finish_or_plan :
      List ToolSpec → ℕ → Action W (Text × StopReason × ℕ) → Bool → Action W (Text × StopReason × ℕ)
  finish_or_plan tools step next false = finish_with token_budget step
  finish_or_plan tools step next true = do
    response ← plan tools step
    answer_or_run response response.tool_calls step next

  -- The loop with `left` rounds left: the final text, the stop reason and the steps.
  unfoldable pub loop : List ToolSpec → (left step : ℕ) → Action W (Text × StopReason × ℕ)
  loop tools zero step = finish_with step_cap step
  loop tools (suc left) step = do
    messages ← gets (λ s. s.messages)
    projected ← call (env.count_tokens messages agent_system tools)
    affordable ← gets (λ s. can_afford s.budget projected)
    finish_or_plan tools step (loop tools left (step + 1)) affordable

  -- What follows the computation of the sources.
  unfoldable pub report_found : Text × StopReason × ℕ → List ℕ → List Source → Action W Unit
  report_found (final_text, stop_reason, step) used found = do
    emit (sources found)
    steps_trace ← gets (λ s. s.steps_trace)
    emit (trace steps_trace)
    usage ← gets (λ s. s.usage)
    model ← gets (λ s. s.model)
    emit (
        done (record {
          used_indices = used;
          usage = usage;
          cost_usd = cost_usd floats env.prices model usage.input_tokens usage.output_tokens;
          model = model;
          steps = step;
          stop_reason = stop_reason;
        }))

  -- What follows the loop.
  unfoldable pub report : Text × StopReason × ℕ → Action W Unit
  report (final_text, stop_reason, step) = do
    registry ← gets (λ s. s.registry)
    let (cleaned, used) = validate_and_strip final_text registry
    emit_tokens (token_pieces (length cleaned) cleaned)
    found ← lift (sources_for registry used)
    report_found (final_text, stop_reason, step) used found

  -- `top_k or default`
  abbrev or_default : Option ℕ → ℕ → ℕ
  or_default none d = d
  or_default (some zero) d = d
  or_default (some (suc k)) d = suc k

  unfoldable pub events : Text → Option ℕ → Option SearchFilters → Action W Unit
  events question top_k filters = do
    emit (status (codes "seed_retrieval") none)
    seed ← call (env.retrieve question (or_default top_k settings.retrieval_top_k) filters)
    register seed
    tools ← call env.list_tools
    registry ← gets (λ s. s.registry)
    prompt ← lift (build_agent_prompt question registry)
    append_message (user_message prompt)
    final ← loop tools settings.max_agent_steps 0
    report final

  -- The locals of `events` before its first statement.
  abbrev pub new_session : W → Session W
  new_session w = record {
    world = w;
    budget = new_budget settings.per_request_token_budget settings.max_output_tokens;
    cycles = new_detector;
    registry = empty_registry;
    steps_trace = [];
    usage = no_usage;
    model = env.model_name;
    messages = [];
    emitted = [];
  }
