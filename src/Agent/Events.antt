-- ===== src/Agent/Events.antt =====
-- The records of src/app/agent/orchestrator.py and src/app/agent/tool_executor.py. The `data` dict
-- of an `AgentEvent` is the constructor's fields.
use grounded_ops_agent.Agent.Generation.{Source}
use grounded_ops_agent.Llm.Types.{Json, Fields, LlmUsage}
use grounded_ops_agent.Prelude.{ℕ, Bool, Option, List, Text}
use grounded_ops_agent.Prelude.Float.{Float}

pub record ToolOutcome : Type 0 where
  pub text : Text
  -- `null` for `None`
  pub structured : Json
  pub is_error : Bool

pub record TraceStep : Type 0 where
  pub step : ℕ
  pub tool : Text
  pub arguments : Fields
  pub latency_ms : Float
  pub result_summary : Text
  pub is_error : Bool

pub data StopReason : Type 0 where
  answered step_cap token_budget : StopReason

-- The data of the last event.
pub record Done : Type 0 where
  pub used_indices : List ℕ
  pub usage : LlmUsage
  pub cost_usd : Float
  pub model : Text
  pub steps : ℕ
  pub stop_reason : StopReason

pub data AgentEvent : Type 0 where
  status : (phase : Text) → Option ℕ → AgentEvent
  tool_call : (name : Text) → Fields → AgentEvent
  -- a blocked call has no latency
  tool_result : (name summary : Text) (is_error : Bool) → Option Float → AgentEvent
  token : Text → AgentEvent
  sources : List Source → AgentEvent
  trace : List TraceStep → AgentEvent
  done : Done → AgentEvent
  error : Text → AgentEvent

pub record AgentResult : Type 0 where
  pub answer : Text
  pub sources : List Source
  pub used_indices : List ℕ
  pub trace : List TraceStep
  pub usage : LlmUsage
  pub cost_usd : Float
  pub model : Text
  pub steps : ℕ
  pub stop_reason : StopReason
