-- ===== src/Agent/Session.antt =====
-- One request: what the orchestrator calls, the state of a run, and code that reads and writes the
-- state and may raise. What was written and emitted before a raise stays.
pub mod Triples
use grounded_ops_agent.Agent.Events.{ToolOutcome, TraceStep, AgentEvent}
use grounded_ops_agent.Agent.Guardrails.{CycleDetector, TokenBudget}
use grounded_ops_agent.Agent.Registry.{CitationRegistry}
use grounded_ops_agent.Core.Errors.{Result, ok, raise}
use grounded_ops_agent.Core.Pricing.{Prices}
use grounded_ops_agent.Core.Settings.{Settings}
use grounded_ops_agent.Llm.Types.{Json, Fields, ToolSpec, LlmMessage, LlmUsage, LlmResponse}
use grounded_ops_agent.Prelude.{ℕ, Option, List, [], ◌∷◌, ◌++◌, Text}
use grounded_ops_agent.Prelude.Float.{Float, FloatOps}
use grounded_ops_agent.Prelude.Int.{ℤ}
use grounded_ops_agent.Retrieval.Types.{RetrievedChunk, SearchFilters}

-- The collaborators, over the state `W` of the world outside. None of them is assumed to succeed.
pub record Environment (W : Type 0) : Type 0 where
  pub settings : Settings
  pub floats : FloatOps
  pub prices : Prices
  -- `LLMProvider`
  pub model_name : Text
  pub count_tokens : List LlmMessage → Text → List ToolSpec → W → Result ℕ × W
  pub complete :
      Text
      → List LlmMessage
      → Option (List ToolSpec)
      → (max_tokens : ℕ) → W
      → Result LlmResponse × W
  -- `RetrievalService.retrieve`
  pub retrieve : Text → (top_k : ℕ) → Option SearchFilters → W → Result (List RetrievedChunk) × W
  -- `ToolExecutor`
  pub list_tools : W → Result (List ToolSpec) × W
  pub call_tool : Text → Fields → (timeout : ℕ) → W → Result ToolOutcome × W
  -- `perf_counter`
  pub perf_counter : W → Float × W
  -- `json.loads`, with `none` where it raises, and `str`, `int` and `float` of a value from JSON
  pub loads : Text → Option Json
  pub to_str : Json → Text
  pub to_int : Json → Result ℤ
  pub to_float : Json → Result Float

pub record Session (W : Type 0) : Type 0 where
  pub world : W
  pub budget : TokenBudget
  pub cycles : CycleDetector
  pub registry : CitationRegistry
  pub steps_trace : List TraceStep
  pub usage : LlmUsage
  pub model : Text
  pub messages : List LlmMessage
  -- the events yielded so far
  pub emitted : List AgentEvent

abbrev pub Action : Type 0 → Type 0 → Type 0
Action W A = Session W → Result A × Session W

module _ {W A : Type 0} where
  unfoldable pub pure : A → Action W A
  pure a s = (ok a, s)

  -- A pure computation that may raise.
  unfoldable pub lift : Result A → Action W A
  lift r s = (r, s)

  -- A call of a collaborator.
  unfoldable pub call : (W → Result A × W) → Action W A
  call f s = let (r, w) = f s.world in (r, record s { world = w })

  unfoldable pub gets : (Session W → A) → Action W A
  gets f s = (ok (f s), s)

module _ {W : Type 0} where
  unfoldable pub modify : (Session W → Session W) → Action W Unit
  modify f s = (ok tt, f s)

  -- `yield event`
  unfoldable pub emit : AgentEvent → Action W Unit
  emit event s = (ok tt, record s { emitted = s.emitted ++ event ∷ [] })

module _ {W A B : Type 0} where
  abbrev pub continue : Result A → (A → Action W B) → Action W B
  continue (ok a) f s = f a s
  continue (raise e) f s = (raise e, s)

  infixl 5 ◌>>=◌ ◌>>◌
  unfoldable pub ◌>>=◌ : Action W A → (A → Action W B) → Action W B
  ◌>>=◌ m f s = let (r, s') = m s in continue r f s'

  abbrev pub ◌>>◌ : Action W A → Action W B → Action W B
  m >> n = m >>= λ _. n
