-- ===== src/Agent/Consumer.antt =====
-- `Orchestrator.run` of src/app/agent/orchestrator.py: the events consumed into one result.
pub mod Report
pub mod Recorded
pub mod Grounded
pub mod Sound
pub mod Rounds
pub mod Results
pub mod Tests
use grounded_ops_agent.Agent.Events.{
  TraceStep, answered, Done, AgentEvent, token, sources, trace, done, error, AgentResult,
}
use grounded_ops_agent.Agent.Generation.{Source}
use grounded_ops_agent.Agent.Orchestrator.{events, new_session}
use grounded_ops_agent.Agent.Session.{Environment}
use grounded_ops_agent.Core.Errors.{external, Result, ok, raise, ◌>>=◌, ◌>>◌}
use grounded_ops_agent.Llm.Types.{no_usage}
use grounded_ops_agent.Prelude.{ℕ, Option, none, some, List, [], ◌∷◌, ◌++◌, concat, Text}
use grounded_ops_agent.Prelude.Float.{FloatOps}
use grounded_ops_agent.Retrieval.Types.{SearchFilters}

pub record Collected : Type 0 where
  pub answer_parts : List Text
  pub sources : List Source
  pub trace : List TraceStep
  pub done : Option Done

abbrev pub nothing_collected : Collected
nothing_collected = record { answer_parts = []; sources = []; trace = []; done = none }

-- The body of the loop of `run`.
unfoldable pub consume_event : AgentEvent → Collected → Result Collected
consume_event (token t) c = ok (record c { answer_parts = c.answer_parts ++ t ∷ [] })
consume_event (sources ss) c = ok (record c { sources = ss })
consume_event (trace ts) c = ok (record c { trace = ts })
consume_event (done d) c = ok (record c { done = some d })
consume_event (error detail) c = raise (external detail)
consume_event _ c = ok c

unfoldable pub consume : List AgentEvent → Collected → Result Collected
unfolding consume_event
consume [] c = ok c
consume (e ∷ es) c = do c' ← consume_event e c; consume es c'

-- `AgentResult(...)`, with the defaults of `done.get`.
unfoldable pub result_of : FloatOps → (model_name : Text) → Collected → AgentResult
result_of floats model_name c = elim c.done [
  | some d ↦ record {
    answer = concat c.answer_parts;
    sources = c.sources;
    used_indices = d.used_indices;
    trace = c.trace;
    usage = d.usage;
    cost_usd = d.cost_usd;
    model = d.model;
    steps = d.steps;
    stop_reason = d.stop_reason;
  }
  | none ↦ record {
    answer = concat c.answer_parts;
    sources = c.sources;
    used_indices = [];
    trace = c.trace;
    usage = no_usage;
    cost_usd = floats.of_ℕ 0;
    model = model_name;
    steps = 0;
    stop_reason = answered;
  }
]

module _ {W : Type 0} (env : Environment W) where
  -- The consumer takes each event as it is yielded and does not act on the generator. So it stops at
  -- the first `error` event, or else at the exception that ends the generator.
  unfoldable pub run : Text → Option ℕ → Option SearchFilters → W → Result AgentResult × W
  unfolding consume result_of
  run question top_k filters w =
      let (ended, s) = events env question top_k filters (new_session env w) in
      (
        (do
          c ← consume s.emitted nothing_collected
          ended
          ok (result_of env.floats env.model_name c)),
        s.world,
      )
