-- ===== src/Agent/Guardrails.antt =====
-- src/app/agent/guardrails.py. Token counts are natural numbers.
use grounded_ops_agent.Llm.Json.{dumps}
use grounded_ops_agent.Llm.Types.{obj, Fields, LlmUsage}
use grounded_ops_agent.Prelude.{
  ℕ, ◌+◌, ◌-◌, Bool, true, false, List, [], ◌∷◌, ◌++◌, leb, if◌then◌else◌, nat_eq, Text, text_eq,
  contains,
}
use grounded_ops_agent.Text.Chars.{codes}

unfoldable pub cycle_key : Text → Fields → Text
cycle_key name arguments = name ++ (codes "::" ++ dumps (obj arguments))

-- The set `_seen` of the keys of the calls made.
pub record CycleDetector : Type 0 where
  pub seen : List Text

abbrev pub new_detector : CycleDetector
new_detector = record { seen = [] }

unfoldable pub is_repeat : Text → Fields → CycleDetector → CycleDetector × Bool
is_repeat name arguments d =
    let key = cycle_key name arguments in
    if contains d.seen key then (d, true) else (record d { seen = key ∷ d.seen }, false)

pub record TokenBudget : Type 0 where
  pub limit : ℕ
  pub reserve_output : ℕ
  pub consumed : ℕ

abbrev pub new_budget : ℕ → ℕ → TokenBudget
new_budget limit reserve_output = record {
  limit = limit;
  reserve_output = reserve_output;
  consumed = 0;
}

-- `max(0, limit - consumed)`, which is the subtraction of ℕ.
unfoldable pub remaining : TokenBudget → ℕ
remaining b = b.limit - b.consumed

unfoldable pub can_afford : TokenBudget → ℕ → Bool
can_afford b projected_input_tokens =
    leb (b.consumed + projected_input_tokens + b.reserve_output) b.limit

unfoldable pub reconcile : LlmUsage → TokenBudget → TokenBudget
reconcile usage b = record b { consumed = b.consumed + (usage.input_tokens + usage.output_tokens) }
