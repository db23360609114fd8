-- ===== src/Prelude/Float.antt =====
-- A Python `float`, as its bit pattern. No operation on it is defined here: the arithmetic and the
-- order that a component uses are parameters of that component.
use grounded_ops_agent.Prelude.{ℕ, Bool}

pub record Float : Type 0 where
  pub bits : ℕ

abbrev pub zero_float : Float
zero_float = record { bits = 0 }

-- The float operations of the language that the program uses.
pub record FloatOps : Type 0 where
  pub of_ℕ : ℕ → Float
  pub add : Float → Float → Float
  pub sub : Float → Float → Float
  pub mul : Float → Float → Float
  pub div : Float → Float → Float
  -- `a < b`
  pub lt : Float → Float → Bool
  -- `round(x, digits)`
  pub round : Float → ℕ → Float
