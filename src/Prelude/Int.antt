-- ===== src/Prelude/Int.antt =====
-- Python's `int` where a value may be negative, under the library's names: `negsuc n` is -(n + 1).
use grounded_ops_agent.Prelude.{ℕ}

pub data ℤ : Type 0 where
  pos : ℕ → ℤ
  negsuc : ℕ → ℤ
