-- ===== src/Core/Pricing.antt =====
-- src/app/core/pricing.py. The table of `config/pricing.json` and the float operations are
-- parameters.
use grounded_ops_agent.Prelude.{ℕ, Option, none, some, List, nat_eq, Text, text_eq}
use grounded_ops_agent.Prelude.Dict.{lookup}
use grounded_ops_agent.Prelude.Float.{Float, FloatOps}

pub record ModelPrice : Type 0 where
  pub input : Float
  pub output : Float
  pub kind : Text

abbrev pub Prices : Type 0
Prices = List (Text × ModelPrice)

unfoldable pub model_pricing : Prices → Text → Option ModelPrice
model_pricing prices model = lookup model prices

unfoldable pub cost_usd : FloatOps → Prices → Text → ℕ → ℕ → Float
unfolding model_pricing
cost_usd f prices model input_tokens output_tokens = elim (lookup model prices) [
  | none ↦ f.of_ℕ 0
  | some price ↦
      f.add (f.mul (f.div (f.of_ℕ input_tokens) (f.of_ℕ 1_000_000)) price.input)
        (f.mul (f.div (f.of_ℕ output_tokens) (f.of_ℕ 1_000_000)) price.output)
]
