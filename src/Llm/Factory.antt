-- ===== src/Llm/Factory.antt =====
-- src/app/llm/factory.py.
pub mod Consistent
use grounded_ops_agent.Core.Errors.{config_error, Result, ok, raise}
use grounded_ops_agent.Core.Settings.{anthropic, openai, fake, Settings}
use grounded_ops_agent.Llm.Anthropic.{nonempty_text}
use grounded_ops_agent.Prelude.{Bool, none, some, Text}
use grounded_ops_agent.Text.Chars.{codes}

pub data ProviderChoice : Type 0 where
  anthropic_provider : (model api_key : Text) (thinking : Bool) → ProviderChoice
  openai_provider : (model api_key : Text) → ProviderChoice
  echo_provider : ProviderChoice

unfoldable pub get_llm_provider : Settings → Result ProviderChoice
get_llm_provider s = elim s.llm_provider [
  | anthropic ↦ elim (nonempty_text s.anthropic_api_key) [
    | none ↦
        raise (config_error (codes "ANTHROPIC_API_KEY is required for the Anthropic provider."))
    | some key ↦ ok (anthropic_provider s.llm_model key s.llm_thinking)
  ]
  | openai ↦ elim (nonempty_text s.openai_api_key) [
    | none ↦ raise (config_error (codes "OPENAI_API_KEY is required for the OpenAI provider."))
    | some key ↦ ok (openai_provider s.llm_model key)
  ]
  | fake ↦ ok echo_provider
]
