-- ===== src/Llm/OpenAi.antt =====
-- src/app/llm/openai_provider.py: the request, the reading of the response and the token count.
use grounded_ops_agent.Core.Errors.{◌>>=◌}
use grounded_ops_agent.Core.Errors.{Result, ok, traverse}
use grounded_ops_agent.Llm.Anthropic.{nonempty_text, tools_param}
use grounded_ops_agent.Llm.Types.{
  Fields, user, assistant, tool, ToolCall, ToolSpec, LlmMessage, LlmUsage, no_usage, LlmResponse,
}
use grounded_ops_agent.Prelude.{ℕ, ◌+◌, Option, none, some, List, [], ◌∷◌, ◌++◌, map, Text}
use grounded_ops_agent.Text.Chars.{codes}

-- A message of a request; the arguments of a call are JSON text.
pub data ChatMessage : Type 0 where
  system_chat : Text → ChatMessage
  user_chat : Text → ChatMessage
  tool_chat : (tool_call_id : Option Text) (content : Text) → ChatMessage
  assistant_chat : (content : Option Text) (calls : List (Text × Text × Text)) → ChatMessage

abbrev pub text_of : LlmMessage → Text
text_of m = elim m.content [ none ↦ [] | some t ↦ t ]

-- `json.dumps` is a parameter here, without sorted keys.
module _ (json_dumps : Fields → Text) where
  abbrev pub call_chat : ToolCall → Text × Text × Text
  call_chat tc = (tc.id, tc.name, json_dumps tc.arguments)

  unfoldable pub chat_message : LlmMessage → ChatMessage
  chat_message m = elim m.role [
    | user ↦ user_chat (text_of m)
    | tool ↦ tool_chat m.tool_call_id (text_of m)
    | assistant ↦ assistant_chat (nonempty_text m.content) (map call_chat m.tool_calls)
  ]

  unfoldable pub chat_messages : List LlmMessage → Option Text → List ChatMessage
  unfolding chat_message
  chat_messages ms system = elim (nonempty_text system) [
    | none ↦ map chat_message ms
    | some s ↦ system_chat s ∷ map chat_message ms
  ]

  -- `encoded` is the number of tokens of a text.
  module _ (encoded : Text → ℕ) (dump_schemas : List ToolSpec → Text) where
    unfoldable pub call_tokens : List ToolCall → ℕ
    call_tokens [] = 0
    call_tokens (tc ∷ tcs) = encoded (tc.name ++ json_dumps tc.arguments) + call_tokens tcs

    unfoldable pub message_tokens : List LlmMessage → ℕ
    unfolding call_tokens
    message_tokens [] = 0
    message_tokens (m ∷ ms) = encoded (text_of m) + 4 + call_tokens m.tool_calls + message_tokens ms

    unfoldable pub count_tokens :
        List LlmMessage → (system : Option Text) → Option (List ToolSpec) → ℕ
    unfolding message_tokens
    count_tokens ms system tools =
        elim (nonempty_text system) [ none ↦ 0 | some s ↦ encoded s ]
        + message_tokens ms
        + elim (tools_param tools) [ none ↦ 0 | some ts ↦ encoded (dump_schemas ts) ]

-- A response with one choice.
pub record ChatResponse : Type 0 where
  pub content : Option Text
  pub calls : List (Text × Text × Option Text)
  pub chat_usage : Option LlmUsage
  pub finish_reason : Option Text
  pub model : Text

-- `json_loads` raises where the arguments are no JSON object.
module _ (json_loads : Text → Result Fields) where
  unfoldable pub read_call : Text × Text × Option Text → Result ToolCall
  read_call (i, n, a) = do
    arguments ← json_loads (elim (nonempty_text a) [ none ↦ codes "{}" | some t ↦ t ])
    ok (record { id = i; name = n; arguments = arguments })

  unfoldable pub read_chat : ChatResponse → Result LlmResponse
  unfolding read_call
  read_chat r = do
    calls ← traverse read_call r.calls
    ok (record {
      text = elim r.content [ none ↦ [] | some t ↦ t ];
      tool_calls = calls;
      usage = elim r.chat_usage [ none ↦ no_usage | some u ↦ u ];
      stop_reason = elim (nonempty_text r.finish_reason) [ none ↦ codes "stop" | some s ↦ s ];
      model = r.model;
    })
