-- ===== src/Llm/Anthropic.antt =====
-- src/app/llm/anthropic_provider.py: the request and the reading of the response. The client and
-- what it sends are not modelled.
pub mod Merged
use grounded_ops_agent.Llm.Types.{
  Fields, user, assistant, tool, ToolCall, ToolSpec, LlmMessage, LlmResponse,
}
use grounded_ops_agent.Prelude.{
  ℕ, Bool, true, false, not, ◌&&◌, ◌||◌, Option, none, some, List, [], ◌∷◌, ◌++◌, map,
  if◌then◌else◌, ◌==◌, Text, nat_eq, text_eq,
}
use grounded_ops_agent.Prelude.Float.{Float}
use grounded_ops_agent.Text.Chars.{codes}

abbrev pub no_sampling_prefixes : List Text
no_sampling_prefixes =
    codes "claude-opus-4-7"
    ∷ codes "claude-opus-4-8"
    ∷ codes "claude-fable"
    ∷ codes "claude-mythos"
    ∷ []

unfoldable pub starts_with_text : (prefix s : Text) → Bool
starts_with_text [] s = true
starts_with_text (p ∷ ps) [] = false
starts_with_text (p ∷ ps) (c ∷ s) = (p == c) && starts_with_text ps s

abbrev pub any_prefix : List Text → Text → Bool
any_prefix [] model = false
any_prefix (p ∷ ps) model = starts_with_text p model || any_prefix ps model

unfoldable pub supports_temperature : Text → Bool
unfolding starts_with_text
supports_temperature model = not (any_prefix no_sampling_prefixes model)

-- A block of a message's content.
pub data Block : Type 0 where
  text_block : Text → Block
  tool_use : (id name : Text) (input : Fields) → Block
  tool_result_block : (tool_use_id : Option Text) (content : Text) (is_error : Bool) → Block

pub data Message : Type 0 where
  user_text : Text → Message
  user_results : List Block → Message
  assistant_blocks : List Block → Message
  assistant_text : Text → Message

-- `m.content or ""`
abbrev pub content_of : LlmMessage → Text
content_of m = elim m.content [ none ↦ [] | some t ↦ t ]

unfoldable pub result_block : LlmMessage → Block
result_block m = tool_result_block m.tool_call_id (content_of m) m.is_error

-- `flush`, on the pending tool results.
unfoldable pub flush : List Block → List Message
flush [] = []
flush (b ∷ bs) = user_results (b ∷ bs) ∷ []

abbrev pub text_blocks : Text → List Block
text_blocks [] = []
text_blocks (c ∷ s) = text_block (c ∷ s) ∷ []

abbrev pub use_of : ToolCall → Block
use_of tc = tool_use tc.id tc.name tc.arguments

abbrev pub blocks_or : List Block → Text → Message
blocks_or [] t = assistant_text t
blocks_or (b ∷ bs) t = assistant_blocks (b ∷ bs)

unfoldable pub assistant_message : LlmMessage → Message
assistant_message m =
    blocks_or (text_blocks (content_of m) ++ map use_of m.tool_calls) (content_of m)

-- The loop; `pending` holds the tool results of the current run.
unfoldable pub to_messages_from : List Block → List LlmMessage → List Message
to_messages_from pending [] = flush pending
to_messages_from pending (m ∷ ms) = elim m.role [
  | tool ↦ to_messages_from (pending ++ result_block m ∷ []) ms
  | user ↦ flush pending ++ user_text (content_of m) ∷ to_messages_from [] ms
  | assistant ↦ flush pending ++ assistant_message m ∷ to_messages_from [] ms
]

unfoldable pub to_messages : List LlmMessage → List Message
unfolding to_messages_from
to_messages ms = to_messages_from [] ms

-- The parameters of a request; a key that is not set is `none`.
pub record Params : Type 0 where
  pub model : Text
  pub messages : List Message
  pub system : Option Text
  pub tools : Option (List ToolSpec)
  pub max_tokens : Option ℕ
  pub adaptive_thinking : Bool
  pub temperature : Option Float

abbrev pub nonempty_text : Option Text → Option Text
nonempty_text none = none
nonempty_text (some []) = none
nonempty_text (some (c ∷ s)) = some (c ∷ s)

unfoldable pub tools_param : Option (List ToolSpec) → Option (List ToolSpec)
tools_param none = none
tools_param (some []) = none
tools_param (some (t ∷ ts)) = some (t ∷ ts)

unfoldable pub base_params :
    (model_name : Text) → List LlmMessage → Option Text → Option (List ToolSpec) → Params
unfolding to_messages tools_param
base_params model_name messages system tools = record {
  model = model_name;
  messages = to_messages messages;
  system = nonempty_text system;
  tools = tools_param tools;
  max_tokens = none;
  adaptive_thinking = false;
  temperature = none;
}

-- What `complete` sends.
unfoldable pub complete_params :
    (model_name : Text) (thinking : Bool)
    → List LlmMessage
    → Option Text
    → Option (List ToolSpec)
    → (max_tokens : ℕ) → Option Float
    → Params
unfolding base_params supports_temperature
complete_params model_name thinking messages system tools max_tokens temperature =
    record (base_params model_name messages system tools) {
      max_tokens = some max_tokens;
      adaptive_thinking = thinking;
      temperature = if supports_temperature model_name then temperature else none;
    }

-- A block of a response.
pub data ResponseBlock : Type 0 where
  response_text : Text → ResponseBlock
  response_tool_use : (id name : Text) (input : Fields) → ResponseBlock
  other_block : ResponseBlock

pub record RawResponse : Type 0 where
  pub content : List ResponseBlock
  pub input_tokens : ℕ
  pub output_tokens : ℕ
  pub stop_reason : Option Text
  pub model : Text

unfoldable pub response_texts : List ResponseBlock → Text
response_texts [] = []
response_texts (response_text t ∷ bs) = t ++ response_texts bs
response_texts (response_tool_use i n a ∷ bs) = response_texts bs
response_texts (other_block ∷ bs) = response_texts bs

unfoldable pub response_calls : List ResponseBlock → List ToolCall
response_calls [] = []
response_calls (response_text t ∷ bs) = response_calls bs
response_calls (response_tool_use i n a ∷ bs) =
    record { id = i; name = n; arguments = a } ∷ response_calls bs
response_calls (other_block ∷ bs) = response_calls bs

-- What `complete` makes of the response.
unfoldable pub read_response : RawResponse → LlmResponse
unfolding response_texts response_calls
read_response r = record {
  text = response_texts r.content;
  tool_calls = response_calls r.content;
  usage = record { input_tokens = r.input_tokens; output_tokens = r.output_tokens };
  stop_reason = elim (nonempty_text r.stop_reason) [ none ↦ codes "end_turn" | some s ↦ s ];
  model = r.model;
}
