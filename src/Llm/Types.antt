-- ===== src/Llm/Types.antt =====
-- src/app/llm/types.py. The values of a `dict[str, Any]` from JSON are `Json`.
use grounded_ops_agent.Prelude.{ℕ, ◌+◌, Bool, false, Option, none, some, List, [], Text}
use grounded_ops_agent.Prelude.Int.{ℤ}

mutual
  -- `json.loads` gives one of these; `floating` holds the text that Python prints for the number.
  pub data Json : Type 0 where
    null : Json
    bool : Bool → Json
    integer : ℤ → Json
    floating : Text → Json
    string : Text → Json
    arr : Items → Json
    obj : Fields → Json

  pub data Items : Type 0 where
    nil : Items
    cons : Json → Items → Items

  -- A dict in insertion order.
  pub data Fields : Type 0 where
    no_fields : Fields
    field : Text → Json → Fields → Fields

pub data Role : Type 0 where
  user assistant tool : Role

pub record ToolCall : Type 0 where
  pub id : Text
  pub name : Text
  pub arguments : Fields

pub record ToolSpec : Type 0 where
  pub name : Text
  pub description : Text
  pub input_schema : Fields

pub record LlmMessage : Type 0 where
  pub role : Role
  pub content : Option Text
  pub tool_calls : List ToolCall
  pub tool_call_id : Option Text
  pub is_error : Bool

unfoldable pub user_message : Text → LlmMessage
user_message text = record {
  role = user;
  content = some text;
  tool_calls = [];
  tool_call_id = none;
  is_error = false;
}

unfoldable pub tool_result_message : Text → Text → Bool → LlmMessage
tool_result_message tool_call_id content is_error = record {
  role = tool;
  content = some content;
  tool_calls = [];
  tool_call_id = some tool_call_id;
  is_error = is_error;
}

pub record LlmUsage : Type 0 where
  pub input_tokens : ℕ
  pub output_tokens : ℕ

abbrev pub no_usage : LlmUsage
no_usage = record { input_tokens = 0; output_tokens = 0 }

unfoldable pub add_usage : LlmUsage → LlmUsage → LlmUsage
add_usage a b = record {
  input_tokens = a.input_tokens + b.input_tokens;
  output_tokens = a.output_tokens + b.output_tokens;
}

pub record LlmResponse : Type 0 where
  pub text : Text
  pub tool_calls : List ToolCall
  pub usage : LlmUsage
  pub stop_reason : Text
  pub model : Text
