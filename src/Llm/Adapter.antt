-- ===== src/Llm/Adapter.antt =====
-- src/app/tools/adapter.py and `MCPToolExecutor` of src/app/agent/tool_executor.py.
use grounded_ops_agent.Agent.Events.{ToolOutcome}
use grounded_ops_agent.Llm.Types.{Json, string, obj, Fields, no_fields, field, ToolSpec}
use grounded_ops_agent.Prelude.{Bool, Option, none, some, List, [], ◌∷◌, Text}
use grounded_ops_agent.Text.Chars.{codes}
use grounded_ops_agent.Text.Words.{join}

pub record NormalizedToolResult : Type 0 where
  pub text : Text
  pub structured : Json
  pub is_error : Bool

abbrev pub empty_schema : Fields
empty_schema =
    field (codes "type") (string (codes "object"))
      (field (codes "properties") (obj no_fields) no_fields)

-- `input_schema or dict(_EMPTY_SCHEMA)`
abbrev pub schema_or_empty : Option Fields → Fields
schema_or_empty none = empty_schema
schema_or_empty (some no_fields) = empty_schema
schema_or_empty (some (field k v fs)) = field k v fs

unfoldable pub mcp_tool_to_spec : Text → Option Text → Option Fields → ToolSpec
mcp_tool_to_spec name description input_schema = record {
  name = name;
  description = elim description [ none ↦ [] | some d ↦ d ];
  input_schema = schema_or_empty input_schema;
}

unfoldable pub spec_to_openai : ToolSpec → Fields
spec_to_openai spec = field (codes "type") (string (codes "function")) (
    field (codes "function")
      (obj (
        field (codes "name") (string spec.name) (
          field (codes "description") (string spec.description)
            (field (codes "parameters") (obj spec.input_schema) no_fields))))
      no_fields)

unfoldable pub spec_to_anthropic : ToolSpec → Fields
spec_to_anthropic spec = field (codes "name") (string spec.name) (
    field (codes "description") (string spec.description)
      (field (codes "input_schema") (obj spec.input_schema) no_fields))

-- A `CallToolResult`: of each content block, its text if it has one.
pub record CallToolResult : Type 0 where
  pub content : List (Option Text)
  pub structured_content : Json
  pub result_error : Bool

unfoldable pub block_texts : List (Option Text) → List Text
block_texts [] = []
block_texts (none ∷ bs) = block_texts bs
block_texts (some t ∷ bs) = t ∷ block_texts bs

unfoldable pub normalize_call_result : CallToolResult → NormalizedToolResult
unfolding block_texts
normalize_call_result r = record {
  text = join (codes "\n") (block_texts r.content);
  structured = r.structured_content;
  is_error = r.result_error;
}

-- `MCPToolExecutor.call` behind the client.
unfoldable pub outcome_of : NormalizedToolResult → ToolOutcome
outcome_of r = record { text = r.text; structured = r.structured; is_error = r.is_error }
