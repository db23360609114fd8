-- ===== src/Mcp/Client.antt =====
-- src/app/mcp_client/client.py. The transport and the session are the MCP SDK's: what they answer is
-- a parameter of each method.
use grounded_ops_agent.Core.Errors.{Error, tool_error, Result, ok, raise}
use grounded_ops_agent.Llm.Adapter.{
  NormalizedToolResult, mcp_tool_to_spec, CallToolResult, normalize_call_result,
}
use grounded_ops_agent.Llm.Types.{Fields, ToolSpec}
use grounded_ops_agent.Prelude.{
  ℕ, ◌+◌, ◌≡◌, refl, Bool, true, false, Option, List, ◌++◌, map, arith, if◌then◌else◌, Text,
}
use grounded_ops_agent.Text.Chars.{codes}

-- `_stack` and `_session`, with the number of the exit stacks that were made and that were closed.
pub record McpClient : Type 0 where
  pub stack : Bool
  pub session : Bool
  pub opened : ℕ
  pub closed : ℕ

abbrev pub new_client : McpClient
new_client = record { stack = false; session = false; opened = 0; closed = 0 }

-- What entering the transport, entering the session and initializing it do.
pub record Connecting : Type 0 where
  pub transport : Result (Unit {0})
  pub open_session : Result (Unit {0})
  pub initialize : Result (Unit {0})

-- The `except` of `__aenter__`: the stack is closed and the exception raised again.
unfoldable pub abort : Error → McpClient → Result (Unit {0}) × McpClient
abort e c = (raise e, record c { stack = false; closed = c.closed + 1 })

-- The steps behind the session that was entered.
abbrev initialized : Result (Unit {0}) → McpClient → Result (Unit {0}) × McpClient
initialized (ok u) c = (ok tt, c)
initialized (raise e) c = abort e c

abbrev session_open : Connecting → Result (Unit {0}) → McpClient → Result (Unit {0}) × McpClient
session_open x (ok u) c = initialized x.initialize (record c { session = true })
session_open x (raise e) c = abort e c

abbrev transport_open : Connecting → Result (Unit {0}) → McpClient → Result (Unit {0}) × McpClient
transport_open x (ok u) c = session_open x x.open_session c
transport_open x (raise e) c = abort e c

-- `__aenter__`
unfoldable pub enter_client : Connecting → McpClient → Result (Unit {0}) × McpClient
unfolding abort
enter_client x c = transport_open x x.transport (record c { stack = true; opened = c.opened + 1 })

-- `__aexit__`
unfoldable pub leave_client : McpClient → McpClient
leave_client c =
    if c.stack then record c { stack = false; session = false; closed = c.closed + 1 } else c

-- A tool of the session: its name, its description and its schema.
pub record McpTool : Type 0 where
  pub name : Text
  pub description : Option Text
  pub input_schema : Option Fields

unfoldable pub client_tools : List McpTool → List ToolSpec
unfolding mcp_tool_to_spec
client_tools tools =
    map (λ (t : McpTool). mcp_tool_to_spec t.name t.description t.input_schema) tools

-- How `wait_for` of the session's call ends.
pub data CallEnd : Type 0 where
  called : CallToolResult → CallEnd
  timed_out : CallEnd
  failed : Error → CallEnd

-- `timeout` is the text that Python prints for it.
unfoldable pub client_call_tool :
    (name : Text) (timeout : Text) → CallEnd → Result NormalizedToolResult
unfolding normalize_call_result
client_call_tool name timeout (called r) = ok (normalize_call_result r)
client_call_tool name timeout timed_out =
    raise
      (tool_error (codes "tool '" ++ name ++ codes "' timed out after " ++ timeout ++ codes "s"))
client_call_tool name timeout (failed e) = raise e

-- Every exit stack that was made is closed exactly once, however the connection fails.
pub leave_client-closed :
    (x : Connecting) (c : McpClient)
    → c.stack ≡ false
    → c.opened ≡ c.closed
    → let c' = leave_client (enter_client x c).1 in
      (c'.stack ≡ false) × (c'.opened ≡ c'.closed) × (c'.opened ≡ c.opened + 1)
unfolding leave_client enter_client abort
leave_client-closed x c none_ same = left x.transport x.open_session x.initialize
  where
    left :
        (t s i : Result (Unit {0}))
        → let c' =
            leave_client
              (transport_open
                (record { transport = t; open_session = s; initialize = i })
                t
                (record c { stack = true; opened = c.opened + 1 })).1 in
          (c'.stack ≡ false) × (c'.opened ≡ c'.closed) × (c'.opened ≡ c.opened + 1)
    left (raise e) s i = (refl, omega arith, refl)
    left (ok u) (raise e) i = (refl, omega arith, refl)
    left (ok u) (ok v) (raise e) = (refl, omega arith, refl)
    left (ok u) (ok v) (ok w) = (refl, omega arith, refl)
