-- ===== src/Agent/ToolCall.antt =====
-- internal/agent/toolcall.go: the checks on a tool call that the model asks for, and its run.
pub mod Safe
pub mod Budget
use go_core_mcp.Prelude.{
  ℕ, ◌+◌, Bool, false, not, ◌&&◌, ◌||◌, Option, none, some, List, [], ◌∷◌, ◌++◌, Bytes, lit,
  bytes_eq, mem, ltb, leb, if◌then◌else◌, length,
}
use go_core_mcp.Prelude.Int.{ℤ, pos, ltb_ℤ}
use go_core_mcp.Outcome.{Outcome, ok, err, panic, map_err, reject_if, ◌>>=◌, ◌>>◌}
use go_core_mcp.Floats.{Floats}
use go_core_mcp.Strings.{has_prefix, contains_byte, trim_space}
use go_core_mcp.Strings.Numbers.{itoa}
use go_core_mcp.Strings.Paths.{is_abs, clean, dot_dot, slash}
use go_core_mcp.Json.{Value, Fields, end, field, as_string}
use go_core_mcp.Schema.{SchemaError, not_json_object, validate, to_number}
use go_core_mcp.Protocol.{
  Category, unknown_tool, invalid_arguments, workspace_violation, result_too_large, tool_error,
  ToolDefinition, CallToolResult, result_text,
}
use go_core_mcp.Agent.Messages.{Message, ToolCall}
use go_core_mcp.Agent.Payload.{Codec, error_payload, normalize_result}
use go_core_mcp.Agent.Policy.{max_total_tool_calls, max_result_bytes}

-- The reasons for which a call is rejected, one for each message.
pub data Rejection : Type 0 where
  unsupported_type budget_exhausted not_available no_json_object unusable_schema : Rejection
  invalid : SchemaError → Rejection
  over_limit : Bytes → Rejection
  path_not_string path_empty path_invalid path_absolute path_escapes : Rejection

unfoldable pub category_of : Rejection → Category
category_of budget_exhausted = tool_error
category_of not_available = unknown_tool
category_of unusable_schema = tool_error
category_of path_absolute = workspace_violation
category_of path_escapes = workspace_violation
category_of _ = invalid_arguments

-- jsonschema.ValidateRaw
pub decoded : Codec → Bytes → Outcome SchemaError Fields
decoded codec raw =
    if leb (length (trim_space raw)) 0
    then ok end
    else elim (codec.decode_numbers raw) [ none ↦ err not_json_object | some fs ↦ ok fs ]

unfoldable pub validate_raw : Codec → Floats → Fields → Bytes → Outcome SchemaError Fields
unfolding decoded
validate_raw codec fl schema raw = do
  arguments ← decoded codec raw
  validate fl schema (Value.obj arguments) []
  ok arguments

unfoldable pub requested_limits : List (Bytes × ℕ)
requested_limits =
    (lit "max_bytes", 12288)
    ∷ (lit "lines", 200)
    ∷ (lit "max_matches", 20)
    ∷ (lit "max_results", 200)
    ∷ (lit "max_text_chars", 12288)
    ∷ []

pub limit_for : Bytes → List (Bytes × ℕ) → Option ℕ
unfolding bytes_eq
limit_for key [] = none
limit_for key ((k, n) ∷ limits) = if bytes_eq k key then some n else limit_for key limits

unfoldable pub validate_workspace_path : Bytes → Outcome Rejection (Unit {0})
unfolding bytes_eq
validate_workspace_path path = do
  let trimmed = trim_space path
  reject_if (bytes_eq trimmed []) path_empty
  reject_if (contains_byte trimmed 0) path_invalid
  reject_if (is_abs trimmed || has_prefix trimmed slash) path_absolute
  let cleaned = clean trimmed
  reject_if (bytes_eq cleaned dot_dot || has_prefix cleaned (dot_dot ++ slash)) path_escapes

within : Option ℤ → ℕ → Bool
within none limit = false
within (some n) limit = not (ltb_ℤ (pos limit) n)

check_limit : Floats → Bytes → Value → Outcome Rejection (Unit {0})
unfolding limit_for within
check_limit fl key v = elim (limit_for key requested_limits) [
  | none ↦ ok tt
  | some limit ↦ reject_if (not (within (to_number fl v) limit)) (over_limit key)
]

check_path : Bytes → Option Bytes → Outcome Rejection (Unit {0})
unfolding bytes_eq
check_path tool none = err path_not_string
check_path tool (some path) =
    if bytes_eq tool (lit "basename") || bytes_eq tool (lit "dirname")
    then ok tt
    else validate_workspace_path path

-- The loop over the arguments.
check_arguments : Floats → Bytes → Fields → Outcome Rejection (Unit {0})
unfolding check_limit check_path
check_arguments fl tool end = ok tt
check_arguments fl tool (field key v fs) = do
  check_limit fl key v
  (if bytes_eq key (lit "path") then check_path tool (as_string (some v)) else ok tt)
  check_arguments fl tool fs

unfoldable pub find_tool : Bytes → List (Bytes × ToolDefinition) → Option ToolDefinition
unfolding bytes_eq
find_tool name [] = none
find_tool name ((n, t) ∷ ts) = if bytes_eq n name then some t else find_tool name ts

or_object : Bytes → Bytes
or_object [] = lit "{}"
or_object (c ∷ s) = c ∷ s

or_reject : {A : Type 0} → Option A → Rejection → Outcome Rejection A
or_reject none e = err e
or_reject (some a) e = ok a

-- What the loop uses and does not implement: the codec, the machine's floats, the text of a
-- rejection, and the MCP client of each tool. A call is answered, or the context is done, or the
-- transport has failed; the first argument counts the calls made before.
pub data Reply : Type 0 where
  replied : CallToolResult → Reply
  context_done transport_failed : Reply

pub record Tools : Type 0 where
  pub codec : Codec
  pub floats : Floats
  pub message : Rejection → Bytes
  pub clients : List Bytes
  pub call : ℕ → Bytes → Bytes → Reply

-- The error of `Loop`.
pub data RunError : Type 0 where
  no_client : Bytes → RunError
  run_context_done session_unusable : RunError
  does_not_prune model_failed no_usable_tools : RunError

module _ (tools : Tools) where
  unfoldable pub validate_call :
      ℕ → List (Bytes × ToolDefinition) → ToolCall → Outcome Rejection (Bytes × ToolDefinition)
  unfolding find_tool or_object or_reject check_arguments bytes_eq
  validate_call tool_calls exposed call = do
    reject_if (not (bytes_eq call.kind []) && not (bytes_eq call.kind (lit "function")))
        unsupported_type
    reject_if (leb max_total_tool_calls tool_calls) budget_exhausted
    tool ← or_reject (find_tool call.function.name exposed) not_available
    let raw = or_object (trim_space call.function.arguments)
    reject_if (not (has_prefix raw (lit "{"))) no_json_object
    schema ← or_reject (tools.codec.decode tool.input_schema) unusable_schema
    arguments ← map_err invalid (validate_raw tools.codec tools.floats schema raw)
    check_arguments tools.floats tool.name arguments
    ok (raw, tool)

-- The part of a session that a run changes: its counter, the calls that were sent to MCP clients
-- with their names and arguments, the conversations that were sent to the model, what was printed.
pub record Session : Type 0 where
  pub tool_calls : ℕ
  pub sent : List (Bytes × Bytes)
  pub asked : List (List Message)
  pub printed : List Bytes

abbrev pub new_session : Session
new_session = record { tool_calls = 0; sent = []; asked = []; printed = [] }

tool_message : Bytes → Bytes → Bytes → Message
tool_message id name content = record {
  role = lit "tool";
  content = content;
  tool_calls = [];
  tool_call_id = id;
  name = name;
}

module _ (tools : Tools) where
  rejected : Bytes → Bytes → Category → Bytes → Message
  unfolding tool_message
  rejected id name category message =
      tool_message id name (error_payload tools.codec category message)

  -- The message for a reply, or the error that ends the session.
  answer : Bytes → Bytes → Reply → Outcome RunError Message
  unfolding rejected
  answer id name context_done = err run_context_done
  answer id name transport_failed = err session_unusable
  answer id name (replied r) = ok (
      if ltb max_result_bytes (length (result_text r))
      then rejected id name result_too_large (lit "tool result exceeded the result limit")
      else tool_message id name (normalize_result tools.codec (result_text r) r.is_error))

  -- A validated call: it is counted, and sent if its tool has a client.
  execute : Bytes → Bytes × ToolDefinition → Session → Outcome RunError Message × Session
  unfolding answer
  execute id (raw, tool) s =
      if mem tool.name tools.clients
      then (
        answer id tool.name (tools.call s.tool_calls tool.name raw),
        record s { tool_calls = s.tool_calls + 1; sent = s.sent ++ (tool.name, raw) ∷ [] },
      )
      else (err (no_client tool.name), record s { tool_calls = s.tool_calls + 1 })

  settle :
      Bytes
      → Bytes
      → Outcome Rejection (Bytes × ToolDefinition)
      → Session
      → Outcome RunError Message × Session
  unfolding execute
  settle id name (ok call) s = execute id call s
  settle id name (err e) s = (ok (rejected id name (category_of e) (tools.message e)), s)
  settle id name panic s = (panic, s)

  unfoldable pub run_tool_call :
      List (Bytes × ToolDefinition)
      → ToolCall
      → ℕ
      → ℕ
      → Session
      → Outcome RunError Message × Session
  unfolding settle rejected bytes_eq
  run_tool_call exposed call round index s =
      let id = trim_space call.id in
      if bytes_eq id []
      then (
        ok (
            rejected (lit "call_" ++ (itoa round ++ (lit "_" ++ itoa index))) call.function.name
              invalid_arguments (lit "tool call is missing an id")),
        s,
      )
      else settle id call.function.name (validate_call tools s.tool_calls exposed call) s
