-- ===== src/Server/Calls.antt =====
-- internal/mcpserver/server.go: the tools of the server and the run of one of them. `World` is
-- whatever the handlers read and change.
pub mod Runs
pub mod Keeps
use go_core_mcp.Prelude.{
  ℕ, ◌||◌, Bool, true, false, not, Option, none, some, List, [], ◌∷◌, Bytes, lit, bytes_eq, leb,
  if◌then◌else◌, length, take,
}
use go_core_mcp.Outcome.{Outcome, ok, err, panic}
use go_core_mcp.Exec.{Exec}
use go_core_mcp.Floats.{Floats}
use go_core_mcp.Json.{Value, Fields, bool, str, obj, end, field}
use go_core_mcp.Schema.{SchemaError}
use go_core_mcp.Protocol.{
  Category, category_text, unknown_tool, invalid_arguments, timeout, tool_error, ToolDefinition,
  CallToolResult,
}
use go_core_mcp.Agent.Payload.{Codec}
use go_core_mcp.Agent.ToolCall.{validate_raw}
use go_core_mcp.Server.{ToolError, Limits}
use go_core_mcp.Server.Workspace.{fail}

-- `payload`; a map that is nil is `none`.
pub record Payload : Type 0 where
  pub output : Bytes
  pub truncated : Bool
  pub metadata : Fields
  pub result : Option Fields

-- What a handler's error is: one of the server's own, that of a deadline, or another.
pub data HandlerError : Type 0 where
  typed : ToolError → HandlerError
  deadline plain : HandlerError

-- `tool`, with its handler.
pub record ServerTool (World : Type 0) : Type 0 where
  pub name : Bytes
  pub description : Bytes
  pub schema : Fields
  pub run : Fields → Exec World HandlerError Payload

-- What json.Unmarshal makes of the parameters of a call: the name and raw arguments.
pub record CallParams : Type 0 where
  pub name : Bytes
  pub arguments : Bytes

-- What json.Unmarshal makes of a line.
pub record Request : Type 0 where
  pub id : Bytes
  pub method : Bytes
  pub params : Bytes

-- The results that are marshalled, but for the fixed ones of `initialize` and `ping`.
pub data Result : Type 0 where
  initialized_result empty_result : Result
  tools_result : List ToolDefinition → Result
  call_result : CallToolResult → Result

-- What the server uses: encoding/json, the floats, the text of a schema error, whether a call's
-- time is over, and whether the server's context is done.
-- The tools are in the order of their names, which differ.
pub record Env (World : Type 0) : Type 0 where
  pub codec : Codec
  pub floats : Floats
  pub limits : Limits
  pub tools : List (ServerTool World)
  pub encode : Fields → Option Bytes
  pub encode_result : Result → Option Bytes
  pub decode_request : Bytes → Option Request
  pub decode_params : Bytes → Option CallParams
  pub schema_message : SchemaError → Bytes
  pub over_time : World → Bool
  pub cancelled : World → Bool

-- `clampResult`
unfoldable pub clamp_result : Bytes → ℕ → Bytes × Bool
clamp_result output limit =
    if leb (length output) limit then (output, false) else (take limit output, true)

-- body["metadata"] = v, on a map that may have the key
put_field : Bytes → Value → Fields → Fields
unfolding bytes_eq
put_field key v end = field key v end
put_field key v (field k u fs) =
    if bytes_eq k key then field k v fs else field k u (put_field key v fs)

with_metadata : Fields → Fields → Fields
unfolding put_field
with_metadata end body = body
with_metadata (field k v fs) body = put_field (lit "metadata") (obj (field k v fs)) body

body_or : Option Fields → Bytes → Bool → Fields
body_or (some body) output truncated = body
body_or none output truncated =
    field (lit "success") (bool true)
      (field (lit "output") (str output) (field (lit "truncated") (bool truncated) end))

module _ {World : Type 0} (env : Env World) where
  -- `encode`
  encoded : Option Bytes → Bytes
  encoded (some text) = text
  encoded none =
      lit "{\"success\":false,\"error\":\"tool_error\",\"message\":\"result could not be encoded\"}"

  -- `errorResult`
  error_result : Category → Bytes → CallToolResult
  unfolding encoded
  error_result category message = record {
    content =
        record {
          kind = lit "text";
          text = encoded (
              env.encode (
                field (lit "success") (bool false) (
                  field (lit "error") (str (category_text category))
                    (field (lit "message") (str message) end))));
        }
        ∷ [];
    is_error = true;
  }

  pub find : Bytes → List (ServerTool World) → Option (ServerTool World)
  unfolding bytes_eq
  find name [] = none
  find name (t ∷ ts) = if bytes_eq t.name name then some t else find name ts

  error_of : HandlerError → ToolError
  error_of (typed e) = e
  error_of deadline = fail timeout (lit "tool exceeded its time budget")
  error_of plain = fail tool_error (lit "tool execution failed")

  -- The result of a failed run; a run that is over its time is reported as such.
  failed : HandlerError → World → CallToolResult
  unfolding error_result error_of
  failed e w =
      let reported = error_of (if env.over_time w then deadline else e) in
      error_result reported.category reported.message

  -- The result of a run that succeeds, its output clamped.
  succeeded : Payload → CallToolResult
  unfolding encoded clamp_result body_or with_metadata
  succeeded p =
      let (output, truncated) = clamp_result p.output env.limits.max_result_bytes in
      record {
        content =
            record {
              kind = lit "text";
              text = encoded (
                  env.encode (
                    with_metadata p.metadata (body_or p.result output (p.truncated || truncated))));
            }
            ∷ [];
        is_error = false;
      }

  pub finish : Outcome HandlerError Payload × World → Outcome SchemaError CallToolResult × World
  unfolding failed succeeded
  finish (ok p, w) = (ok (succeeded p), w)
  finish (err e, w) = (ok (failed e w), w)
  finish (panic, w) = (panic, w)

  run_checked :
      ServerTool World
      → Outcome SchemaError Fields
      → World
      → Outcome SchemaError CallToolResult × World
  unfolding finish error_result
  run_checked t (ok arguments) w = finish (t.run arguments w)
  run_checked t (err e) w = (ok (error_result invalid_arguments (env.schema_message e)), w)
  run_checked t panic w = (panic, w)

  run_found : Option (ServerTool World) → Bytes → World → Outcome SchemaError CallToolResult × World
  unfolding run_checked error_result
  run_found none raw w = (ok (error_result unknown_tool (lit "tool is not available")), w)
  run_found (some t) raw w = run_checked t (validate_raw env.codec env.floats t.schema raw) w

  run_params : Option CallParams → World → Outcome SchemaError CallToolResult × World
  unfolding run_found find error_result
  run_params none w =
      (ok (error_result invalid_arguments (lit "tool call parameters are not a JSON object")), w)
  run_params (some p) w = run_found (find p.name env.tools) p.arguments w

  -- `callTool`: the result, and what the run leaves of the world.
  unfoldable pub call_tool : Bytes → World → Outcome SchemaError CallToolResult × World
  unfolding run_params
  call_tool raw w = run_params (env.decode_params raw) w
