-- ===== src/Server/Dispatch.antt =====
-- internal/mcpserver/server.go: the answers to the messages that the server reads. A response stands
-- for what is handed to the writer, whose own failures the code only logs.
pub mod Answers
pub mod Keeps
pub mod Returns
use go_core_mcp.Prelude.{
  ◌||◌, Bool, true, false, not, Option, none, some, List, [], ◌∷◌, ◌++◌, Bytes, lit, bytes_eq, ℕ,
  leb, length, if◌then◌else◌,
}
use go_core_mcp.Prelude.Int.{ℤ, negsuc}
use go_core_mcp.Outcome.{Outcome, ok, err, panic}
use go_core_mcp.Strings.{trim_suffix}
use go_core_mcp.Schema.{SchemaError}
use go_core_mcp.Protocol.{ToolDefinition, CallToolResult}
use go_core_mcp.Server.Calls.{
  Env, Request, Result, ServerTool, initialized_result, empty_result, tools_result, call_result,
  call_tool,
}

pub data Body : Type 0 where
  result : Bytes → Body
  error : ℤ → Bytes → Body

pub record Response : Type 0 where
  pub id : Bytes
  pub body : Body

-- What `Serve` returns: no error, or that of the scanner.
pub data ServeEnd : Type 0 where
  returned line_too_long read_failed : ServeEnd

-- 1<<20, which the line and its newline fit, or the line at the end of the input and one byte more
abbrev max_line_bytes : ℕ
max_line_bytes = 1048576

pub is_too_long : Bytes → Bool
is_too_long line = leb max_line_bytes (length line)

-- What bufio.ScanLines makes of a line.
pub drop_cr : Bytes → Bytes
drop_cr line = trim_suffix line (13 ∷ [])

pub record State (World : Type 0) : Type 0 where
  pub initialized : Bool
  pub world : World
  pub written : List Response

module _ {World : Type 0} (env : Env World) where
  -- `respondError` and `respondResult`: what they hand to the writer.
  pub respond_error : Bytes → ℤ → Bytes → List Response
  respond_error [] code message = record { id = lit "null"; body = error code message } ∷ []
  respond_error (c ∷ id) code message = record { id = c ∷ id; body = error code message } ∷ []

  pub respond_result : Bytes → Result → List Response
  unfolding respond_error
  respond_result [] r = []
  respond_result (c ∷ id) r = elim (env.encode_result r) [
    | some text ↦ record { id = c ∷ id; body = result text } ∷ []
    | none ↦ respond_error (c ∷ id) (negsuc 32602) (lit "result could not be encoded")
  ]

  pub write : List Response → State World → State World
  write responses s = record s { written = s.written ++ responses }

  -- The answer to `tools/call`; a handler that panics ends the server.
  after_call :
      Bytes
      → Outcome SchemaError CallToolResult × World
      → State World
      → Outcome SchemaError (State World)
  unfolding respond_result write
  after_call id (ok r, w) s =
      ok (write (respond_result id (call_result r)) (record s { world = w }))
  after_call id (err e, w) s = err e
  after_call id (panic, w) s = panic

  handle_call : Bytes → Bytes → State World → Outcome SchemaError (State World)
  unfolding after_call
  handle_call [] params s = ok s
  handle_call (c ∷ id) params s = after_call (c ∷ id) (call_tool env params s.world) s

  unsupported : Bytes → State World → Outcome SchemaError (State World)
  unfolding respond_error write
  unsupported [] s = ok s
  unsupported (c ∷ id) s =
      ok (write (respond_error (c ∷ id) (negsuc 32600) (lit "unsupported method")) s)

  -- The definitions of the table, its schemas marshalled; one that is not marshalled is left out.
  pub listed : List (ServerTool World) → List ToolDefinition
  listed [] = []
  listed (t ∷ ts) =
      let rest = listed ts in
      elim (env.encode t.schema) [
        | some schema ↦
            record { name = t.name; description = t.description; input_schema = schema } ∷ rest
        | none ↦ rest
      ]

  -- `dispatch`
  unfoldable pub dispatch : Request → State World → Outcome SchemaError (State World)
  unfolding handle_call unsupported listed respond_result write bytes_eq
  dispatch r s =
      if bytes_eq r.method (lit "initialize")
      then ok (write (respond_result r.id initialized_result) (record s { initialized = true }))
      else if bytes_eq r.method (lit "notifications/initialized")
          || bytes_eq r.method (lit "notifications/cancelled")
      then ok s
      else if bytes_eq r.method (lit "ping")
      then ok (write (respond_result r.id empty_result) s)
      else if bytes_eq r.method (lit "tools/list")
      then ok (write (respond_result r.id (tools_result (listed env.tools))) s)
      else if bytes_eq r.method (lit "tools/call")
      then handle_call r.id r.params s
      else unsupported r.id s

  answer_line : Option Request → State World → Outcome SchemaError (State World)
  unfolding dispatch
  answer_line none s =
      ok (write (respond_error [] (negsuc 32699) (lit "malformed JSON-RPC message")) s)
  answer_line (some r) s = dispatch r s

  serve_line : Bytes → State World → Outcome SchemaError (State World)
  unfolding answer_line
  serve_line [] s = ok s
  serve_line (c ∷ line) s = answer_line (env.decode_request (c ∷ line)) s

  next :
      (State World → Outcome SchemaError (State World × ServeEnd))
      → Outcome SchemaError (State World)
      → Outcome SchemaError (State World × ServeEnd)
  next rest (ok s) = rest s
  next rest (err e) = err e
  next rest panic = panic

  -- `Serve` on the lines of its input, up to the end of the input, which is an error if `failed`, the
  -- first line that does not fit the scanner's buffer, or the first line that it finds the context
  -- done at.
  unfoldable pub serve :
      Bool → List Bytes → State World → Outcome SchemaError (State World × ServeEnd)
  unfolding serve_line next is_too_long drop_cr
  serve failed [] s = ok (s, if failed then read_failed else returned)
  serve failed (line ∷ lines) s = elim (is_too_long line) [
    | true ↦ ok (s, line_too_long)
    | false ↦ elim (env.cancelled s.world) [
      | true ↦ ok (s, returned)
      | false ↦ next (serve failed lines) (serve_line (drop_cr line) s)
    ]
  ]
