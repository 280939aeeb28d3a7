-- ===== src/Server/Http.antt =====
-- internal/mcpserver/http.go: the HTTP transport. A call of the handler is one step; net/http may run
-- several at once, which then interleave only where they reach the server's state.
pub mod Guard
use go_core_mcp.Prelude.{
  ℕ, suc, ◌+◌, Bool, true, false, not, ◌||◌, Option, none, some, List, [], ◌∷◌, ◌++◌, map, Bytes,
  lit, bytes_eq, ltb, leb, if◌then◌else◌, length, take, drop,
}
use go_core_mcp.Prelude.Int.{negsuc}
use go_core_mcp.Outcome.{Outcome, ok, err, panic}
use go_core_mcp.Strings.{has_prefix, trim_space}
use go_core_mcp.Strings.Paths.{slash}
use go_core_mcp.Schema.{SchemaError}
use go_core_mcp.Server.Calls.{Env, Request}
use go_core_mcp.Server.Dispatch.{State, Response, respond_error, dispatch}

-- `HTTPOptions`
pub record HttpOptions : Type 0 where
  pub path : Bytes
  pub bearer_token : Bytes

-- 1 << 20
abbrev pub max_http_request_bytes : ℕ
max_http_request_bytes = 1048576

-- What the handler looks at in a request; a header that is absent is empty, and a body that cannot be
-- read up to the limit is `none`.
pub record HttpRequest : Type 0 where
  pub method : Bytes
  pub authorization : Bytes
  pub content_type : Bytes
  pub body : Option Bytes

-- The answer: a status with a text, status 202 without a body, or status 200 with what was written.
pub data Answer : Type 0 where
  refused : ℕ → Bytes → Answer
  accepted : Answer
  answered : List Response → Answer

-- `normalizeHTTPPath`
unfoldable pub normalize_http_path : Bytes → Bytes
normalize_http_path [] = lit "/mcp"
normalize_http_path (c ∷ path) =
    if has_prefix (c ∷ path) slash then c ∷ path else slash ++ (c ∷ path)

fold_byte : ℕ → ℕ
fold_byte c = if leb 65 c then (if leb c 90 then c + 32 else c) else c

-- strings.EqualFold with a text that folds, as "Bearer " does, with ASCII letters only.
unfoldable pub equal_fold : Bytes → Bytes → Bool
unfolding bytes_eq fold_byte
equal_fold s t = bytes_eq (map fold_byte s) (map fold_byte t)

-- `authorized`
unfoldable pub authorized : Bytes → Bytes → Bool
unfolding bytes_eq
authorized header [] = true
authorized header (c ∷ token) =
    if leb (length header) 7 || not (equal_fold (take 7 header) (lit "Bearer "))
    then false
    else bytes_eq (drop 7 header) (c ∷ token)

written_answer : List Response → Answer
written_answer [] = accepted
written_answer (r ∷ rs) = answered (r ∷ rs)

-- mime.ParseMediaType, of which the handler uses the type
module _ {World : Type 0} (env : Env World) (media_type : Bytes → Option Bytes) where
  after_dispatch :
      State World → Outcome SchemaError (State World) → Outcome SchemaError (Answer × State World)
  unfolding written_answer
  after_dispatch s (ok t) = ok (written_answer t.written, record t { written = s.written })
  after_dispatch s (err e) = err e
  after_dispatch s panic = panic

  pub answer_message : Option Request → State World → Outcome SchemaError (Answer × State World)
  unfolding after_dispatch dispatch
  answer_message none s =
      ok (answered (respond_error env [] (negsuc 32699) (lit "malformed JSON-RPC message")), s)
  answer_message (some r) s = after_dispatch s (dispatch env r (record s { written = [] }))

  answer_trimmed : Bytes → State World → Outcome SchemaError (Answer × State World)
  unfolding answer_message bytes_eq
  answer_trimmed trimmed s =
      if bytes_eq trimmed []
      then ok (refused 400 (lit "empty JSON-RPC message"), s)
      else if has_prefix trimmed (lit "[")
      then ok (refused 400 (lit "batched JSON-RPC requests are not supported"), s)
      else answer_message (env.decode_request trimmed) s

  answer_body : Option Bytes → State World → Outcome SchemaError (Answer × State World)
  unfolding answer_trimmed
  answer_body none s = ok (refused 400 (lit "failed to read request body"), s)
  answer_body (some content) s =
      let body = take (suc max_http_request_bytes) content in
      if ltb max_http_request_bytes (length body)
      then ok (refused 413 (lit "request body too large"), s)
      else answer_trimmed (trim_space body) s

  is_json : Option Bytes → Bool
  unfolding bytes_eq
  is_json none = false
  is_json (some t) = bytes_eq t (lit "application/json")

  -- `handleHTTPPost`
  unfoldable pub handle_http_post :
      HttpRequest → State World → Outcome SchemaError (Answer × State World)
  unfolding answer_body is_json
  handle_http_post r s =
      if not (is_json (media_type r.content_type))
      then ok (refused 415 (lit "Content-Type must be application/json"), s)
      else answer_body r.body s

  -- `handleHTTP`
  unfoldable pub handle_http :
      HttpOptions → HttpRequest → State World → Outcome SchemaError (Answer × State World)
  unfolding handle_http_post authorized bytes_eq
  handle_http options r s =
      if not (authorized r.authorization options.bearer_token)
      then ok (refused 401 (lit "missing or invalid bearer token"), s)
      else if bytes_eq r.method (lit "POST")
      then handle_http_post r s
      else ok (refused 405 (lit "method not allowed"), s)
