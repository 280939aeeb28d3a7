-- ===== src/Client.antt =====
-- internal/mcpclient/client.go: the MCP client. What its `select` picks, the messages of the reading
-- goroutine and the ends, is the list of the events to come, in any order: the goroutine's channels
-- are not ordered among each other.
pub mod Waiting
pub mod Catalog
use go_core_mcp.Prelude.{
  ℕ, zero, suc, ◌+◌, Bool, not, ◌||◌, Option, none, some, List, [], ◌∷◌, ◌++◌, map, Bytes, lit,
  bytes_eq, mem, if◌then◌else◌,
}
use go_core_mcp.Outcome.{Outcome, ok, err, panic, reject_if}
use go_core_mcp.Exec.{Exec, pure, raise, lift, ◌>>=◌, ◌>>◌}
use go_core_mcp.Strings.Numbers.{itoa}
use go_core_mcp.Protocol.{ToolDefinition, CallToolResult}

-- A message that was read, of which the client looks at these parts.
pub record Incoming : Type 0 where
  pub id : Bytes
  pub error : Option Bytes
  pub result : Bytes

-- A message to be written; one without an id is a notification.
pub record Outgoing : Type 0 where
  pub id : Bytes
  pub method : Bytes
  pub params : Bytes

pub data Event : Type 0 where
  -- the context is done; the reading goroutine has ended with an error; its messages are closed
  done broken closed : Event
  arrived : Incoming → Event

pub data ClientError : Type 0 where
  not_encoded not_written cancelled transport_broken transport_closed not_decoded : ClientError
  remote : Bytes → ClientError
  no_tools : ClientError
  malformed_tool malformed_schema duplicate_tool : Bytes → ClientError
  too_many_pages : ClientError
  -- the call has not returned: there were no more events, or its write blocks
  waiting : ClientError

-- `InitializeResult`, of which the client looks at one part: whether tools are advertised.
pub record Initialized : Type 0 where
  pub advertises_tools : Bool

pub record ToolsPage : Type 0 where
  pub tools : List ToolDefinition
  pub next_cursor : Bytes

-- The client's state that matters to a call, and what was written to the server.
pub record Link : Type 0 where
  pub next_id : ℕ
  pub sent : List Outgoing
  pub events : List Event

-- What a write to the pipe to the server does; one that blocks, on a full pipe, does not look at the
-- context.
pub data Writing : Type 0 where
  taken refused blocked : Writing

-- encoding/json on the texts and the structures of the client, and the pipe to the server, for a
-- message after those that it took.
pub record Wire : Type 0 where
  pub marshal_id : Bytes → Option Bytes
  pub encodes : Outgoing → Bool
  pub takes : List Outgoing → Outgoing → Writing
  pub initialize_params : Bytes
  pub no_params : Bytes
  pub list_params : Bytes → Bytes
  pub call_params : Bytes → Bytes → Bytes
  pub decode_initialized : Bytes → Option Initialized
  pub decode_page : Bytes → Option ToolsPage
  pub decode_call_result : Bytes → Option CallToolResult
  pub is_schema : Bytes → Bool

abbrev pub Run : Type 0 → Type 0
Run A = Exec Link ClientError A

-- The end of the reading goroutine: a line that is no message, an error of the scanner, or the end.
pub data ReadEnd : Type 0 where
  malformed_line scanner_failed end_of_input : ReadEnd

-- `readLoop`: the messages that it hands on, and its error
unfoldable pub read_loop : (Bytes → Option Incoming) → Bool → List Bytes → List Incoming × ReadEnd
read_loop decode failed [] = ([], if failed then scanner_failed else end_of_input)
read_loop decode failed ([] ∷ lines) = read_loop decode failed lines
read_loop decode failed ((c ∷ line) ∷ lines) =
    let (messages, last) = read_loop decode failed lines in
    elim (decode (c ∷ line)) [ none ↦ ([], malformed_line) | some m ↦ (m ∷ messages, last) ]

-- The result of a response.
answer : {A : Type 0} → (Bytes → Option A) → Incoming → Outcome ClientError A
answer decode m = elim m.error [
  | some message ↦ err (remote message)
  | none ↦ elim (decode m.result) [ none ↦ err not_decoded | some a ↦ ok a ]
]

-- A notification, or the response to another request.
pub unrelated : Bytes → Incoming → Bool
unfolding bytes_eq
unrelated id m = bytes_eq m.id [] || not (bytes_eq m.id id)

-- The loop of `call`.
unfoldable pub await :
    {A : Type 0} → (Bytes → Option A) → Bytes → List Event → Outcome ClientError A × List Event
unfolding answer unrelated
await decode id [] = (err waiting, [])
await decode id (done ∷ events) = (err cancelled, events)
await decode id (broken ∷ events) = (err transport_broken, events)
await decode id (closed ∷ events) = (err transport_closed, events)
await decode id (arrived m ∷ events) =
    let rest = await decode id events in if unrelated id m then rest else (answer decode m, events)

module _ (wire : Wire) where
  written : Outgoing → Link → Writing → Outcome ClientError (Unit {0}) × Link
  written m link taken = (ok tt, record link { sent = link.sent ++ m ∷ [] })
  written m link refused = (err not_written, link)
  written m link blocked = (err waiting, link)

  -- `write`
  unfoldable pub write : Outgoing → Run (Unit {0})
  unfolding written
  write m link =
      if not (wire.encodes m)
      then (err not_encoded, link)
      else written m link (wire.takes link.sent m)

  -- c.nextID++
  unfoldable pub take_id : Run ℕ
  take_id link = (ok (link.next_id + 1), record link { next_id = link.next_id + 1 })

  unfoldable pub receive : {A : Type 0} → (Bytes → Option A) → Bytes → Run A
  unfolding await
  receive decode id link =
      let (r, events) = await decode id link.events in (r, record link { events = events })

  encoded_id : Option Bytes → Outcome ClientError Bytes
  encoded_id none = err not_encoded
  encoded_id (some id) = ok id

  -- `call`; the lock makes each call whole.
  unfoldable pub call : {A : Type 0} → (Bytes → Option A) → Bytes → Bytes → Run A
  unfolding encoded_id
  call decode method params = do
    n ← take_id
    id ← lift (encoded_id (wire.marshal_id (itoa n)))
    write (record { id = id; method = method; params = params })
    receive decode id

  -- `notify`
  unfoldable pub notify : Bytes → Bytes → Run (Unit {0})
  notify method params = write (record { id = []; method = method; params = params })

  -- `Initialize`
  unfoldable pub initialize : Run Initialized
  initialize = do
    result ← call wire.decode_initialized (lit "initialize") wire.initialize_params
    lift (reject_if (not result.advertises_tools) no_tools)
    notify (lit "notifications/initialized") wire.no_params
    pure result

  -- The checks on one tool of a page, given the names that were seen.
  admit : ToolDefinition → List Bytes → Outcome ClientError (Unit {0})
  unfolding bytes_eq mem
  admit t seen =
      if bytes_eq t.name [] || bytes_eq t.input_schema []
      then err (malformed_tool t.name)
      else if not (wire.is_schema t.input_schema)
      then err (malformed_schema t.name)
      else if mem t.name seen
      then err (duplicate_tool t.name)
      else ok tt

  -- The loop over the tools of a page; the keys of `seen` are the names of the tools so far.
  unfoldable pub add_tools :
      List ToolDefinition → List ToolDefinition → Outcome ClientError (List ToolDefinition)
  unfolding admit
  add_tools [] tools = ok tools
  add_tools (t ∷ ts) tools =
      let rest = add_tools ts (tools ++ t ∷ []) in
      elim (admit t (map (λ u. u.name) tools)) [ ok u ↦ rest | err e ↦ err e | panic ↦ panic ]

  -- An empty cursor is that of the last page.
  pub go_on :
      (Bytes → List ToolDefinition → Run (List ToolDefinition))
      → Bytes
      → List ToolDefinition
      → Run (List ToolDefinition)
  go_on rest [] tools = pure tools
  go_on rest (c ∷ cs) tools = rest (c ∷ cs) tools

  -- The loop over the pages, of which at most `pages` more are read.
  unfoldable pub list_pages : ℕ → Bytes → List ToolDefinition → Run (List ToolDefinition)
  unfolding go_on
  list_pages zero cursor tools = raise too_many_pages
  list_pages (suc pages) cursor tools = do
    page ← call wire.decode_page (lit "tools/list") (wire.list_params cursor)
    more ← lift (add_tools page.tools tools)
    go_on (λ c ts. list_pages pages c ts) page.next_cursor more

  -- `ListTools`
  unfoldable pub list_tools : Run (List ToolDefinition)
  unfolding list_pages
  list_tools = list_pages 10 [] []

  -- `CallTool`
  unfoldable pub call_tool : Bytes → Bytes → Run CallToolResult
  call_tool name arguments =
      call wire.decode_call_result (lit "tools/call") (wire.call_params name arguments)
