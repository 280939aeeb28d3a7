-- ===== src/Server/Dispatch/Returns.antt =====
-- internal/mcpserver/server.go: that the server comes to the end of its input.
use go_core_mcp.Prelude.{
  Bool, if◌then◌else◌, ◌≡◌, refl, false, ◌||◌, inl, inr, Option, none, some, List, [], ◌∷◌, Bytes,
  lit, bytes_eq, Bool-cases,
}
use go_core_mcp.Outcome.{Outcome, ok}
use go_core_mcp.Schema.{SchemaError}
use go_core_mcp.Protocol.{CallToolResult}
use go_core_mcp.Server.Calls.{call_tool, Env, Request}
use go_core_mcp.Server.Dispatch.{
  ServeEnd, returned, line_too_long, read_failed, is_too_long, drop_cr, State, after_call,
  handle_call, unsupported, dispatch, answer_line, serve_line, next, serve,
}

-- How `Serve` ends where its context is not done.
abbrev pub end_of : Bool → List Bytes → ServeEnd
end_of failed [] = if failed then read_failed else returned
end_of failed (line ∷ lines) = if is_too_long line then line_too_long else end_of failed lines

module _ {World : Type 0} (env : Env World) where
  -- A call of a tool returns, with a result, and does not panic.
  abbrev pub CallsReturn : Type 0
  CallsReturn =
      (raw : Bytes) (w : World)
      → (r : CallToolResult) × (v : World) × (call_tool env raw w ≡ (ok r, v))

  after_call_returns :
      (id : Bytes) (out : Outcome SchemaError CallToolResult × World) (s : State World)
      → ((r : CallToolResult) × (v : World) × (out ≡ (ok r, v)))
      → (t : State World) × (after_call env id out s ≡ ok t)
  unfolding after_call
  after_call_returns id out s (r, v, e) = rw e (_, refl)

  handle_call_returns :
      CallsReturn
      → (id params : Bytes) (s : State World)
      → (t : State World) × (handle_call env id params s ≡ ok t)
  unfolding handle_call
  handle_call_returns returns [] params s = (s, refl)
  handle_call_returns returns (c ∷ id) params s =
      after_call_returns (c ∷ id) (call_tool env params s.world) s (returns params s.world)

  unsupported_returns :
      (id : Bytes) (s : State World) → (t : State World) × (unsupported env id s ≡ ok t)
  unfolding unsupported
  unsupported_returns [] s = (s, refl)
  unsupported_returns (c ∷ id) s = (_, refl)

  dispatch_returns :
      CallsReturn → (r : Request) (s : State World) → (t : State World) × (dispatch env r s ≡ ok t)
  unfolding dispatch
  dispatch_returns returns r s = elim (Bool-cases (bytes_eq r.method (lit "initialize"))) [
    | inl a ↦ rw (a, dispatch) (_, refl)
    | inr a ↦
        elim (Bool-cases (
          bytes_eq r.method (lit "notifications/initialized")
          || bytes_eq r.method (lit "notifications/cancelled"))) [
            | inl n ↦ rw (a, n, dispatch) (_, refl)
            | inr n ↦ elim (Bool-cases (bytes_eq r.method (lit "ping"))) [
              | inl b ↦ rw (a, n, b, dispatch) (_, refl)
              | inr b ↦ elim (Bool-cases (bytes_eq r.method (lit "tools/list"))) [
                | inl c ↦ rw (a, n, b, c, dispatch) (_, refl)
                | inr c ↦ elim (Bool-cases (bytes_eq r.method (lit "tools/call"))) [
                  | inl k ↦
                      rw (a, n, b, c, k, dispatch) (handle_call_returns returns r.id r.params s)
                  | inr k ↦ rw (a, n, b, c, k, dispatch) (unsupported_returns r.id s)
                ]
              ]
            ]
          ]
  ]

  request_returns :
      CallsReturn
      → (r : Option Request) (s : State World) → (t : State World) × (answer_line env r s ≡ ok t)
  unfolding answer_line
  request_returns returns none s = (_, refl)
  request_returns returns (some r) s = dispatch_returns returns r s

  line_returns :
      CallsReturn
      → (line : Bytes) (s : State World) → (t : State World) × (serve_line env line s ≡ ok t)
  unfolding serve_line
  line_returns returns [] s = (s, refl)
  line_returns returns (c ∷ line) s = request_returns returns (env.decode_request (c ∷ line)) s

  pub serve_returns :
      CallsReturn
      → ((w : World) → env.cancelled w ≡ false)
      → (failed : Bool) (lines : List Bytes) (s : State World)
      → (t : State World) × (serve env failed lines s ≡ ok (t, end_of failed lines))
  unfolding serve
  serve_returns returns running failed [] s = (s, refl)
  serve_returns returns running failed (line ∷ lines) s = elim (Bool-cases (is_too_long line)) [
    | inl long ↦ (s, rw (serve, long) refl)
    | inr short ↦
        let (u, first) = line_returns returns (drop_cr line) s in
        let (t, rest) = serve_returns returns running failed lines u in
        (t, rw (serve, short, running s.world, first) (unfold next in rest))
  ]
