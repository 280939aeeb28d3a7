-- ===== src/Server/Dispatch/Keeps.antt =====
-- What every handler keeps, a whole session keeps.
use mathlib.Core.Path.{subst}
use go_core_mcp.Prelude.{
  Bool, ◌≡◌, refl, true, false, inl, inr, Bool-cases, Option, none, some, List, [], ◌∷◌, Bytes, lit,
  bytes_eq, All, if◌then◌else◌, ◌||◌,
}
use go_core_mcp.Outcome.{ok_inj, Outcome, ok, err, panic}
use go_core_mcp.Schema.{SchemaError}
use go_core_mcp.Protocol.{CallToolResult}
use go_core_mcp.Server.Calls.{
  Env, Request, call_tool, initialized_result, empty_result, tools_result,
}
use go_core_mcp.Server.Calls.Keeps.{Keeping, call_tool-keeps}
use go_core_mcp.Server.Dispatch.{
  ServeEnd, is_too_long, drop_cr, State, handle_call, after_call, unsupported, write,
  respond_result, listed, dispatch, answer_line, serve_line, serve, next,
}

module _ {World : Type 0} (env : Env World) (P : World → Type 0)
    (keeping : All (Keeping env P) env.tools) where
  after_call-keeps :
      (id : Bytes) (r : Outcome SchemaError CallToolResult) (w : World) (s : State World)
      {t : State World}
      → P w
      → after_call env id (r, w) s ≡ ok t
      → P t.world
  unfolding after_call write
  after_call-keeps id (ok r) w s h e = subst (λ u. P u.world) (ok_inj e) h
  after_call-keeps id (err x) w s h e = cc
  after_call-keeps id panic w s h e = cc

  handle_call-keeps :
      (id params : Bytes) (s : State World) {t : State World}
      → P s.world
      → handle_call env id params s ≡ ok t
      → P t.world
  unfolding handle_call
  handle_call-keeps [] params s h e = subst (λ u. P u.world) (ok_inj e) h
  handle_call-keeps (c ∷ id) params s h e =
      after_call-keeps (c ∷ id) (call_tool env params s.world).0 (call_tool env params s.world).1 s
        (call_tool-keeps env P keeping params s.world h) e

  unsupported-keeps :
      (id : Bytes) (s : State World) {t : State World}
      → P s.world
      → unsupported env id s ≡ ok t
      → P t.world
  unfolding unsupported write
  unsupported-keeps [] s h e = subst (λ u. P u.world) (ok_inj e) h
  unsupported-keeps (c ∷ id) s h e = subst (λ u. P u.world) (ok_inj e) h

  if-keeps :
      (b : Bool) (x y : Outcome SchemaError (State World)) {t : State World}
      → (x ≡ ok t → P t.world)
      → (y ≡ ok t → P t.world)
      → (if b then x else y) ≡ ok t
      → P t.world
  if-keeps true x y hx hy = hx
  if-keeps false x y hx hy = hy

  pub dispatch-keeps :
      (r : Request) (s : State World) {t : State World}
      → P s.world
      → dispatch env r s ≡ ok t
      → P t.world
  unfolding dispatch write
  dispatch-keeps r s h =
      if-keeps (bytes_eq r.method (lit "initialize"))
        (ok (
          write env (respond_result env r.id initialized_result) (record s { initialized = true })))
        _ (λ e. subst (λ u. P u.world) (ok_inj e) h)
        (if-keeps
          (bytes_eq r.method (lit "notifications/initialized")
            || bytes_eq r.method (lit "notifications/cancelled"))
          (ok s) _ (λ e. subst (λ u. P u.world) (ok_inj e) h)
          (if-keeps (bytes_eq r.method (lit "ping"))
            (ok (write env (respond_result env r.id empty_result) s)) _
            (λ e. subst (λ u. P u.world) (ok_inj e) h)
            (if-keeps (bytes_eq r.method (lit "tools/list"))
              (ok (write env (respond_result env r.id (tools_result (listed env env.tools))) s)) _
              (λ e. subst (λ u. P u.world) (ok_inj e) h)
              (if-keeps (bytes_eq r.method (lit "tools/call")) (handle_call env r.id r.params s) _
                (handle_call-keeps r.id r.params s h) (unsupported-keeps r.id s h)))))

  answer_line-keeps :
      (r : Option Request) (s : State World) {t : State World}
      → P s.world
      → answer_line env r s ≡ ok t
      → P t.world
  unfolding answer_line write
  answer_line-keeps none s h e = subst (λ u. P u.world) (ok_inj e) h
  answer_line-keeps (some r) s h e = dispatch-keeps r s h e

  serve_line-keeps :
      (line : Bytes) (s : State World) {t : State World}
      → P s.world
      → serve_line env line s ≡ ok t
      → P t.world
  unfolding serve_line
  serve_line-keeps [] s h e = subst (λ u. P u.world) (ok_inj e) h
  serve_line-keeps (c ∷ line) s h e = answer_line-keeps (env.decode_request (c ∷ line)) s h e

  next-eq-ok :
      (rest : State World → Outcome SchemaError (State World × ServeEnd))
      (r : Outcome SchemaError (State World)) {t : State World × ServeEnd}
      → next env rest r ≡ ok t
      → (u : State World) × (r ≡ ok u) × (rest u ≡ ok t)
  unfolding next
  next-eq-ok rest (ok u) e = (u, refl, e)
  next-eq-ok rest (err x) e = cc
  next-eq-ok rest panic e = cc

  -- Whatever lines a server reads, what its handlers keep holds when it ends.
  pub serve-keeps :
      (failed : Bool) (lines : List Bytes) (s : State World) {t : State World × ServeEnd}
      → P s.world
      → serve env failed lines s ≡ ok t
      → P t.0.world
  unfolding serve
  serve-keeps failed [] s h e = subst (λ u. P u.0.world) (ok_inj e) h
  serve-keeps failed (line ∷ lines) s h e = elim (Bool-cases (is_too_long line)) [
    | inl long ↦ subst (λ u. P u.0.world) (ok_inj (rw (serve, long) at e)) h
    | inr short ↦ elim (Bool-cases (env.cancelled s.world)) [
      | inl stop ↦ subst (λ u. P u.0.world) (ok_inj (rw (serve, short, stop) at e)) h
      | inr go ↦
          let (u, f, g) =
            next-eq-ok (serve env failed lines) (serve_line env (drop_cr line) s)
              (rw (serve, short, go) at e) in
          serve-keeps failed lines u (serve_line-keeps (drop_cr line) s h f) g
    ]
  ]
