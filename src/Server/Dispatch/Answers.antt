-- ===== src/Server/Dispatch/Answers.antt =====
-- Which messages of a client are answered, and with which ids.
use go_core_mcp.Prelude.{
  Bool, map-append, ℕ, ◌≡◌, refl, sym, ◌∙◌, ap, true, false, ◌||◌, inl, inr, Option, none, some,
  List, [], ◌∷◌, ◌++◌, map, Bytes, lit, bytes_eq, bytes_eq_iff, if◌then◌else◌, arith, append_assoc,
  append-nil, Bool-cases, Option-cases,
}
use go_core_mcp.Prelude.Int.{negsuc}
use go_core_mcp.Outcome.{Outcome, ok_inj, ok, err, panic}
use go_core_mcp.Schema.{SchemaError}
use go_core_mcp.Protocol.{CallToolResult}
use go_core_mcp.Server.Calls.{Env, Request, Result}
use go_core_mcp.Server.Dispatch.Returns.{CallsReturn, end_of, serve_returns}
use go_core_mcp.Server.Dispatch.{
  ServeEnd, is_too_long, drop_cr, State, listed, Response, respond_error, respond_result, write,
  after_call, handle_call, unsupported, dispatch, answer_line, serve_line, next, serve,
}

-- The ids of the responses that a message is due.
abbrev pub due : Option Request → List Bytes
due none = lit "null" ∷ []
due (some r) =
    if bytes_eq r.method (lit "notifications/initialized")
      || bytes_eq r.method (lit "notifications/cancelled")
    then []
    else if bytes_eq r.id []
    then []
    else r.id ∷ []

module _ {World : Type 0} (env : Env World) where
  abbrev pub due_line : Bytes → List Bytes
  due_line [] = []
  due_line (c ∷ line) = due (env.decode_request (c ∷ line))

  -- The ids that the lines before the first one that is too long are due.
  abbrev pub due_lines : List Bytes → List Bytes
  due_lines [] = []
  due_lines (line ∷ lines) =
      if is_too_long line then [] else due_line (drop_cr line) ++ due_lines lines

  abbrev pub ids : State World → List Bytes
  ids s = map (λ r. r.id) s.written

-- What has no id has the empty one.
abbrev own : Bytes → List Bytes
own id = if bytes_eq id [] then [] else id ∷ []

module _ {World : Type 0} (env : Env World) where
  ids-respond_result :
      (id : Bytes) (r : Result) → map (λ x. x.id) (respond_result env id r) ≡ own id
  unfolding respond_result respond_error bytes_eq
  ids-respond_result [] r = refl
  ids-respond_result (c ∷ id) r = elim (Option-cases (env.encode_result r)) [
    | inl e ↦ rw (e, map) refl
    | inr (t, e) ↦ rw (e, map) refl
  ]

  ids-write :
      (rs : List Response) (s : State World)
      → ids env (write env rs s) ≡ ids env s ++ map (λ x. x.id) rs
  unfolding write
  ids-write rs s = map-append _ s.written rs

  after_call-ids :
      (c : ℕ) (id : Bytes) (out : Outcome SchemaError CallToolResult × World) (s : State World)
      {t : State World}
      → after_call env (c ∷ id) out s ≡ ok t
      → ids env t ≡ ids env s ++ own (c ∷ id)
  unfolding after_call
  after_call-ids c id (ok r, w) s {t} h =
      let written =
        ids-write (respond_result env (c ∷ id) (Result.call_result r)) (record s { world = w }) in
      let answer = ids-respond_result (c ∷ id) (Result.call_result r) in
      let same : write env (respond_result env (c ∷ id) (Result.call_result r))
            (record s { world = w })
          ≡ t =
        cc h in
      ap (ids env) (sym same) ∙ written ∙ ap (λ x. ids env s ++ x) answer
  after_call-ids c id (err e, w) s h = cc
  after_call-ids c id (panic, w) s h = cc

  handle_call-ids :
      (id params : Bytes) (s : State World) {t : State World}
      → handle_call env id params s ≡ ok t
      → ids env t ≡ ids env s ++ own id
  unfolding handle_call bytes_eq
  handle_call-ids [] params s {t} h =
      let same : s ≡ t = cc h in ap (ids env) (sym same) ∙ sym (append-nil _)
  handle_call-ids (c ∷ id) params s h = after_call-ids c id _ s h

  unsupported-ids :
      (id : Bytes) (s : State World) {t : State World}
      → unsupported env id s ≡ ok t
      → ids env t ≡ ids env s ++ own id
  unfolding unsupported respond_error bytes_eq
  unsupported-ids [] s {t} h =
      let same : s ≡ t = cc h in ap (ids env) (sym same) ∙ sym (append-nil _)
  unsupported-ids (c ∷ id) s {t} h =
      let responses = respond_error env (c ∷ id) (negsuc 32600) (lit "unsupported method") in
      let same : write env responses s ≡ t = cc h in ap (ids env) (sym same) ∙ ids-write responses s

  answered :
      (id : Bytes) (r : Result) (s : State World) {t : State World}
      → ◌≡◌ {A = Outcome SchemaError (State World)}
          (ok (write env (respond_result env id r) s))
          (ok t)
      → ids env t ≡ ids env s ++ own id
  answered id r s {t} h =
      let same : write env (respond_result env id r) s ≡ t = cc h in
      ap (ids env) (sym same)
      ∙ ids-write (respond_result env id r) s
      ∙ ap (λ x. ids env s ++ x) (ids-respond_result id r)

-- A name that is one text is not another.
other_name : (m a b : Bytes) → bytes_eq m a ≡ true → bytes_eq a b ≡ false → bytes_eq m b ≡ false
other_name m a b e h = ap (λ x. bytes_eq x b) ((bytes_eq_iff m a).0 e) ∙ h

init_first : bytes_eq (lit "initialize") (lit "notifications/initialized") ≡ false
unfolding bytes_eq lit
init_first = refl

init_second : bytes_eq (lit "initialize") (lit "notifications/cancelled") ≡ false
unfolding bytes_eq lit
init_second = refl

module _ {World : Type 0} (env : Env World) where
  -- What `dispatch` does with a method that is no notification.
  dispatch_request :
      (r : Request) (s : State World) {t : State World}
      → (bytes_eq r.method (lit "notifications/initialized")
          || bytes_eq r.method (lit "notifications/cancelled"))
        ≡ false
      → dispatch env r s ≡ ok t
      → ids env t ≡ ids env s ++ own r.id
  unfolding dispatch
  dispatch_request r s {t} n h = elim (Bool-cases (bytes_eq r.method (lit "initialize"))) [
    | inl e ↦
        answered env r.id Result.initialized_result (record s { initialized = true }) (rw e at h)
    | inr e ↦ elim (Bool-cases (bytes_eq r.method (lit "ping"))) [
      | inl f ↦ answered env r.id Result.empty_result s (rw (e, n, f) at h)
      | inr f ↦ elim (Bool-cases (bytes_eq r.method (lit "tools/list"))) [
        | inl g ↦
            answered env r.id (Result.tools_result (listed env env.tools)) s (rw (e, n, f, g) at h)
        | inr g ↦ elim (Bool-cases (bytes_eq r.method (lit "tools/call"))) [
          | inl k ↦ handle_call-ids env r.id r.params s (rw (e, n, f, g, k) at h)
          | inr k ↦ unsupported-ids env r.id s (rw (e, n, f, g, k) at h)
        ]
      ]
    ]
  ]

  dispatch_notification :
      (r : Request) (s : State World) {t : State World}
      → (bytes_eq r.method (lit "notifications/initialized")
          || bytes_eq r.method (lit "notifications/cancelled"))
        ≡ true
      → dispatch env r s ≡ ok t
      → ids env t ≡ ids env s ++ []
  unfolding dispatch
  dispatch_notification r s {t} n h = elim (Bool-cases (bytes_eq r.method (lit "initialize"))) [
    | inl e ↦
        let first =
          other_name r.method (lit "initialize") (lit "notifications/initialized") e init_first in
        let second =
          other_name r.method (lit "initialize") (lit "notifications/cancelled") e init_second in
        absurd (ground arith)
    | inr e ↦ let same : s ≡ t = cc (rw (e, n) at h) in ap (ids env) (sym same) ∙ sym (append-nil _)
  ]

  dispatch-ids :
      (r : Request) (s : State World) {t : State World}
      → dispatch env r s ≡ ok t
      → ids env t ≡ ids env s ++ due (some r)
  dispatch-ids r s h =
      elim (Bool-cases (
        bytes_eq r.method (lit "notifications/initialized")
        || bytes_eq r.method (lit "notifications/cancelled"))) [
          | inl n ↦ rw n (dispatch_notification r s n h)
          | inr n ↦ rw n (dispatch_request r s n h)
        ]

  answer_line-ids :
      (r : Option Request) (s : State World) {t : State World}
      → answer_line env r s ≡ ok t
      → ids env t ≡ ids env s ++ due r
  unfolding answer_line respond_error
  answer_line-ids (some r) s h = dispatch-ids r s h
  answer_line-ids none s {t} h =
      let responses = respond_error env [] (negsuc 32699) (lit "malformed JSON-RPC message") in
      let same : write env responses s ≡ t = cc h in
      ap (ids env) (sym same) ∙ ids-write env responses s

  serve_line-ids :
      (line : Bytes) (s : State World) {t : State World}
      → serve_line env line s ≡ ok t
      → ids env t ≡ ids env s ++ due_line env line
  unfolding serve_line
  serve_line-ids [] s {t} h =
      let same : s ≡ t = cc h in ap (ids env) (sym same) ∙ sym (append-nil _)
  serve_line-ids (c ∷ line) s h = answer_line-ids (env.decode_request (c ∷ line)) s h

  next-eq-ok :
      (rest : State World → Outcome SchemaError (State World × ServeEnd))
      (m : Outcome SchemaError (State World)) {t : State World × ServeEnd}
      → next env rest m ≡ ok t
      → (u : State World) × (m ≡ ok u) × (rest u ≡ ok t)
  unfolding next
  next-eq-ok rest (ok u) h = (u, refl, h)
  next-eq-ok rest (err e) h = cc
  next-eq-ok rest panic h = cc

  -- The ids of the responses.
  serve-ids :
      (failed : Bool) (lines : List Bytes) (s : State World) {t : State World × ServeEnd}
      → ((w : World) → env.cancelled w ≡ false)
      → serve env failed lines s ≡ ok t
      → ids env t.0 ≡ ids env s ++ due_lines env lines
  unfolding serve
  serve-ids failed [] s {t} running h = ap (λ p. ids env p.0) (sym (ok_inj h)) ∙ sym (append-nil _)
  serve-ids failed (line ∷ lines) s running h = elim (Bool-cases (is_too_long line)) [
    | inl long ↦
        rw long (ap (λ p. ids env p.0) (sym (ok_inj (rw (serve, long) at h))) ∙ sym (append-nil _))
    | inr short ↦
        let (u, first, rest) =
          next-eq-ok (serve env failed lines) (serve_line env (drop_cr line) s)
            (rw (serve, short, running s.world) at h) in
        rw short (
          serve-ids failed lines u running rest
          ∙ ap (λ x. x ++ due_lines env lines) (serve_line-ids (drop_cr line) s first)
          ∙ append_assoc (ids env s) _ _)
  ]

  -- While its context is not done, and if every call of a tool returns, the server ends as its input
  -- does: with an error at the first line that is too long for the scanner, or else at the end of the
  -- input, with an error if that is one. It has then answered every line before this end that is due
  -- an answer with exactly one response, which carries the id of the request, in the order of the
  -- lines; a malformed line is answered with the id null, and notifications and requests without an
  -- id are not answered.
  pub serve_answers :
      CallsReturn env
      → ((w : World) → env.cancelled w ≡ false)
      → (failed : Bool) (lines : List Bytes) (s : State World)
      → (t : State World) × (serve env failed lines s ≡ ok (t, end_of failed lines))
        × (ids env t ≡ ids env s ++ due_lines env lines)
  serve_answers returns running failed lines s =
      let (t, e) = serve_returns env returns running failed lines s in
      (t, e, serve-ids failed lines s running e)
