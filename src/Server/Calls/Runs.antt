-- ===== src/Server/Calls/Runs.antt =====
-- When a call of a tool runs its handler.
use go_core_mcp.Prelude.{
  ◌≡◌, refl, sym, ◌∙◌, ap, true, inl, inr, some, List, [], ◌∷◌, Bytes, bytes_eq, bytes_eq_iff, ◌⊎◌,
  Bool-cases, Option-cases,
}
use go_core_mcp.Outcome.{Outcome-cases, Outcome, ok, err, panic}
use go_core_mcp.Json.{Fields}
use go_core_mcp.Schema.{SchemaError}
use go_core_mcp.Protocol.{CallToolResult}
use go_core_mcp.Agent.ToolCall.{validate_raw}
use go_core_mcp.Server.Calls.{
  Env, CallParams, ServerTool, error_result, find, finish, run_checked, run_found, run_params,
  call_tool,
}

-- The outcome of a call that was refused before any handler ran: an error result, or the panic of
-- the check on its arguments.
abbrev pub IsRefused :
    {World : Type 0} → World → Outcome SchemaError CallToolResult × World → Type 0
IsRefused w (ok r, v) = (r.is_error ≡ true) × (v ≡ w)
IsRefused w (err e, v) = ⊥
IsRefused w (panic, v) = v ≡ w

module _ {World : Type 0} (env : Env World) where
  -- The outcome of a call whose tool is in the table and whose arguments fit its schema: that of one
  -- run of its handler on these arguments.
  pub record IsRun (raw : Bytes) (w : World) (out : Outcome SchemaError CallToolResult × World)
      : Type 0 where
    pub params : CallParams
    pub tool : ServerTool World
    pub arguments : Fields
    pub decodes : env.decode_params raw ≡ some params
    pub in_table : find env params.name env.tools ≡ some tool
    pub named : tool.name ≡ params.name
    pub fits : validate_raw env.codec env.floats tool.schema params.arguments ≡ ok arguments
    pub runs : out ≡ finish env (tool.run arguments w)

  find-named :
      (name : Bytes) (ts : List (ServerTool World)) {t : ServerTool World}
      → find env name ts ≡ some t
      → t.name ≡ name
  unfolding find
  find-named name [] h = cc
  find-named name (u ∷ ts) {t} h = elim (Bool-cases (bytes_eq u.name name)) [
    | inl e ↦
        let same : u ≡ t = cc (rw e at h) in
        ap (λ x. x.name) (sym same) ∙ (bytes_eq_iff u.name name).0 e
    | inr e ↦ find-named name ts (rw e at h)
  ]

  found_cases :
      (raw : Bytes) (w : World) (p : CallParams) (t : ServerTool World)
      → env.decode_params raw ≡ some p
      → find env p.name env.tools ≡ some t
      → IsRefused w (run_found env (some t) p.arguments w)
        ⊎ IsRun raw w (run_found env (some t) p.arguments w)
  unfolding run_found run_checked error_result
  found_cases raw w p t d f =
      elim (Outcome-cases (validate_raw env.codec env.floats t.schema p.arguments)) [
        | inl (fs, e) ↦ rw e (
            inr (record {
              params = p;
              tool = t;
              arguments = fs;
              decodes = d;
              in_table = f;
              named = find-named p.name env.tools f;
              fits = e;
              runs = refl;
            }))
        | inr (inl (x, e)) ↦ rw e (inl (refl, refl))
        | inr (inr e) ↦ rw e (inl refl)
      ]

  -- A call either runs the handler of the tool that it names, once, on arguments that fit the tool's
  -- schema, or it is refused, with an error result or a panic of the check, and changes nothing.
  pub call_tool-cases :
      (raw : Bytes) (w : World)
      → IsRefused w (call_tool env raw w) ⊎ IsRun raw w (call_tool env raw w)
  unfolding call_tool run_params run_found error_result
  call_tool-cases raw w = elim (Option-cases (env.decode_params raw)) [
    | inl d ↦ rw d (inl (refl, refl))
    | inr (p, d) ↦ elim (Option-cases (find env p.name env.tools)) [
      | inl f ↦ rw (d, f) (inl (refl, refl))
      | inr (t, f) ↦ rw (d, f) (found_cases raw w p t d f)
    ]
  ]
