-- ===== src/Server/Calls/Keeps.antt =====
-- What every handler keeps, a call of a tool keeps.
use mathlib.Core.Path.{subst}
use go_core_mcp.Prelude.{
  some_inj, ◌≡◌, refl, sym, ◌∙◌, ap, inl, inr, Bool-cases, some, List, [], ◌∷◌, Bytes, bytes_eq,
  All,
}
use go_core_mcp.Outcome.{Outcome, ok, err, panic}
use go_core_mcp.Json.{Fields}
use go_core_mcp.Schema.{SchemaError}
use go_core_mcp.Protocol.{CallToolResult}
use go_core_mcp.Server.Calls.{Env, ServerTool, find, finish, call_tool}
use go_core_mcp.Server.Calls.Runs.{IsRefused, call_tool-cases}

module _ {World : Type 0} (env : Env World) (P : World → Type 0) where
  -- A handler whose runs keep `P`, whether they succeed or fail.
  abbrev pub Keeping : ServerTool World → Type 0
  Keeping t = (arguments : Fields) (w : World) → P w → P (t.run arguments w).1

  find-Keeping :
      (name : Bytes) (ts : List (ServerTool World)) {t : ServerTool World}
      → All Keeping ts
      → find env name ts ≡ some t
      → Keeping t
  unfolding find
  find-Keeping name [] k e = cc
  find-Keeping name (u ∷ us) k e = elim (Bool-cases (bytes_eq u.name name)) [
    | inl same ↦ subst Keeping (some_inj (rw same at e)) k.0
    | inr differ ↦ find-Keeping name us k.1 (rw differ at e)
  ]

  finish-world : (r : _) (w : World) → (finish env (r, w)).1 ≡ w
  unfolding finish
  finish-world (ok p) w = refl
  finish-world (err e) w = refl
  finish-world panic w = refl

  module _ (keeping : All Keeping env.tools) where
    refused-keeps :
        (w : World) (r : Outcome SchemaError CallToolResult) (v : World)
        → P w
        → IsRefused w (r, v)
        → P v
    refused-keeps w (ok a) v h refused = subst P (sym refused.1) h
    refused-keeps w (err e) v h refused = absurd refused
    refused-keeps w panic v h refused = subst P (sym refused) h

    pub call_tool-keeps : (raw : Bytes) (w : World) → P w → P (call_tool env raw w).1
    call_tool-keeps raw w h = elim (call_tool-cases env raw w) [
      | inl refused ↦ refused-keeps w (call_tool env raw w).0 (call_tool env raw w).1 h refused
      | inr run ↦
          let after = (run.tool.run run.arguments w) in
          let kept =
            find-Keeping run.params.name env.tools keeping run.in_table run.arguments w h in
          subst P (sym (ap (λ o. o.1) run.runs ∙ finish-world after.0 after.1)) kept
    ]
