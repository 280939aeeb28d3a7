-- ===== src/Server/Opening/Registered.antt =====
-- internal/mcpserver/server.go: the tools that `New` registers.
use mathlib.Core.Path.{subst}
use mathlib.Core.Option.{map-eq-some_iff}
use go_core_mcp.Prelude.{
  some_inj, ◌≡◌, refl, inl, inr, Bool-cases, Option, none, some, List, [], ◌∷◌, All, bytes_eq,
  bytes_lt,
}
use go_core_mcp.Server.Calls.{ServerTool}
use go_core_mcp.Server.Opening.{register, register_all, tools_of}

module _ {World : Type 0} (P : ServerTool World → Type 0) where
  register-All :
      (t : ServerTool World) (us : List (ServerTool World)) {vs : List (ServerTool World)}
      → P t
      → All P us
      → register t us ≡ some vs
      → All P vs
  unfolding register
  register-All t [] {vs} p h e = subst (All P) (some_inj e) (p, tt)
  register-All t (u ∷ us) p h e = elim (Bool-cases (bytes_eq t.name u.name)) [
    | inl same ↦ cc (rw same at e)
    | inr differ ↦ elim (Bool-cases (bytes_lt t.name u.name)) [
      | inl before ↦ subst (All P) (some_inj (rw (differ, before) at e)) (p, h)
      | inr after ↦
          let (ws, f, g) =
            (map-eq-some_iff (λ vs. u ∷ vs) (register t us)).0 (rw (differ, after) at e) in
          subst (All P) g (h.0, register-All t us p h.1 f)
    ]
  ]

  register_all-All :
      (ts : List (ServerTool World)) (r : Option (List (ServerTool World)))
      {vs : List (ServerTool World)}
      → All P ts
      → ((us : List (ServerTool World)) → r ≡ some us → All P us)
      → register_all ts r ≡ some vs
      → All P vs
  unfolding register_all
  register_all-All ts none h k e = cc
  register_all-All [] (some us) h k e = subst (All P) (some_inj e) (k us refl)
  register_all-All (t ∷ ts) (some us) h k e =
      register_all-All ts (register t us) h.1 (λ vs f. register-All t us h.0 (k us refl) f) e

  -- What holds of every tool of the table holds of every tool that is registered.
  pub tools_of-All :
      (ts : List (ServerTool World)) {vs : List (ServerTool World)}
      → All P ts
      → tools_of ts ≡ some vs
      → All P vs
  unfolding tools_of
  tools_of-All ts h e = register_all-All ts (some []) h (λ us f. subst (All P) (some_inj f) tt) e
