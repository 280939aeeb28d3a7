-- ===== src/Strings/Paths/Base.antt =====
-- What filepath.Base returns is one name.
use go_core_mcp.Prelude.{
  ℕ, ◌≡◌, ◌≢◌, ◌⊎◌, refl, sym, inl, inr, [], ◌∷◌, ◌++◌, append_assoc, append-nil, Bytes, ◌==◌,
  arith, All-append, Bool-cases,
}
use mathlib.Core.Path.{subst}
use go_core_mcp.Strings.{trim_right}
use go_core_mcp.Strings.Laws.{Lacks}
use go_core_mcp.Strings.Paths.{after_slash, base_of, base, slash}

-- What stands behind the last slash holds none.
after_slash-Lacks : (seen s : Bytes) → Lacks 47 seen → Lacks 47 (after_slash (seen ++ s) s)
unfolding after_slash
after_slash-Lacks seen [] h = subst (Lacks 47) (sym (append-nil seen)) h
after_slash-Lacks seen (c ∷ s) h = elim (Bool-cases (c == 47)) [
  | inl e ↦ rw e (after_slash-Lacks [] s tt)
  | inr e ↦ rw e (
      subst (λ w. Lacks 47 (after_slash w s)) (append_assoc seen (c ∷ []) s)
        (after_slash-Lacks (seen ++ c ∷ []) s
          (All-append (λ x. x ≢ 47) seen (c ∷ []) h ((λ q. ground arith), tt))))
]

base_of_cases :
    (c : ℕ) (s trimmed : Bytes)
    → (base_of (c ∷ s) trimmed ≡ slash) ⊎ Lacks 47 (base_of (c ∷ s) trimmed)
unfolding base_of
base_of_cases c s [] = inl refl
base_of_cases c s (d ∷ t) = inr (after_slash-Lacks [] (d ∷ t) tt)

-- The base of a path that is not empty is a slash, or holds none.
pub base-Lacks : (c : ℕ) (s : Bytes) → (base (c ∷ s) ≡ slash) ⊎ Lacks 47 (base (c ∷ s))
unfolding base
base-Lacks c s = base_of_cases c s (trim_right (c ∷ s) 47)
