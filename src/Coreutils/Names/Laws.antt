-- ===== src/Coreutils/Names/Laws.antt =====
-- A base name is one name.
use mathlib.Core.List.{reverse}
use go_core_mcp.Prelude.{
  ℕ, ◌≡◌, ◌≢◌, ◌⊎◌, refl, sym, not, ◌&&◌, inl, inr, Option, none, some, [], ◌∷◌, ◌++◌, Bytes,
  bytes_eq, ◌==◌, arith, All, Bool-cases,
}
use mathlib.Core.Path.{subst}
use go_core_mcp.Strings.{has_prefix, strip_prefix, trim_suffix, trim_right}
use go_core_mcp.Strings.Laws.{Lacks, strip_prefix_sound}
use go_core_mcp.Strings.Paths.{base, slash}
use go_core_mcp.Strings.Paths.Base.{base-Lacks}
use go_core_mcp.Strings.Paths.Laws.{All-reverse}
use go_core_mcp.Coreutils.Names.{without_suffix, name_of, basename}

All-front : (P : ℕ → Type 0) (xs ys : Bytes) → All P (xs ++ ys) → All P ys
All-front P [] ys h = h
All-front P (x ∷ xs) ys h = All-front P xs ys h.1

taken-Lacks :
    (b : ℕ) (s p : Bytes) (o : Option Bytes)
    → strip_prefix (reverse p) (reverse s) ≡ o
    → Lacks b s
    → Lacks b (elim o [ none ↦ s | some r ↦ reverse r ])
taken-Lacks b s p none e h = h
taken-Lacks b s p (some r) e h =
    All-reverse (λ x. x ≢ b) r
      (All-front (λ x. x ≢ b) (reverse p) r
        (subst (All (λ x. x ≢ b)) (strip_prefix_sound (reverse p) (reverse s) e)
          (All-reverse (λ x. x ≢ b) s h)))

trim_suffix-Lacks : (b : ℕ) (s p : Bytes) → Lacks b s → Lacks b (trim_suffix s p)
unfolding trim_suffix
trim_suffix-Lacks b s p h = taken-Lacks b s p (strip_prefix (reverse p) (reverse s)) refl h

-- The slash, or one name.
abbrev pub IsName : Bytes → Type 0
IsName name = (name ≡ slash) ⊎ Lacks 47 name

slash_taken :
    (q : Bytes) → IsName (elim (strip_prefix q slash) [ none ↦ slash | some r ↦ reverse r ])
unfolding strip_prefix
slash_taken [] = inl refl
slash_taken (x ∷ []) = elim (Bool-cases (x == 47)) [
  | inl e ↦ rw e (inr tt)
  | inr e ↦ rw e (inl refl)
]
slash_taken (x ∷ y ∷ q) = elim (Bool-cases (x == 47)) [
  | inl e ↦ rw e (inl refl)
  | inr e ↦ rw e (inl refl)
]

trim_suffix-IsName : (name suffix : Bytes) → IsName name → IsName (trim_suffix name suffix)
trim_suffix-IsName name suffix (inr h) = inr (trim_suffix-Lacks 47 name suffix h)
trim_suffix-IsName name suffix (inl e) =
    subst (λ n. IsName (trim_suffix n suffix)) (sym e)
      (unfold trim_suffix in slash_taken (reverse suffix))

without_suffix-IsName : (name suffix : Bytes) → IsName name → IsName (without_suffix name suffix)
unfolding without_suffix
without_suffix-IsName name suffix h =
    elim (Bool-cases (not (bytes_eq suffix []) && not (bytes_eq suffix name))) [
      | inl e ↦ rw e (trim_suffix-IsName name suffix h)
      | inr e ↦ rw e h
    ]

name_of-IsName : (input suffix trimmed : Bytes) → IsName (name_of input suffix trimmed)
unfolding name_of
name_of-IsName input suffix [] = elim (Bool-cases (has_prefix input slash)) [
  | inl e ↦ rw e (inl refl)
  | inr e ↦ rw e (inr ((λ q. omega arith), tt))
]
name_of-IsName input suffix (c ∷ trimmed) =
    without_suffix-IsName (base (c ∷ trimmed)) suffix (base-Lacks c trimmed)

-- Whatever the path and the suffix, `Basename` returns a slash, or a text without one.
pub basename-IsName : (input suffix : Bytes) → IsName (basename input suffix)
unfolding basename
basename-IsName input suffix = name_of-IsName input suffix (trim_right input 47)
