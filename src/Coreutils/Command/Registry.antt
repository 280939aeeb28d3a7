-- ===== src/Coreutils/Command/Registry.antt =====
-- What a name that `LookupCommand` finds stands for.
use mathlib.Core.Path.{subst}
use go_core_mcp.Prelude.{
  ◌≡◌, refl, Bool, true, inl, inr, some, List, [], ◌∷◌, Bytes, bytes_eq, bytes_eq_iff, arith, All,
  Bool-cases,
}
use go_core_mcp.Floats.{Floats}
use go_core_mcp.Coreutils.Sorting.{StableSort}
use go_core_mcp.Coreutils.Command.{Command, named, commands, lookup_command}
use go_core_mcp.Coreutils.Command.Checks.{IsGuarded, commands-IsGuarded}

abbrev pub IsApproved : Command → Type 0
IsApproved c = (c.expose_to_mcp ≡ true) × (c.read_only ≡ true)

commands-IsApproved : (sorter : StableSort) (fl : Floats) → All IsApproved (commands sorter fl)
unfolding commands
commands-IsApproved sorter fl =
    (yes_yes, (yes_yes, (yes_yes, (yes_yes, (yes_yes, (yes_yes, (yes_yes, tt)))))))
  where
    yes_yes : ◌≡◌ {A = Bool} true true × ◌≡◌ {A = Bool} true true
    yes_yes = (refl, refl)

named_lem :
    (P : Command → Type 0) (name : Bytes) (cs : List Command) {c : Command}
    → All P cs
    → named name cs ≡ some c
    → P c × (c.name ≡ name)
unfolding named
named_lem P name [] h e = cc
named_lem P name (d ∷ ds) {c} h e = elim (Bool-cases (bytes_eq d.name name)) [
  | inl same ↦
      let found : some d ≡ some c = ground arith in
      let equal : d ≡ c = cc found in
      subst (λ x. P x × (x.name ≡ name)) equal (h.0, (bytes_eq_iff d.name name).0 same)
  | inr other ↦ named_lem P name ds h.1 (ground arith)
]

-- A command that is found has the name that was asked for, is exposed, is read-only, and does not
-- panic on arguments that its check accepts.
pub lookup_command_sound :
    (sorter : StableSort) (fl : Floats) (name : Bytes) {c : Command}
    → lookup_command sorter fl name ≡ some c
    → (c.name ≡ name) × IsApproved c × IsGuarded c
unfolding lookup_command
lookup_command_sound sorter fl name e =
    let (approved, same) =
      named_lem IsApproved name (commands sorter fl) (commands-IsApproved sorter fl) e in
    let (guarded, _) =
      named_lem IsGuarded name (commands sorter fl) (commands-IsGuarded sorter fl) e in
    (same, approved, guarded)
