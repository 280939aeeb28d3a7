-- ===== src/Coreutils/Sorting/Kept.antt =====
-- coreutils/text.go: the lines that `Sort` keeps, with all its flags.
use mathlib.Core.List.{Perm}
use mathlib.Core.List.Perm
use go_core_mcp.Prelude.{◌≡◌, Bool, true, false, List, Bytes, mem}
use go_core_mcp.Floats.{Floats}
use go_core_mcp.Coreutils.Text.Uniq.{IsDistinct}

-- The lines `out` that are kept of `lines`: all, as often as they are there; or, if each should be
-- unique, the same lines, with no two equal ones next to each other.
abbrev pub IsKept : Bool → List Bytes → List Bytes → Type 0
IsKept false out lines = Perm out lines
IsKept true out lines = ((x : Bytes) → mem x out ≡ mem x lines) × IsDistinct out
