-- ===== src/Coreutils/Lines.antt =====
-- coreutils/coreutils.go: lines and the clamps that bound them.
pub mod Laws
use go_core_mcp.Prelude.{
  ℕ, Bool, true, false, ◌||◌, List, [], ◌∷◌, ◌++◌, Bytes, bytes_eq, leb, if◌then◌else◌, length,
  take,
}
use go_core_mcp.Prelude.Int.{ℤ, pos, negsuc}
use go_core_mcp.Strings.{split, join, trim_suffix}

abbrev pub max_line_length : ℕ
max_line_length = 2048

abbrev pub newline : Bytes
newline = 10 ∷ []

unfoldable pub split_lines : Bytes → List Bytes
unfolding bytes_eq
split_lines text = if bytes_eq text [] then [] else split (trim_suffix text newline) newline

unfoldable pub join_lines : List Bytes → Bytes
join_lines [] = []
join_lines (l ∷ ls) = join (l ∷ ls) newline ++ newline

unfoldable pub clamp_line : Bytes → Bytes × Bool
clamp_line line =
    if leb (length line) max_line_length then (line, false) else (take max_line_length line, true)

-- The loop of `ClampLines` over the lines left, with its variables `out` and `truncated`.
clamp_each : List Bytes → Bool → List Bytes → List Bytes × Bool
unfolding clamp_line
clamp_each out truncated [] = (out, truncated)
clamp_each out truncated (line ∷ lines) =
    let (clamped, cut) = clamp_line line in
    clamp_each (out ++ clamped ∷ []) (truncated || cut) lines

unfoldable pub clamp_lines : List Bytes → List Bytes × Bool
unfolding clamp_each
clamp_lines lines = clamp_each [] false lines

-- A negative limit counts as 0.
clamp_to : ℕ → Bytes → Bytes × Bool
clamp_to limit text = if leb (length text) limit then (text, false) else (take limit text, true)

unfoldable pub clamp : Bytes → ℤ → Bytes × Bool
unfolding clamp_to
clamp text (negsuc n) = clamp_to 0 text
clamp text (pos n) = clamp_to n text
