-- ===== src/Coreutils/Names.antt =====
-- coreutils/path.go: `Basename` and `Dirname`.
pub mod Laws
use go_core_mcp.Prelude.{not, ◌&&◌, [], ◌∷◌, Bytes, bytes_eq, if◌then◌else◌}
use go_core_mcp.Strings.{has_prefix, trim_suffix, trim_right}
use go_core_mcp.Strings.Paths.{base, dir, slash, dot}

-- The suffix goes, unless it is the whole name.
without_suffix : Bytes → Bytes → Bytes
unfolding bytes_eq
without_suffix name suffix =
    if not (bytes_eq suffix []) && not (bytes_eq suffix name) then trim_suffix name suffix else name

name_of : Bytes → Bytes → Bytes → Bytes
unfolding without_suffix
name_of input suffix [] = if has_prefix input slash then slash else dot
name_of input suffix (c ∷ trimmed) = without_suffix (base (c ∷ trimmed)) suffix

unfoldable pub basename : Bytes → Bytes → Bytes
unfolding name_of
basename input suffix = name_of input suffix (trim_right input 47)

unfoldable pub dirname : Bytes → Bytes
dirname input = dir input
