-- ===== src/Strings/Paths.antt =====
-- The lexical functions of Go's `path/filepath` on slash-separated paths.
pub mod Laws
pub mod Base
use mathlib.Core.List.{reverse}
use go_core_mcp.Prelude.{
  Bool, true, false, ◌||◌, List, [], ◌∷◌, ◌++◌, Bytes, bytes_eq, ◌==◌, if◌then◌else◌,
}
use go_core_mcp.Strings.{has_prefix, split, join, trim_right}

abbrev pub slash : Bytes
slash = 47 ∷ []

abbrev pub dot : Bytes
dot = 46 ∷ []

abbrev pub dot_dot : Bytes
dot_dot = 46 ∷ 46 ∷ []

-- filepath.IsAbs
unfoldable pub is_abs : Bytes → Bool
is_abs path = has_prefix path slash

-- What `..` does to the names kept so far, the last one first.
up : Bool → List Bytes → List Bytes
unfolding bytes_eq
up true [] = []
up false [] = dot_dot ∷ []
up rooted (name ∷ names) = if bytes_eq name dot_dot then dot_dot ∷ name ∷ names else names

-- filepath.Clean on the parts of a path: empty parts and `.` go, and `..` takes the name before it.
clean_parts : Bool → List Bytes → List Bytes → List Bytes
unfolding up
clean_parts rooted names [] = names
clean_parts rooted names (p ∷ ps) =
    clean_parts rooted
      (if bytes_eq p [] || bytes_eq p dot
        then names
        else if bytes_eq p dot_dot
        then up rooted names
        else p ∷ names)
      ps

-- The names of a cleaned path, in order.
unfoldable pub names_of : Bytes → List Bytes
unfolding clean_parts
names_of path = reverse (clean_parts (is_abs path) [] (split path slash))

render : Bool → List Bytes → Bytes
render true names = slash ++ join names slash
render false [] = dot
render false (n ∷ ns) = join (n ∷ ns) slash

-- filepath.Clean
unfoldable pub clean : Bytes → Bytes
unfolding render
clean path = render (is_abs path) (names_of path)

-- filepath.Join of two parts, the first of which is not empty
unfoldable pub join_path : Bytes → Bytes → Bytes
unfolding bytes_eq
join_path a b = if bytes_eq b [] then clean a else clean (a ++ (slash ++ b))

-- `s` behind its last slash, and up to it; `whole` is what to return where there is no slash
after_slash : Bytes → Bytes → Bytes
after_slash whole [] = whole
after_slash whole (c ∷ s) = if c == 47 then after_slash s s else after_slash whole s

upto_slash : Bytes → Bytes
upto_slash [] = []
upto_slash (c ∷ s) = elim (c == 47) [ true ↦ c ∷ s | false ↦ upto_slash s ]

-- filepath.Base
base_of : Bytes → Bytes → Bytes
unfolding after_slash
base_of [] trimmed = dot
base_of (c ∷ s) [] = slash
base_of (c ∷ s) (d ∷ t) = after_slash (d ∷ t) (d ∷ t)

unfoldable pub base : Bytes → Bytes
unfolding base_of
base path = base_of path (trim_right path 47)

-- filepath.Dir
unfoldable pub dir : Bytes → Bytes
unfolding upto_slash
dir path = clean (reverse (upto_slash (reverse path)))
