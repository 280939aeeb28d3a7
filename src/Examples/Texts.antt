-- ===== src/Examples/Texts.antt =====
-- The theorems on strings and lines at concrete inputs.
use go_core_mcp.Prelude.{◌≡◌, refl, [], ◌∷◌, lit, bytes_eq, arith, map}
use go_core_mcp.Strings.{split, join}
use go_core_mcp.Strings.Laws.{join-split, split-join}
use go_core_mcp.Strings.Paths.{names_of, clean, is_abs}
use go_core_mcp.Strings.Paths.Laws.{NoParent, names_of-NoParent}
use go_core_mcp.Coreutils.Lines.{split_lines, join_lines, clamp_lines}
use go_core_mcp.Coreutils.Lines.Laws.{
  terminated, clipped, any_long, split_lines-join_lines, join_lines-split_lines, clamp_lines_lem,
}
use go_core_mcp.Coreutils.Names.{basename}

join-split_example : join (split (lit "a, b, c") (lit ", ")) (lit ", ") ≡ lit "a, b, c"
unfolding lit
join-split_example = join-split (lit "a, b, c") (lit ", ") (λ e. cc e)

split-join_example :
    split (join (lit "a" ∷ lit "b" ∷ []) (47 ∷ [])) (47 ∷ []) ≡ lit "a" ∷ lit "b" ∷ []
unfolding lit
split-join_example =
    split-join 47 (lit "a" ∷ lit "b" ∷ []) (λ e. cc e)
      (((λ e. omega arith), tt), (((λ e. omega arith), tt), tt))

names_of-NoParent_example : NoParent (names_of (lit "a/../b"))
unfolding is_abs clean lit go_core_mcp.Strings.has_prefix bytes_eq names_of split join
names_of-NoParent_example = names_of-NoParent (lit "a/../b") refl refl refl

split_lines-join_lines_example :
    split_lines (join_lines (lit "a" ∷ [] ∷ lit "b" ∷ [])) ≡ lit "a" ∷ [] ∷ lit "b" ∷ []
unfolding lit
split_lines-join_lines_example =
    split_lines-join_lines (lit "a" ∷ [] ∷ lit "b" ∷ [])
      (((λ e. omega arith), tt), (tt, (((λ e. omega arith), tt), tt)))

join_lines-split_lines_example : join_lines (split_lines (lit "a\nb")) ≡ terminated (lit "a\nb")
join_lines-split_lines_example = join_lines-split_lines (lit "a\nb")

clamp_lines_lem_example :
    clamp_lines (lit "a" ∷ lit "b" ∷ [])
    ≡ (map clipped (lit "a" ∷ lit "b" ∷ []), any_long (lit "a" ∷ lit "b" ∷ []))
clamp_lines_lem_example = clamp_lines_lem (lit "a" ∷ lit "b" ∷ [])

basename_test : basename (lit "/usr/lib/libc.so/") (lit ".so") ≡ lit "libc"
unfolding basename lit go_core_mcp.Strings.trim_right go_core_mcp.Strings.Paths.base
    go_core_mcp.Strings.trim_suffix
basename_test = refl
