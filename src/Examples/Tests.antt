-- ===== src/Examples/Tests.antt =====
-- The utilities on small texts, and what a session prints.
use go_core_mcp.Prelude.{◌≡◌, refl, true, false, [], ◌∷◌, lit}
use go_core_mcp.Prelude.Int.{pos}
use go_core_mcp.Outcome.{ok}
use go_core_mcp.Strings.Paths.{clean}
use go_core_mcp.Coreutils.Text.{head, uniq, cut, paste}
use go_core_mcp.Coreutils.Runes.{tr}

head_test : head (lit "a\nb\nc") (pos 2) ≡ (lit "a\nb\n", true)
unfolding head lit go_core_mcp.Coreutils.Lines.split_lines go_core_mcp.Strings.split
    go_core_mcp.Strings.trim_suffix go_core_mcp.Coreutils.Lines.join_lines
    go_core_mcp.Coreutils.Lines.clamp_lines go_core_mcp.Strings.join
head_test = refl

uniq_test : uniq (lit "a\na\nb\n") true ≡ lit "      2 a\n      1 b\n"
unfolding uniq lit go_core_mcp.Coreutils.Lines.join_lines go_core_mcp.Coreutils.Lines.split_lines
    go_core_mcp.Strings.split go_core_mcp.Strings.trim_suffix go_core_mcp.Strings.join
    go_core_mcp.Strings.Numbers.width7
uniq_test = refl

cut_test : cut (lit "x,y,z\nu") (lit ",") (pos 3 ∷ pos 1 ∷ []) ≡ ok (lit "z,x\nu\n")
unfolding cut lit go_core_mcp.Coreutils.Lines.join_lines go_core_mcp.Coreutils.Lines.split_lines
    go_core_mcp.Strings.split go_core_mcp.Strings.trim_suffix go_core_mcp.Strings.join
cut_test = refl

paste_test : paste (lit "a\nb" ∷ lit "c" ∷ []) [] ≡ ok (lit "a\tc\nb\t\n")
unfolding paste lit go_core_mcp.Coreutils.Lines.join_lines go_core_mcp.Coreutils.Lines.split_lines
    go_core_mcp.Strings.split go_core_mcp.Strings.trim_suffix go_core_mcp.Strings.join
paste_test = refl

tr_test : tr (lit "abc") (lit "ab") (lit "x") false ≡ ok (lit "xxc")
unfolding tr lit
tr_test = refl

clean_test : clean (lit "a/./b//../../../c") ≡ lit "../c"
unfolding clean lit go_core_mcp.Strings.Paths.is_abs go_core_mcp.Strings.has_prefix
    go_core_mcp.Strings.Paths.names_of go_core_mcp.Strings.split go_core_mcp.Strings.join
clean_test = refl
