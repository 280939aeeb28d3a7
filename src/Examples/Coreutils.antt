-- ===== src/Examples/Coreutils.antt =====
-- The theorems on the core utilities at concrete inputs.
use go_core_mcp.Prelude.{
  ◌-◌, ◌≡◌, refl, true, false, ◌||◌, none, [], Bytes, lit, bytes_lt, arith, length, ltb, take, drop,
  map, get_or,
}
use go_core_mcp.Prelude.Int.{pos}
use go_core_mcp.Outcome.{ok}
use go_core_mcp.Strings.{contains}
use go_core_mcp.Coreutils.Lines.{split_lines, join_lines}
use go_core_mcp.Coreutils.Lines.Laws.{clipped, any_long, terminated}
use go_core_mcp.Coreutils.Text.{head, tail, uniq, unique_adjacent, cut}
use go_core_mcp.Coreutils.Text.Select.{head-lines, tail-lines}
use go_core_mcp.Coreutils.Text.Uniq.{uniq-unique_adjacent}
use go_core_mcp.Coreutils.Text.Fields.{fields_from, cut-fields_from}
use go_core_mcp.Coreutils.Sorting.{IsSorted, sort}
use go_core_mcp.Coreutils.Sorting.Laws.{flipped, sort-IsSorted}
use go_core_mcp.Coreutils.Search.{GrepOptions, Matching, match_limit, matcher, grep}
use go_core_mcp.Coreutils.Search.Exact.{all_matches, cut_short, grep_exact}
use go_core_mcp.Coreutils.Command.{Command, commands, lookup_command}
use go_core_mcp.Coreutils.Command.Checks.{IsGuarded}
use go_core_mcp.Coreutils.Command.Registry.{IsApproved, lookup_command_sound}
use go_core_mcp.Examples.Parts.{no_floats}
use go_core_mcp.Examples.Insertion.{insertion}

abbrev three_lines : Bytes
three_lines = lit "b\na\na\n"

head-lines_example :
    (split_lines (head three_lines (pos 2)).0 ≡ map clipped (take 2 (split_lines three_lines)))
    × ((head three_lines (pos 2)).1
        ≡ (ltb 2 (length (split_lines three_lines)) || any_long (take 2 (split_lines three_lines))))
head-lines_example = head-lines three_lines 2

tail-lines_example :
    (split_lines (tail three_lines (pos 2)).0
      ≡ map clipped (drop (length (split_lines three_lines) - 2) (split_lines three_lines)))
    × ((tail three_lines (pos 2)).1 ≡ (
        ltb 2 (length (split_lines three_lines))
        || any_long (drop (length (split_lines three_lines) - 2) (split_lines three_lines))))
tail-lines_example = tail-lines three_lines 2

uniq-unique_adjacent_example :
    uniq three_lines false ≡ join_lines (unique_adjacent (split_lines three_lines))
uniq-unique_adjacent_example = uniq-unique_adjacent three_lines

cut-fields_from_example :
    cut (lit "x,y\nz") (lit ",") (fields_from 1 2) ≡ ok (terminated (lit "x,y\nz"))
unfolding split_lines lit go_core_mcp.Strings.split go_core_mcp.Strings.trim_suffix
cut-fields_from_example =
    cut-fields_from (lit "x,y\nz") (lit ",") 2 (λ e. cc e) (omega arith)
      (omega arith, (omega arith, tt))

sort-IsSorted_example :
    IsSorted bytes_lt (split_lines (sort insertion no_floats three_lines false false false))
    × IsSorted
        (flipped bytes_lt)
        (split_lines (sort insertion no_floats three_lines true false false))
sort-IsSorted_example = sort-IsSorted insertion no_floats three_lines

-- A search for the letter `a` as a fixed text.
abbrev letter_search : GrepOptions
letter_search = record {
  pattern = lit "a";
  ignore_case = false;
  fixed_text = true;
  max_matches = pos 1;
}

abbrev pub no_regexp : Matching
no_regexp = record { to_lower = λ s. s; compile = λ s. none }

grep_exact_example :
    grep no_regexp three_lines letter_search
    ≡ ok (
      take 1 (all_matches (λ line. contains line (lit "a")) 0 (split_lines three_lines)),
      cut_short (λ line. contains line (lit "a")) 1 (split_lines three_lines),
    )
unfolding matcher match_limit lit
grep_exact_example = grep_exact no_regexp three_lines letter_search (omega arith) (omega arith) refl

abbrev no_command : Command
no_command = record {
  name = [];
  expose_to_mcp = false;
  read_only = false;
  validate_args = λ args. ok tt;
  run = λ args input. ok [];
}

-- The third command of the registry.
abbrev wc_command : Command
unfolding commands
wc_command = get_or (commands insertion no_floats) 2 no_command

lookup_command_sound_example :
    (wc_command.name ≡ lit "wc") × IsApproved wc_command × IsGuarded wc_command
unfolding lookup_command commands lit
lookup_command_sound_example = lookup_command_sound insertion no_floats (lit "wc") refl
