-- ===== src/Coreutils/Command.antt =====
-- coreutils/command.go: the registry of commands, their argument checks and their runs. A command
-- reads its input through `Input` and writes one text, which is its result; a write that fails is
-- not modelled.
pub mod Checks
pub mod Registry
use go_core_mcp.Prelude.{
  ℕ, zero, suc, Bool, true, false, not, ◌&&◌, ◌||◌, Option, none, some, List, [], ◌∷◌, ◌++◌, Bytes,
  lit, bytes_eq, ◌==◌, if◌then◌else◌, length,
}
use go_core_mcp.Prelude.Int.{ℤ, pos, ltb_ℤ}
use go_core_mcp.Outcome.{Outcome, ok, err, panic, map_err, ◌>>=◌, ◌>>◌}
use go_core_mcp.Floats.{Floats}
use go_core_mcp.Strings.{split, join}
use go_core_mcp.Strings.Numbers.{atoi, itoa}
use go_core_mcp.Coreutils.Lines.{newline}
use go_core_mcp.Coreutils.Text.{TextError, Counts, word_count, uniq, cut, head, tail}
use go_core_mcp.Coreutils.Runes.{tr}
use go_core_mcp.Coreutils.Sorting.{StableSort, sort}

pub data CommandError : Type 0 where
  unsupported_sort_argument : Bytes → CommandError
  unsupported_uniq_arguments : CommandError
  unsupported_wc_argument : Bytes → CommandError
  tr_usage line_count_usage line_count_range cut_usage field_range : CommandError
  text_error : TextError → CommandError
  context_done read_failed : CommandError

-- What `readText` meets: the context before it reads, what it reads, the context afterwards.
pub record Input : Type 0 where
  pub done_before : Bool
  pub content : Option Bytes
  pub done_after : Bool

read_content : Option Bytes → Bool → Outcome CommandError Bytes
read_content none done_after = err read_failed
read_content (some text) done_after = if done_after then err context_done else ok text

read_text : Input → Outcome CommandError Bytes
unfolding read_content
read_text i = if i.done_before then err context_done else read_content i.content i.done_after

-- args[i]
arg : List Bytes → ℕ → Outcome CommandError Bytes
arg [] i = panic
arg (a ∷ args) zero = ok a
arg (a ∷ args) (suc i) = arg args i

is_any : List Bytes → Bytes → Bool
unfolding bytes_eq
is_any [] a = false
is_any (f ∷ fs) a = bytes_eq a f || is_any fs a

-- The loops of `validateSort` and `validateWC`.
all_flags : (Bytes → CommandError) → List Bytes → List Bytes → Outcome CommandError (Unit {0})
unfolding is_any
all_flags e flags [] = ok tt
all_flags e flags (a ∷ args) = if is_any flags a then all_flags e flags args else err (e a)

abbrev sort_flags : List Bytes
sort_flags = lit "-r" ∷ lit "--reverse" ∷ lit "-n" ∷ lit "--numeric-sort" ∷ []

validate_sort : List Bytes → Outcome CommandError (Unit {0})
unfolding all_flags
validate_sort args = all_flags unsupported_sort_argument sort_flags args

has_flag : Bytes → Bytes → List Bytes → Bool
unfolding bytes_eq
has_flag short long [] = false
has_flag short long (a ∷ args) = (bytes_eq a short || bytes_eq a long) || has_flag short long args

run_sort : StableSort → Floats → List Bytes → Input → Outcome CommandError Bytes
unfolding read_text has_flag
run_sort sorter fl args input = do
  text ← read_text input
  let reversed = has_flag (lit "-r") (lit "--reverse") args
  let numeric = has_flag (lit "-n") (lit "--numeric-sort") args
  ok (sort sorter fl text reversed numeric false)

validate_uniq : List Bytes → Outcome CommandError (Unit {0})
unfolding bytes_eq
validate_uniq [] = ok tt
validate_uniq (a ∷ []) =
    if bytes_eq a (lit "-c") || bytes_eq a (lit "--count")
    then ok tt
    else err unsupported_uniq_arguments
validate_uniq (a ∷ b ∷ args) = err unsupported_uniq_arguments

run_uniq : List Bytes → Input → Outcome CommandError Bytes
unfolding read_text
run_uniq args input = do text ← read_text input; ok (uniq text (length args == 1))

validate_wc : List Bytes → Outcome CommandError (Unit {0})
unfolding all_flags
validate_wc args = all_flags unsupported_wc_argument (lit "-l" ∷ lit "-w" ∷ lit "-c" ∷ []) args

-- The `switch` in the loop of `runWC`: an argument that is no flag adds nothing.
count_values : Counts → List Bytes → List Bytes
unfolding bytes_eq
count_values counts [] = []
count_values counts (a ∷ args) =
    let rest = count_values counts args in
    if bytes_eq a (lit "-l")
    then itoa counts.lines ∷ rest
    else if bytes_eq a (lit "-w")
    then itoa counts.words ∷ rest
    else if bytes_eq a (lit "-c")
    then itoa counts.bytes ∷ rest
    else rest

wc_text : Counts → List Bytes → Bytes
unfolding count_values
wc_text counts [] =
    join (itoa counts.lines ∷ itoa counts.words ∷ itoa counts.bytes ∷ []) (lit " ") ++ newline
wc_text counts (a ∷ args) = join (count_values counts (a ∷ args)) (lit " ") ++ newline

run_wc : List Bytes → Input → Outcome CommandError Bytes
unfolding read_text wc_text
run_wc args input = do text ← read_text input; ok (wc_text (word_count text) args)

-- `len(args) == 2 || (len(args) == 2 && args[0] == "-d")`
validate_tr : List Bytes → Outcome CommandError (Unit {0})
unfolding bytes_eq
validate_tr (a ∷ b ∷ []) = ok tt
validate_tr _ = err tr_usage

run_tr : List Bytes → Input → Outcome CommandError Bytes
unfolding read_text arg bytes_eq
run_tr args input = do
  text ← read_text input
  first ← arg args 0
  second ← arg args 1
  map_err text_error
      (if bytes_eq first (lit "-d") then tr text second [] true else tr text first second false)

in_range : ℤ → ℤ → ℤ × Bool → Bool
in_range lo hi (n, valid) = valid && (not (ltb_ℤ n lo) && not (ltb_ℤ hi n))

validate_line_count : List Bytes → Outcome CommandError (Unit {0})
unfolding in_range bytes_eq
validate_line_count (flag ∷ count ∷ []) =
    if bytes_eq flag (lit "-n")
    then (if in_range (pos 0) (pos 10000) (atoi count) then ok tt else err line_count_range)
    else err line_count_usage
validate_line_count _ = err line_count_usage

run_head : List Bytes → Input → Outcome CommandError Bytes
unfolding read_text arg
run_head args input = do text ← read_text input; count ← arg args 1; ok (head text (atoi count).0).0

run_tail : List Bytes → Input → Outcome CommandError Bytes
unfolding read_text arg
run_tail args input = do text ← read_text input; count ← arg args 1; ok (tail text (atoi count).0).0

all_fields : List Bytes → Outcome CommandError (Unit {0})
unfolding in_range
all_fields [] = ok tt
all_fields (f ∷ fs) =
    if in_range (pos 1) (pos 1024) (atoi f) then all_fields fs else err field_range

validate_cut : List Bytes → Outcome CommandError (Unit {0})
unfolding all_fields bytes_eq
validate_cut (d ∷ delimiter ∷ f ∷ fields ∷ []) =
    if bytes_eq d (lit "-d") && (bytes_eq f (lit "-f") && not (bytes_eq delimiter []))
    then all_fields (split fields (lit ","))
    else err cut_usage
validate_cut _ = err cut_usage

field_values : List Bytes → List ℤ
field_values [] = []
field_values (f ∷ fs) = (atoi f).0 ∷ field_values fs

run_cut : List Bytes → Input → Outcome CommandError Bytes
unfolding read_text arg field_values
run_cut args input = do
  text ← read_text input
  fields ← arg args 3
  delimiter ← arg args 1
  map_err text_error (cut text delimiter (field_values (split fields (lit ","))))

pub record Command : Type 0 where
  pub name : Bytes
  pub expose_to_mcp : Bool
  pub read_only : Bool
  pub validate_args : List Bytes → Outcome CommandError (Unit {0})
  pub run : List Bytes → Input → Outcome CommandError Bytes

text_command :
    Bytes
    → (List Bytes → Outcome CommandError (Unit {0}))
    → (List Bytes → Input → Outcome CommandError Bytes)
    → Command
text_command name validate run = record {
  name = name;
  expose_to_mcp = true;
  read_only = true;
  validate_args = validate;
  run = run;
}

unfoldable pub commands : StableSort → Floats → List Command
unfolding text_command validate_sort run_sort validate_uniq run_uniq validate_wc run_wc validate_tr
    run_tr validate_line_count run_head run_tail validate_cut run_cut
commands sorter fl =
    text_command (lit "sort") validate_sort (run_sort sorter fl)
    ∷ text_command (lit "uniq") validate_uniq run_uniq
    ∷ text_command (lit "wc") validate_wc run_wc
    ∷ text_command (lit "tr") validate_tr run_tr
    ∷ text_command (lit "head") validate_line_count run_head
    ∷ text_command (lit "tail") validate_line_count run_tail
    ∷ text_command (lit "cut") validate_cut run_cut
    ∷ []

named : Bytes → List Command → Option Command
named name [] = none
named name (c ∷ cs) = if bytes_eq c.name name then some c else named name cs

unfoldable pub lookup_command : StableSort → Floats → Bytes → Option Command
unfolding named
lookup_command sorter fl name = named name (commands sorter fl)
