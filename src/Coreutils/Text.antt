-- ===== src/Coreutils/Text.antt =====
-- coreutils/text.go: head, tail, wc, uniq, cut and paste. `Sort` and `Tr` have modules of their own.
pub mod Select
pub mod Uniq
pub mod Fields
use Prim.Native.Nat.{max}
use go_core_mcp.Prelude.{
  ℕ, zero, suc, ◌+◌, ◌-◌, Bool, true, false, not, ◌&&◌, ◌||◌, List, [], ◌∷◌, ◌++◌, map, Option,
  none, some, Bytes, lit, bytes_eq, ltb, if◌then◌else◌, length, take, drop, get_or,
}
use go_core_mcp.Prelude.Int.{ℤ, pos, negsuc, pos_part, leb_ℤ, ltb_ℤ}
use go_core_mcp.Outcome.{Outcome, ok, err, panic, ◌>>=◌}
use go_core_mcp.Strings.{split, join, has_suffix, fields_count, count_byte}
use go_core_mcp.Strings.Numbers.{width7}
use go_core_mcp.Coreutils.Lines.{split_lines, join_lines, clamp_lines, newline}

-- The errors of the utilities, one constructor for each message.
pub data TextError : Type 0 where
  empty_delimiter no_fields field_not_positive no_inputs empty_source empty_target : TextError

-- `n >= 0 && len(lines) > n`
abbrev pub exceeds : List Bytes → ℤ → Bool
exceeds lines (pos n) = ltb n (length lines)
exceeds lines (negsuc n) = false

clamped_text : List Bytes → Bool → Bytes × Bool
clamped_text lines truncated =
    let (clamped, cut) = clamp_lines lines in (join_lines clamped, truncated || cut)

unfoldable pub head : Bytes → ℤ → Bytes × Bool
unfolding clamped_text
head text n =
    let lines = split_lines text in
    if exceeds lines n
    then clamped_text (take (pos_part n) lines) true
    else clamped_text lines false

unfoldable pub tail : Bytes → ℤ → Bytes × Bool
unfolding clamped_text
tail text n =
    let lines = split_lines text in
    if exceeds lines n
    then clamped_text (drop (length lines - pos_part n) lines) true
    else clamped_text lines false

pub record Counts : Type 0 where
  pub lines : ℕ
  pub words : ℕ
  pub bytes : ℕ

unfoldable pub word_count : Bytes → Counts
word_count text = record {
  lines =
      count_byte text 10
      + (if not (bytes_eq text []) && not (has_suffix text newline) then 1 else 0);
  words = fields_count text;
  bytes = length text;
}

-- The loop of `uniqueAdjacent` over the lines left; `last` is the line before them.
unfoldable pub unique_from : Option Bytes → List Bytes → List Bytes
unique_from last [] = []
unique_from none (line ∷ lines) = line ∷ unique_from (some line) lines
unique_from (some last) (line ∷ lines) =
    let rest = unique_from (some line) lines in if bytes_eq line last then rest else line ∷ rest

unfoldable pub unique_adjacent : List Bytes → List Bytes
unfolding unique_from
unique_adjacent lines = unique_from none lines

-- How many lines at the front are equal to `line`: the inner loop of `Uniq` counts one more.
leading_equal : Bytes → List Bytes → ℕ
leading_equal line [] = 0
leading_equal line (l ∷ ls) = if bytes_eq l line then suc (leading_equal line ls) else 0

uniq_line : Bool → ℕ → Bytes → Bytes
uniq_line count run line = if count then width7 run ++ lit " " ++ line else line

-- The outer loop of `Uniq` over the lines left. A round takes one line at least.
uniq_lines : ℕ → Bool → List Bytes → List Bytes
unfolding leading_equal uniq_line
uniq_lines zero count lines = []
uniq_lines (suc fuel) count [] = []
uniq_lines (suc fuel) count (line ∷ lines) =
    let more = leading_equal line lines in
    uniq_line count (1 + more) line ∷ uniq_lines fuel count (drop more lines)

unfoldable pub uniq : Bytes → Bool → Bytes
unfolding uniq_lines
uniq text count = let lines = split_lines text in join_lines (uniq_lines (length lines) count lines)

-- parts[index], which panics out of range
part_at : List Bytes → ℕ → Outcome TextError Bytes
part_at [] index = panic
part_at (p ∷ ps) zero = ok p
part_at (p ∷ ps) (suc index) = part_at ps index

-- parts[field-1], of which the index is negative if the field is not positive
field_at : List Bytes → ℤ → Outcome TextError Bytes
unfolding part_at
field_at parts (pos (suc index)) = part_at parts index
field_at parts _ = panic

select_fields : List Bytes → List ℤ → Outcome TextError (List Bytes)
unfolding field_at
select_fields parts [] = ok []
select_fields parts (field ∷ fields) =
    let rest = select_fields parts fields in
    if leb_ℤ field (pos (length parts))
    then (do part ← field_at parts field; more ← rest; ok (part ∷ more))
    else rest

any_below_one : List ℤ → Bool
any_below_one [] = false
any_below_one (field ∷ fields) = ltb_ℤ field (pos 1) || any_below_one fields

cut_line : Bytes → List ℤ → Bytes → Outcome TextError Bytes
unfolding select_fields
cut_line delimiter fields line = do
  selected ← select_fields (split line delimiter) fields
  ok (join selected delimiter)

cut_lines : Bytes → List ℤ → List Bytes → Outcome TextError (List Bytes)
unfolding cut_line
cut_lines delimiter fields [] = ok []
cut_lines delimiter fields (line ∷ lines) = do
  cut_one ← cut_line delimiter fields line
  rest ← cut_lines delimiter fields lines
  ok (cut_one ∷ rest)

unfoldable pub cut : Bytes → Bytes → List ℤ → Outcome TextError Bytes
unfolding any_below_one cut_lines
cut text [] fields = err empty_delimiter
cut text (c ∷ delimiter) [] = err no_fields
cut text (c ∷ delimiter) (f ∷ fields) =
    if any_below_one (f ∷ fields)
    then err field_not_positive
    else (do out ← cut_lines (c ∷ delimiter) (f ∷ fields) (split_lines text); ok (join_lines out))

longest : List (List Bytes) → ℕ
longest [] = 0
longest (c ∷ cs) = max (length c) (longest cs)

-- The rows from `row` on, `n` of them.
paste_rows : Bytes → List (List Bytes) → ℕ → ℕ → List Bytes
paste_rows delimiter columns zero row = []
paste_rows delimiter columns (suc n) row =
    join (map (λ c. get_or c row []) columns) delimiter ∷ paste_rows delimiter columns n (row + 1)

or_tab : Bytes → Bytes
or_tab [] = 9 ∷ []
or_tab (c ∷ d) = c ∷ d

unfoldable pub paste : List Bytes → Bytes → Outcome TextError Bytes
unfolding longest paste_rows or_tab
paste [] delimiter = err no_inputs
paste (i ∷ inputs) delimiter =
    let columns = map split_lines (i ∷ inputs) in
    ok (join_lines (paste_rows (or_tab delimiter) columns (longest columns) 0))
