-- ===== src/Coreutils/Command/Checks.antt =====
-- What the argument checks accept, the runs can handle.
use go_core_mcp.Prelude.{
  ◌≡◌, ◌≢◌, Bool, true, false, List, [], ◌∷◌, Bytes, lit, bytes_eq, arith, if◌then◌else◌, All,
}
use go_core_mcp.Outcome.{Outcome, ok, panic, ◌>>=◌, ok-ne-panic, >>=-ne-panic, map_err-ne-panic}
use go_core_mcp.Floats.{Floats}
use go_core_mcp.Coreutils.Text.{TextError}
use go_core_mcp.Coreutils.Text.Fields.{cut-ne-panic}
use go_core_mcp.Coreutils.Runes.{runes, tr, tr_runes-ne-panic}
use go_core_mcp.Coreutils.Sorting.{StableSort}
use go_core_mcp.Coreutils.Command.{
  CommandError, Input, Command, read_text, run_sort, run_uniq, run_wc, validate_tr, run_tr,
  validate_line_count, run_head, run_tail, validate_cut, run_cut, commands,
}

-- What the checks of a command accept, its run does not panic on.
abbrev pub IsGuarded : Command → Type 0
IsGuarded c =
    (args : List Bytes) (input : Input) → c.validate_args args ≡ ok tt → c.run args input ≢ panic

read_text-ne-panic : (i : Input) → read_text i ≢ panic
unfolding read_text
read_text-ne-panic i h = ground arith

tr-ne-panic : (text from to : Bytes) (delete : Bool) → tr text from to delete ≢ panic
unfolding tr
tr-ne-panic text from to delete = tr_runes-ne-panic (runes text) (runes from) (runes to) delete

either-ne-panic :
    (b : Bool) (m n : Outcome TextError Bytes)
    → m ≢ panic
    → n ≢ panic
    → (if b then m else n) ≢ panic
either-ne-panic true m n hm hn = hm
either-ne-panic false m n hm hn = hn

-- Reading the input and then returning what cannot panic does not panic.
read-ne-panic :
    (i : Input) (f : Bytes → Outcome CommandError Bytes)
    → ((t : Bytes) → f t ≢ panic)
    → (read_text i >>= f) ≢ panic
read-ne-panic i f h = >>=-ne-panic (read_text i) f (read_text-ne-panic i) h

sort-IsGuarded :
    (sorter : StableSort) (fl : Floats) (args : List Bytes) (i : Input)
    → run_sort sorter fl args i ≢ panic
unfolding run_sort
sort-IsGuarded sorter fl args i = read-ne-panic i _ (λ t. ok-ne-panic _)

uniq-IsGuarded : (args : List Bytes) (i : Input) → run_uniq args i ≢ panic
unfolding run_uniq
uniq-IsGuarded args i = read-ne-panic i _ (λ t. ok-ne-panic _)

wc-IsGuarded : (args : List Bytes) (i : Input) → run_wc args i ≢ panic
unfolding run_wc
wc-IsGuarded args i = read-ne-panic i _ (λ t. ok-ne-panic _)

tr-IsGuarded : (args : List Bytes) (i : Input) → validate_tr args ≡ ok tt → run_tr args i ≢ panic
unfolding validate_tr run_tr
tr-IsGuarded [] i v = absurd (ground arith)
tr-IsGuarded (a ∷ []) i v = absurd (ground arith)
tr-IsGuarded (a ∷ b ∷ []) i v = read-ne-panic i _ (λ t. map_err-ne-panic CommandError.text_error _ (
    either-ne-panic (bytes_eq a (lit "-d")) _ _ (tr-ne-panic t b [] true)
      (tr-ne-panic t a b false)))
tr-IsGuarded (a ∷ b ∷ c ∷ args) i v = absurd (ground arith)

head-IsGuarded :
    (args : List Bytes) (i : Input) → validate_line_count args ≡ ok tt → run_head args i ≢ panic
unfolding validate_line_count run_head
head-IsGuarded [] i v = absurd (ground arith)
head-IsGuarded (a ∷ []) i v = absurd (ground arith)
head-IsGuarded (a ∷ b ∷ []) i v = read-ne-panic i _ (λ t. ok-ne-panic _)
head-IsGuarded (a ∷ b ∷ c ∷ args) i v = absurd (ground arith)

tail-IsGuarded :
    (args : List Bytes) (i : Input) → validate_line_count args ≡ ok tt → run_tail args i ≢ panic
unfolding validate_line_count run_tail
tail-IsGuarded [] i v = absurd (ground arith)
tail-IsGuarded (a ∷ []) i v = absurd (ground arith)
tail-IsGuarded (a ∷ b ∷ []) i v = read-ne-panic i _ (λ t. ok-ne-panic _)
tail-IsGuarded (a ∷ b ∷ c ∷ args) i v = absurd (ground arith)

cut-IsGuarded : (args : List Bytes) (i : Input) → validate_cut args ≡ ok tt → run_cut args i ≢ panic
unfolding validate_cut run_cut
cut-IsGuarded [] i v = absurd (ground arith)
cut-IsGuarded (a ∷ []) i v = absurd (ground arith)
cut-IsGuarded (a ∷ b ∷ []) i v = absurd (ground arith)
cut-IsGuarded (a ∷ b ∷ c ∷ []) i v = absurd (ground arith)
cut-IsGuarded (a ∷ b ∷ c ∷ d ∷ []) i v =
    read-ne-panic i _ (λ t. map_err-ne-panic CommandError.text_error _ (cut-ne-panic t b _))
cut-IsGuarded (a ∷ b ∷ c ∷ d ∷ e ∷ args) i v = absurd (ground arith)

pub commands-IsGuarded : (sorter : StableSort) (fl : Floats) → All IsGuarded (commands sorter fl)
unfolding commands
commands-IsGuarded sorter fl = (
  λ args i v. sort-IsGuarded sorter fl args i,
  (
    λ args i v. uniq-IsGuarded args i,
    (
      λ args i v. wc-IsGuarded args i,
      (tr-IsGuarded, (head-IsGuarded, (tail-IsGuarded, (cut-IsGuarded, tt)))),
    ),
  ),
)
