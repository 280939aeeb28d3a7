-- ===== src/Coreutils/Text/Select.antt =====
-- What `Head`, `Tail` and `WordCount` compute, in terms of the lines of the text.
use go_core_mcp.Prelude.{
  ℕ, ◌-◌, ◌≤◌, ◌≡◌, refl, ◌∙◌, ap, Bool, true, false, ◌||◌, inl, inr, List, [], ◌∷◌, map, Bytes,
  bytes_eq, arith, ltb, length, take, drop, Bool-cases, take_all, All-take, All-drop,
}
use go_core_mcp.Prelude.Int.{pos}
use go_core_mcp.Strings.{trim_suffix, count_byte}
use go_core_mcp.Strings.Laws.{length-split, trim_suffix-cases, count_byte-append}
use go_core_mcp.Coreutils.Lines.{newline, split_lines, join_lines, max_line_length}
use go_core_mcp.Coreutils.Lines.Laws.{
  AreLines, any_long, clipped, clamp_lines_lem, split_lines-AreLines, split_lines-join_lines,
}
use go_core_mcp.Coreutils.Text.{head, tail, clamped_text, word_count}

map-clipped-AreLines : (ls : List Bytes) → AreLines ls → AreLines (map clipped ls)
unfolding clipped
map-clipped-AreLines [] h = tt
map-clipped-AreLines (l ∷ ls) h = (All-take _ max_line_length l h.0, map-clipped-AreLines ls h.1)

clamped_text_lem :
    (ls : List Bytes) (b : Bool)
    → clamped_text ls b ≡ (join_lines (map clipped ls), b || any_long ls)
unfolding clamped_text
clamped_text_lem ls b = rw (clamp_lines_lem ls)

lines-clamped :
    (ls : List Bytes) → AreLines ls → split_lines (join_lines (map clipped ls)) ≡ map clipped ls
lines-clamped ls h = split_lines-join_lines (map clipped ls) (map-clipped-AreLines ls h)

head_lem :
    (text : Bytes) (n : ℕ)
    → head text (pos n) ≡ (
      join_lines (map clipped (take n (split_lines text))),
      ltb n (length (split_lines text)) || any_long (take n (split_lines text)),
    )
unfolding head
head_lem text n = elim (Bool-cases (ltb n (length (split_lines text)))) [
  | inl e ↦ rw e (clamped_text_lem (take n (split_lines text)) true)
  | inr e ↦
      rw (e, take_all n (split_lines text) (ground arith))
        (clamped_text_lem (split_lines text) false)
]

-- The lines of `Head`'s result are the first `n` lines, each cut at the line limit, and the flag
-- is set exactly when lines were left out or a line that was kept was too long.
pub head-lines :
    (text : Bytes) (n : ℕ)
    → let kept = take n (split_lines text) in
      (split_lines (head text (pos n)).0 ≡ map clipped kept)
      × ((head text (pos n)).1 ≡ (ltb n (length (split_lines text)) || any_long kept))
head-lines text n =
    let kept = take n (split_lines text) in
    (
      ap (λ r. split_lines r.0) (head_lem text n)
          ∙ lines-clamped kept (All-take _ n (split_lines text) (split_lines-AreLines text)),
      ap (λ r. r.1) (head_lem text n),
    )

drop_nothing : (k n : ℕ) (ls : List Bytes) → length ls ≤ n → drop (length ls - n) ls ≡ ls
drop_nothing k n ls h = let e : length ls - n ≡ 0 = omega arith in rw e

tail_lem :
    (text : Bytes) (n : ℕ)
    → let lines = split_lines text in
      let kept = drop (length lines - n) lines in
      tail text (pos n) ≡ (join_lines (map clipped kept), ltb n (length lines) || any_long kept)
unfolding tail
tail_lem text n =
    let lines = split_lines text in
    elim (Bool-cases (ltb n (length lines))) [
      | inl e ↦ rw e (clamped_text_lem (drop (length lines - n) lines) true)
      | inr e ↦ rw (e, drop_nothing 0 n lines (ground arith)) (clamped_text_lem lines false)
    ]

-- The lines of `Tail`'s result are the last `n` lines, each cut at the line limit, and the flag is
-- set exactly when lines were left out or a line that was kept was too long.
pub tail-lines :
    (text : Bytes) (n : ℕ)
    → let lines = split_lines text in
      let kept = drop (length lines - n) lines in
      (split_lines (tail text (pos n)).0 ≡ map clipped kept)
      × ((tail text (pos n)).1 ≡ (ltb n (length lines) || any_long kept))
tail-lines text n =
    let lines = split_lines text in
    let kept = drop (length lines - n) lines in
    (
      ap (λ r. split_lines r.0) (tail_lem text n)
          ∙ lines-clamped kept (All-drop _ (length lines - n) lines (split_lines-AreLines text)),
      ap (λ r. r.1) (tail_lem text n),
    )

-- The count of newlines, with one more for a last line that lacks one, is the number of lines.
pub word_count-lines : (text : Bytes) → (word_count text).lines ≡ length (split_lines text)
unfolding word_count split_lines bytes_eq
word_count-lines [] = unfold count_byte in refl
word_count-lines (c ∷ s) =
    let text = c ∷ s in
    elim (trim_suffix-cases text newline) [
      | inl (ends, e) ↦ rw ends (
          omega (
            arith,
            length-split 10 (trim_suffix text newline),
            ap (λ t. count_byte t 10) e,
            count_byte-append (trim_suffix text newline) newline 10,
            count_newline,
          ))
      | inr (ends, e) ↦ rw (ends, e) (omega (arith, length-split 10 text))
    ]
  where
    count_newline : count_byte newline 10 ≡ 1
    count_newline = unfold count_byte in refl
