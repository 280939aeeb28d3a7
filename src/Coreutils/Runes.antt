-- ===== src/Coreutils/Runes.antt =====
-- UTF-8, as Go's `[]rune(s)`, `range` over a string and `WriteRune` read and write it, and
-- coreutils/text.go's `Tr` on it.
use go_core_mcp.Prelude.{
  ℕ, zero, suc, ◌+◌, ◌*◌, ◌/◌, ◌%◌, ◌≢◌, Bool, true, false, ◌&&◌, ◌||◌, List, [], ◌∷◌, ◌++◌, Option,
  none, some, Bytes, ltb, leb, ◌==◌, if◌then◌else◌, length, ◌<◌, inl, inr, Bool-cases, arith,
  ltb→lt,
}
use go_core_mcp.Outcome.{Outcome, ok, err, panic, ◌>>=◌, ok-ne-panic, >>=-ne-panic}
use go_core_mcp.Coreutils.Text.{TextError, empty_source, empty_target}

abbrev rune_error : ℕ
rune_error = 0xFFFD

between : ℕ → ℕ → ℕ → Bool
between lo hi b = leb lo b && leb b hi

-- The least and the greatest second byte behind the first byte `a` of three or four.
second_lo : ℕ → ℕ
second_lo a = if a == 0xE0 then 0xA0 else if a == 0xF0 then 0x90 else 0x80

second_hi : ℕ → ℕ
second_hi a = if a == 0xED then 0x9F else if a == 0xF4 then 0x8F else 0xBF

-- utf8.DecodeRuneInString on a text that is not empty: the rune, and the bytes behind the first
-- that belong to it. What is no encoding counts as one byte, and reads as U+FFFD.
pub decode_rune : ℕ → Bytes → ℕ × ℕ
unfolding between second_lo second_hi
decode_rune a [] = if ltb a 0x80 then (a, 0) else (rune_error, 0)
decode_rune a (b ∷ []) =
    if ltb a 0x80
    then (a, 0)
    else if between 0xC2 0xDF a && between 0x80 0xBF b
    then ((a % 0x20) * 0x40 + b % 0x40, 1)
    else (rune_error, 0)
decode_rune a (b ∷ c ∷ []) =
    if ltb a 0x80
    then (a, 0)
    else if between 0xC2 0xDF a && between 0x80 0xBF b
    then ((a % 0x20) * 0x40 + b % 0x40, 1)
    else if between 0xE0 0xEF a && between (second_lo a) (second_hi a) b && between 0x80 0xBF c
    then ((a % 0x10) * 0x1000 + (b % 0x40) * 0x40 + c % 0x40, 2)
    else (rune_error, 0)
decode_rune a (b ∷ c ∷ d ∷ s) =
    if ltb a 0x80
    then (a, 0)
    else if between 0xC2 0xDF a && between 0x80 0xBF b
    then ((a % 0x20) * 0x40 + b % 0x40, 1)
    else if between 0xE0 0xEF a && between (second_lo a) (second_hi a) b && between 0x80 0xBF c
    then ((a % 0x10) * 0x1000 + (b % 0x40) * 0x40 + c % 0x40, 2)
    else if between 0xF0 0xF4 a
        && between (second_lo a) (second_hi a) b
        && between 0x80 0xBF c
        && between 0x80 0xBF d
    then ((a % 0x08) * 0x40000 + (b % 0x40) * 0x1000 + (c % 0x40) * 0x40 + d % 0x40, 3)
    else (rune_error, 0)

runes_from : ℕ → Bytes → List ℕ
unfolding decode_rune
runes_from skip [] = []
runes_from (suc k) (c ∷ s) = runes_from k s
runes_from zero (c ∷ s) = let (r, more) = decode_rune c s in r ∷ runes_from more s

-- []rune(s)
unfoldable pub runes : Bytes → List ℕ
unfolding runes_from
runes s = runes_from 0 s

-- WriteRune; a number that is no rune is written as U+FFFD.
unfoldable pub encode_rune : ℕ → Bytes
unfolding between
encode_rune r =
    if ltb r 0x80
    then r ∷ []
    else if ltb r 0x800
    then (0xC0 + r / 0x40) ∷ (0x80 + r % 0x40) ∷ []
    else if between 0xD800 0xDFFF r || ltb 0x10FFFF r
    then 0xEF ∷ 0xBF ∷ 0xBD ∷ []
    else if ltb r 0x10000
    then (0xE0 + r / 0x1000) ∷ (0x80 + (r / 0x40) % 0x40) ∷ (0x80 + r % 0x40) ∷ []
    else (0xF0 + r / 0x40000)
      ∷ (0x80 + (r / 0x1000) % 0x40)
      ∷ (0x80 + (r / 0x40) % 0x40)
      ∷ (0x80 + r % 0x40)
      ∷ []

contains_rune : List ℕ → ℕ → Bool
contains_rune [] r = false
contains_rune (x ∷ xs) r = x == r || contains_rune xs r

delete_runes : List ℕ → List ℕ → Bytes
unfolding contains_rune encode_rune
delete_runes set [] = []
delete_runes set (r ∷ rs) =
    let rest = delete_runes set rs in if contains_rune set r then rest else encode_rune r ++ rest

-- target[index], which panics out of range
rune_at : List ℕ → ℕ → Outcome TextError ℕ
rune_at [] index = panic
rune_at (x ∷ xs) zero = ok x
rune_at (x ∷ xs) (suc index) = rune_at xs index

last_of : ℕ → List ℕ → ℕ
last_of x [] = x
last_of x (y ∷ ys) = last_of y ys

-- target[len(target)-1], of which the index is negative for no target
last_rune : List ℕ → Outcome TextError ℕ
unfolding last_of
last_rune [] = panic
last_rune (y ∷ ys) = ok (last_of y ys)

replacement_for : List ℕ → ℕ → Outcome TextError ℕ
unfolding rune_at last_rune
replacement_for target index =
    if ltb index (length target) then rune_at target index else last_rune target

-- The entries that the loop over `source` makes, from `index` on.
mapping_of : ℕ → List ℕ → List ℕ → Outcome TextError (List (ℕ × ℕ))
unfolding replacement_for
mapping_of index [] target = ok []
mapping_of index (x ∷ xs) target = do
  r ← replacement_for target index
  rest ← mapping_of (index + 1) xs target
  ok ((x, r) ∷ rest)

-- A rune that stands twice in the source has the later of its entries.
replacement : List (ℕ × ℕ) → ℕ → Option ℕ
replacement [] r = none
replacement ((x, y) ∷ rest) r = elim (replacement rest r) [
  | some later ↦ some later
  | none ↦ if x == r then some y else none
]

or_same : ℕ → Option ℕ → ℕ
or_same r none = r
or_same r (some x) = x

translate_runes : (ℕ → Option ℕ) → List ℕ → Bytes
unfolding encode_rune or_same
translate_runes mapping [] = []
translate_runes mapping (r ∷ rs) = encode_rune (or_same r (mapping r)) ++ translate_runes mapping rs

pub tr_runes : List ℕ → List ℕ → List ℕ → Bool → Outcome TextError Bytes
unfolding delete_runes translate_runes mapping_of replacement
tr_runes text [] to delete = err empty_source
tr_runes text (x ∷ xs) to true = ok (delete_runes (x ∷ xs) text)
tr_runes text (x ∷ xs) [] false = err empty_target
tr_runes text (x ∷ xs) (y ∷ ys) false = do
  mapping ← mapping_of 0 (x ∷ xs) (y ∷ ys)
  ok (translate_runes (replacement mapping) text)

unfoldable pub tr : Bytes → Bytes → Bytes → Bool → Outcome TextError Bytes
unfolding tr_runes runes
tr text from to delete = tr_runes (runes text) (runes from) (runes to) delete

rune_at-ne-panic :
    (target : List ℕ) (index : ℕ) → index < length target → rune_at target index ≢ panic
unfolding rune_at
rune_at-ne-panic [] index h = absurd (omega arith)
rune_at-ne-panic (x ∷ xs) zero h = ok-ne-panic x
rune_at-ne-panic (x ∷ xs) (suc index) h = rune_at-ne-panic xs index (omega arith)

-- There is a replacement for every index if there is a target at all.
replacement_for-ne-panic :
    (y : ℕ) (ys : List ℕ) (index : ℕ) → replacement_for (y ∷ ys) index ≢ panic
unfolding replacement_for last_rune
replacement_for-ne-panic y ys index = elim (Bool-cases (ltb index (length (y ∷ ys)))) [
  | inl e ↦ rw e (rune_at-ne-panic (y ∷ ys) index (ltb→lt _ _ e))
  | inr e ↦ rw e (ok-ne-panic _)
]

mapping_of-ne-panic :
    (index : ℕ) (source : List ℕ) (y : ℕ) (ys : List ℕ) → mapping_of index source (y ∷ ys) ≢ panic
unfolding mapping_of
mapping_of-ne-panic index [] y ys = ok-ne-panic []
mapping_of-ne-panic index (x ∷ xs) y ys =
    >>=-ne-panic (replacement_for (y ∷ ys) index) _ (replacement_for-ne-panic y ys index) λ r.
      >>=-ne-panic (mapping_of (index + 1) xs (y ∷ ys)) _ (mapping_of-ne-panic (index + 1) xs y ys)
        λ rest. ok-ne-panic _

pub tr_runes-ne-panic :
    (text from to : List ℕ) (delete : Bool) → tr_runes text from to delete ≢ panic
unfolding tr_runes
tr_runes-ne-panic text [] to delete = λ h. cc
tr_runes-ne-panic text (x ∷ xs) to true = ok-ne-panic _
tr_runes-ne-panic text (x ∷ xs) [] false = λ h. cc
tr_runes-ne-panic text (x ∷ xs) (y ∷ ys) false =
    >>=-ne-panic (mapping_of 0 (x ∷ xs) (y ∷ ys)) _ (mapping_of-ne-panic 0 (x ∷ xs) y ys)
      λ m. ok-ne-panic _
