-- ===== src/Strings.antt =====
-- The functions of Go's packages `strings` and `path/filepath` that the program calls, over bytes:
-- prefixes and suffixes, `Contains`, `Split`, `Join`, `TrimSpace`, the word count of `Fields`.
pub mod Laws
pub mod Paths
pub mod Numbers
use mathlib.Core.List.{reverse}
use go_core_mcp.Prelude.{
  ℕ, zero, suc, ◌+◌, ◌-◌, Bool, true, false, ◌||◌, Option, none, some, List, [], ◌∷◌, ◌++◌, map,
  Bytes, ◌==◌, if◌then◌else◌, length,
}

-- What follows a prefix.
unfoldable pub strip_prefix : Bytes → Bytes → Option Bytes
strip_prefix [] s = some s
strip_prefix (p ∷ ps) [] = none
strip_prefix (p ∷ ps) (c ∷ s) = if p == c then strip_prefix ps s else none

abbrev pub is_some {ℓ} : {A : Type ℓ} → Option A → Bool
is_some none = false
is_some (some a) = true

-- strings.HasPrefix(s, prefix)
unfoldable pub has_prefix : Bytes → Bytes → Bool
unfolding strip_prefix
has_prefix s p = is_some (strip_prefix p s)

-- strings.HasSuffix(s, suffix)
unfoldable pub has_suffix : Bytes → Bytes → Bool
unfolding has_prefix
has_suffix s p = has_prefix (reverse s) (reverse p)

-- strings.TrimSuffix(s, suffix)
unfoldable pub trim_suffix : Bytes → Bytes → Bytes
unfolding strip_prefix
trim_suffix s p = elim (strip_prefix (reverse p) (reverse s)) [ none ↦ s | some r ↦ reverse r ]

-- strings.Contains(s, needle)
unfoldable pub contains : Bytes → Bytes → Bool
unfolding has_prefix
contains [] p = has_prefix [] p
contains (c ∷ s) p = has_prefix (c ∷ s) p || contains s p

-- strings.ContainsRune(s, r) for an ASCII r
unfoldable pub contains_byte : Bytes → ℕ → Bool
contains_byte [] b = false
contains_byte (c ∷ s) b = c == b || contains_byte s b

-- strings.Split(s, sep) for a `sep` that is not empty. `skip` counts the bytes of a separator that
-- was found and is still to be passed over, `cur` is the part that is being read.
unfoldable pub split_from : Bytes → ℕ → Bytes → Bytes → List Bytes
unfolding has_prefix
split_from sep skip cur [] = cur ∷ []
split_from sep (suc k) cur (c ∷ s) = split_from sep k cur s
split_from sep zero cur (c ∷ s) = elim (has_prefix (c ∷ s) sep) [
  | true ↦ cur ∷ split_from sep (length sep - 1) [] s
  | false ↦ split_from sep zero (cur ++ c ∷ []) s
]

unfoldable pub split : Bytes → Bytes → List Bytes
unfolding split_from
split s sep = split_from sep zero [] s

-- strings.Join(parts, sep)
unfoldable pub join : List Bytes → Bytes → Bytes
join [] sep = []
join (p ∷ []) sep = p
join (p ∷ q ∷ ps) sep = p ++ (sep ++ join (q ∷ ps) sep)

-- The UTF-8 encodings of the runes that `unicode.IsSpace` accepts.
spaces : List Bytes
spaces =
    (9 ∷ [])
    ∷ (10 ∷ [])
    ∷ (11 ∷ [])
    ∷ (12 ∷ [])
    ∷ (13 ∷ [])
    ∷ (32 ∷ [])
    ∷ (0xC2 ∷ 0x85 ∷ [])
    ∷ (0xC2 ∷ 0xA0 ∷ [])
    ∷ (0xE1 ∷ 0x9A ∷ 0x80 ∷ [])
    ∷ (0xE2 ∷ 0x80 ∷ 0x80 ∷ [])
    ∷ (0xE2 ∷ 0x80 ∷ 0x81 ∷ [])
    ∷ (0xE2 ∷ 0x80 ∷ 0x82 ∷ [])
    ∷ (0xE2 ∷ 0x80 ∷ 0x83 ∷ [])
    ∷ (0xE2 ∷ 0x80 ∷ 0x84 ∷ [])
    ∷ (0xE2 ∷ 0x80 ∷ 0x85 ∷ [])
    ∷ (0xE2 ∷ 0x80 ∷ 0x86 ∷ [])
    ∷ (0xE2 ∷ 0x80 ∷ 0x87 ∷ [])
    ∷ (0xE2 ∷ 0x80 ∷ 0x88 ∷ [])
    ∷ (0xE2 ∷ 0x80 ∷ 0x89 ∷ [])
    ∷ (0xE2 ∷ 0x80 ∷ 0x8A ∷ [])
    ∷ (0xE2 ∷ 0x80 ∷ 0xA8 ∷ [])
    ∷ (0xE2 ∷ 0x80 ∷ 0xA9 ∷ [])
    ∷ (0xE2 ∷ 0x80 ∷ 0xAF ∷ [])
    ∷ (0xE2 ∷ 0x81 ∷ 0x9F ∷ [])
    ∷ (0xE3 ∷ 0x80 ∷ 0x80 ∷ [])
    ∷ []

-- The length of the first of `codes` that the text begins with, 0 if it begins with none.
leading : List Bytes → Bytes → ℕ
unfolding has_prefix
leading [] s = 0
leading (w ∷ ws) s = if has_prefix s w then length w else leading ws s

-- Drops leading runes of `codes`; `skip` bytes of one that was found are still to be dropped.
trim_front : List Bytes → ℕ → Bytes → Bytes
unfolding leading
trim_front ws skip [] = []
trim_front ws (suc k) (c ∷ s) = trim_front ws k s
trim_front ws zero (c ∷ s) = elim (leading ws (c ∷ s)) [ zero ↦ c ∷ s | suc k ↦ trim_front ws k s ]

-- strings.TrimSpace. At the end the encodings are read backwards.
unfoldable pub trim_space : Bytes → Bytes
unfolding trim_front spaces
trim_space s = reverse (trim_front (map reverse spaces) 0 (reverse (trim_front spaces 0 s)))

-- strings.TrimRight(s, c) for one ASCII byte
trim_byte : ℕ → Bytes → Bytes
trim_byte b [] = []
trim_byte b (c ∷ s) = elim (c == b) [ true ↦ trim_byte b s | false ↦ c ∷ s ]

unfoldable pub trim_right : Bytes → ℕ → Bytes
unfolding trim_byte
trim_right s b = reverse (trim_byte b (reverse s))

-- len(strings.Fields(s)): `inside` says whether the byte before belongs to a word.
count_words : ℕ → Bool → Bytes → ℕ
unfolding leading spaces
count_words skip inside [] = 0
count_words (suc k) inside (c ∷ s) = count_words k inside s
count_words zero inside (c ∷ s) = elim (leading spaces (c ∷ s)) [
  | zero ↦ (if inside then 0 else 1) + count_words zero true s
  | suc k ↦ count_words k false s
]

unfoldable pub fields_count : Bytes → ℕ
unfolding count_words
fields_count s = count_words 0 false s

-- strings.Count(s, c) for one byte
unfoldable pub count_byte : Bytes → ℕ → ℕ
count_byte [] b = 0
count_byte (c ∷ s) b = (if c == b then 1 else 0) + count_byte s b
