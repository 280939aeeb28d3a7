-- ===== src/Strings/Numbers.antt =====
-- strconv.Atoi and strconv.Itoa on 64-bit integers, and `fmt`'s `%7d`.
use go_core_mcp.Prelude.{
  ℕ, zero, suc, ◌+◌, ◌-◌, ◌*◌, ◌/◌, ◌%◌, ◌^◌, Bool, true, false, ◌&&◌, [], ◌∷◌, Bytes, ltb, leb,
  ◌==◌, if◌then◌else◌, length,
}
use go_core_mcp.Prelude.Int.{ℤ, pos, sub_ℕ}

-- What strconv.ParseUint does with decimal digits: a value below 2^64, a byte that is no digit, or
-- a value that does not fit, which is noticed at the digit that makes it too large.
pub data Scan : Type 0 where
  value : ℕ → Scan
  syntax out_of_range : Scan

scan_digits : ℕ → Bytes → Scan
scan_digits n [] = value n
scan_digits n (c ∷ s) =
    if leb b'0' c && leb c b'9'
    then (if ltb (n * 10 + (c - b'0')) (2 ^ 64)
        then scan_digits (n * 10 + (c - b'0')) s
        else out_of_range)
    else syntax

scan : Bytes → Scan
unfolding scan_digits
scan [] = syntax
scan (c ∷ s) = scan_digits 0 (c ∷ s)

-- The value and whether there is no error; a value out of range is the nearest int64.
positive : Scan → ℤ × Bool
positive (value n) = if ltb n (2 ^ 63) then (pos n, true) else (pos (2 ^ 63 - 1), false)
positive syntax = (pos 0, false)
positive out_of_range = (pos (2 ^ 63 - 1), false)

negative : Scan → ℤ × Bool
negative (value n) = if leb n (2 ^ 63) then (sub_ℕ 0 n, true) else (sub_ℕ 0 (2 ^ 63), false)
negative syntax = (pos 0, false)
negative out_of_range = (sub_ℕ 0 (2 ^ 63), false)

-- strconv.Atoi
unfoldable pub atoi : Bytes → ℤ × Bool
unfolding scan positive negative
atoi [] = (pos 0, false)
atoi (c ∷ s) =
    if c == b'-'
    then negative (scan s)
    else if c == b'+'
    then positive (scan s)
    else positive (scan (c ∷ s))

-- The decimal digits of `n` in front of `out`. Each round divides by ten, so `n + 1` rounds do.
digits : ℕ → ℕ → Bytes → Bytes
digits zero n out = out
digits (suc fuel) n out =
    let rest = digits fuel (n / 10) ((b'0' + n % 10) ∷ out) in
    if ltb n 10 then (b'0' + n) ∷ out else rest

-- strconv.Itoa of an integer that is not negative
unfoldable pub itoa : ℕ → Bytes
unfolding digits
itoa n = digits (n + 1) n []

pad : ℕ → Bytes → Bytes
pad zero s = s
pad (suc k) s = b' ' ∷ pad k s

-- fmt.Sprintf("%7d", n)
unfoldable pub width7 : ℕ → Bytes
unfolding itoa pad
width7 n = pad (7 - length (itoa n)) (itoa n)
