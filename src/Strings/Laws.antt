-- ===== src/Strings/Laws.antt =====
-- What the other modules use of `split`, `join` and the prefix tests.
use mathlib.Core.List.{reverse, reverse-append, reverse-reverse}
use mathlib.Core.Path.{subst}
use native.Mathlib.Decide.{ℕ_discrete}
use go_core_mcp.Prelude.{
  ◌+◌, ◌⊎◌, ℕ, zero, suc, ◌-◌, ◌≡◌, All, All-append, ◌∙◌, ap, sym, ◌≢◌, refl, true, false, some,
  List, [], ◌∷◌, ◌++◌, append_assoc, append-nil, Bytes, arith, length, drop, Option-cases,
  Bool-cases, inl, inr,
}
use go_core_mcp.Strings.{
  strip_prefix, has_prefix, split_from, split, join, trim_suffix, has_suffix, count_byte,
}

pub strip_prefix_sound : (p s : Bytes) {r : Bytes} → strip_prefix p s ≡ some r → s ≡ p ++ r
unfolding strip_prefix
strip_prefix_sound [] s h = ground arith
strip_prefix_sound (x ∷ p) [] h = cc
strip_prefix_sound (x ∷ p) (c ∷ s) {r} h = ground (arith, strip_prefix_sound p s {r = r})

pub strip_prefix-append : (p r : Bytes) → strip_prefix p (p ++ r) ≡ some r
unfolding strip_prefix
strip_prefix-append [] r = refl
strip_prefix-append (x ∷ p) r = ground (arith, strip_prefix-append p r)

-- A text with a prefix is the prefix and a rest.
pub has_prefix_sound : (s p : Bytes) → has_prefix s p ≡ true → (r : Bytes) × (s ≡ p ++ r)
unfolding has_prefix
has_prefix_sound s p h = elim (Option-cases (strip_prefix p s)) [
  | inl e ↦ absurd (ground arith)
  | inr (r, e) ↦ (r, strip_prefix_sound p s e)
]

pub has_prefix-append : (p r : Bytes) → has_prefix (p ++ r) p ≡ true
unfolding has_prefix
has_prefix-append p r = rw (strip_prefix-append p r)

drop_append : (p r : Bytes) → drop (length p) (p ++ r) ≡ r
drop_append [] r = refl
drop_append (x ∷ p) r = drop_append p r

drop_prefix : (x : ℕ) (p r : Bytes) → drop (length (x ∷ p) - 1) (p ++ r) ≡ r
drop_prefix x p r = let e : length (x ∷ p) - 1 ≡ length p = omega arith in rw e (drop_append p r)

pub split_from-ne-nil : (sep : Bytes) (k : ℕ) (cur s : Bytes) → split_from sep k cur s ≢ []
unfolding split_from
split_from-ne-nil sep k cur [] h = cc
split_from-ne-nil sep (suc k) cur (c ∷ s) h = split_from-ne-nil sep k cur s h
split_from-ne-nil sep zero cur (c ∷ s) h =
    ground (arith, split_from-ne-nil sep zero (cur ++ c ∷ []) s)

join-cons :
    (p : Bytes) (ps : List Bytes) (sep : Bytes)
    → ps ≢ []
    → join (p ∷ ps) sep ≡ p ++ (sep ++ join ps sep)
unfolding join
join-cons p [] sep h = absurd (h refl)
join-cons p (q ∷ ps) sep h = refl

split_from-hit :
    (sep : Bytes) (cur : Bytes) (c : ℕ) (s : Bytes)
    → has_prefix (c ∷ s) sep ≡ true
    → split_from sep zero cur (c ∷ s) ≡ cur ∷ split_from sep (length sep - 1) [] s
unfolding split_from
split_from-hit sep cur c s h = ground arith

split_from-miss :
    (sep : Bytes) (cur : Bytes) (c : ℕ) (s : Bytes)
    → has_prefix (c ∷ s) sep ≡ false
    → split_from sep zero cur (c ∷ s) ≡ split_from sep zero (cur ++ c ∷ []) s
unfolding split_from
split_from-miss sep cur c s h = ground arith

pass_over :
    (x : ℕ) (p t s r : Bytes)
    → t ≡ (x ∷ p) ++ r
    → drop 1 t ≡ s
    → (x ∷ p) ++ drop (length (x ∷ p) - 1) s ≡ t
pass_over x p t s r e d =
    let tail : s ≡ p ++ r = sym d ∙ ap (drop 1) e in
    ap (λ u. (x ∷ p) ++ drop (length (x ∷ p) - 1) u) tail
    ∙ ap (λ u. (x ∷ p) ++ u) (drop_prefix x p r)
    ∙ sym e

-- The parts of the text that is still to be read, joined, are the current part and that text.
join-split_from :
    (x : ℕ) (p : Bytes) (k : ℕ) (cur s : Bytes)
    → join (split_from (x ∷ p) k cur s) (x ∷ p) ≡ cur ++ drop k s
unfolding split_from
join-split_from x p zero cur [] = unfold join in sym (append-nil cur)
join-split_from x p (suc k) cur [] = unfold join in sym (append-nil cur)
join-split_from x p (suc k) cur (c ∷ s) = join-split_from x p k cur s
join-split_from x p zero cur (c ∷ s) =
    let sep = x ∷ p in
    let after = join-split_from x p (length sep - 1) [] s in
    let onward = join-split_from x p zero (cur ++ c ∷ []) s in
    elim (Bool-cases (has_prefix (c ∷ s) sep)) [
      | inl found ↦
          let (r, e) = has_prefix_sound (c ∷ s) sep found in
          let rest = split_from sep (length sep - 1) [] s in
          ap (λ t. join t sep) (split_from-hit sep cur c s found)
          ∙ join-cons cur rest sep (split_from-ne-nil sep (length sep - 1) [] s)
          ∙ ap (λ t. cur ++ (sep ++ t)) after
          ∙ ap (λ t. cur ++ t) (pass_over x p (c ∷ s) s r e refl)
      | inr missing ↦
          ap (λ t. join t sep) (split_from-miss sep cur c s missing)
          ∙ onward
          ∙ append_assoc cur (c ∷ []) s
    ]

-- Joining the parts of a split gives the text back, for every separator that is not empty.
pub join-split : (s : Bytes) (sep : Bytes) → sep ≢ [] → join (split s sep) sep ≡ s
unfolding split
join-split s [] h = absurd (h refl)
join-split s (x ∷ p) h = join-split_from x p zero [] s

-- With a separator of one byte no part holds it.
abbrev pub Lacks : ℕ → Bytes → Type 0
Lacks b = All (λ c. c ≢ b)

split_byte-hit :
    (b : ℕ) (cur s : Bytes)
    → split_from (b ∷ []) zero cur (b ∷ s) ≡ cur ∷ split_from (b ∷ []) zero [] s
unfolding split_from has_prefix
split_byte-hit b cur s = ground arith

split_byte-miss :
    (b c : ℕ) (cur s : Bytes)
    → c ≢ b
    → split_from (b ∷ []) zero cur (c ∷ s) ≡ split_from (b ∷ []) zero (cur ++ c ∷ []) s
unfolding split_from has_prefix
split_byte-miss b c cur s h = ground arith

split_from-Lacks :
    (b : ℕ) (cur s : Bytes) → Lacks b cur → All (Lacks b) (split_from (b ∷ []) zero cur s)
split_from-Lacks b cur [] h = unfold split_from in (h, tt)
split_from-Lacks b cur (c ∷ s) h = elim (ℕ_discrete c b) [
  | yes e ↦
      subst (λ x. All (Lacks b) (split_from (b ∷ []) zero cur (x ∷ s))) (sym e)
        (rw (split_byte-hit b cur s) (h, split_from-Lacks b [] s tt))
  | no e ↦
      rw (split_byte-miss b c cur s e)
        (split_from-Lacks b (cur ++ c ∷ []) s (All-append (λ x. x ≢ b) cur (c ∷ []) h (e, tt)))
]

pub split-Lacks : (b : ℕ) (s : Bytes) → All (Lacks b) (split s (b ∷ []))
unfolding split
split-Lacks b s = split_from-Lacks b [] s tt

split_from-append :
    (b : ℕ) (cur p rest : Bytes)
    → Lacks b p
    → split_from (b ∷ []) zero cur (p ++ rest) ≡ split_from (b ∷ []) zero (cur ++ p) rest
split_from-append b cur [] rest h = rw append-nil
split_from-append b cur (c ∷ p) rest h =
    split_byte-miss b c cur (p ++ rest) h.0
    ∙ split_from-append b (cur ++ c ∷ []) p rest h.1
    ∙ ap (λ t. split_from (b ∷ []) zero t rest) (append_assoc cur (c ∷ []) p)

split_from-join :
    (b : ℕ) (p : Bytes) (ps : List Bytes)
    → Lacks b p
    → All (Lacks b) ps
    → split_from (b ∷ []) zero [] (join (p ∷ ps) (b ∷ [])) ≡ p ∷ ps
split_from-join b p [] h k =
    unfold join split_from in
    (ap (split_from (b ∷ []) zero []) (sym (append-nil p)) ∙ split_from-append b [] p [] h)
split_from-join b p (q ∷ ps) h k =
    ap (split_from (b ∷ []) zero []) (join-cons p (q ∷ ps) (b ∷ []) (λ e. cc))
    ∙ split_from-append b [] p (b ∷ join (q ∷ ps) (b ∷ [])) h
    ∙ split_byte-hit b p (join (q ∷ ps) (b ∷ []))
    ∙ ap (λ t. p ∷ t) (split_from-join b q ps k.0 k.1)

-- Splitting a join by one byte gives the parts back, if there is a part and none holds the byte.
pub split-join :
    (b : ℕ) (ps : List Bytes) → ps ≢ [] → All (Lacks b) ps → split (join ps (b ∷ [])) (b ∷ []) ≡ ps
unfolding split
split-join b [] h k = absurd (h refl)
split-join b (p ∷ ps) h k = split_from-join b p ps k.0 k.1

strip_suffix-append : (s p : Bytes) → strip_prefix (reverse p) (reverse (s ++ p)) ≡ some (reverse s)
strip_suffix-append s p =
    ap (strip_prefix (reverse p)) (reverse-append s p) ∙ strip_prefix-append (reverse p) (reverse s)

pub trim_suffix-append : (s p : Bytes) → trim_suffix (s ++ p) p ≡ s
unfolding trim_suffix
trim_suffix-append s p = rw (strip_suffix-append s p, trim_suffix) (reverse-reverse s)

-- A text ends in the suffix, which is cut off, or it is left as it is.
pub trim_suffix-cases :
    (s p : Bytes)
    → ((has_suffix s p ≡ true) × (s ≡ trim_suffix s p ++ p))
      ⊎ ((has_suffix s p ≡ false) × (trim_suffix s p ≡ s))
unfolding trim_suffix has_suffix has_prefix
trim_suffix-cases s p = elim (Option-cases (strip_prefix (reverse p) (reverse s))) [
  | inl e ↦ inr (rw e, rw (e, trim_suffix))
  | inr (r, e) ↦ inl (
    rw e,
    rw (e, trim_suffix)
        (sym (reverse-reverse s)
          ∙ ap reverse (strip_prefix_sound (reverse p) (reverse s) e)
          ∙ reverse-append (reverse p) r
          ∙ ap (λ t. reverse r ++ t) (reverse-reverse p)),
  )
]

pub count_byte-append :
    (s t : Bytes) (b : ℕ) → count_byte (s ++ t) b ≡ count_byte s b + count_byte t b
unfolding count_byte
count_byte-append [] t b = omega arith
count_byte-append (c ∷ s) t b = omega (arith, count_byte-append s t b)

length-split_from :
    (b : ℕ) (cur s : Bytes) → length (split_from (b ∷ []) zero cur s) ≡ 1 + count_byte s b
unfolding split_from has_prefix count_byte
length-split_from b cur [] = refl
length-split_from b cur (c ∷ s) =
    ground (arith, length-split_from b [] s, length-split_from b (cur ++ c ∷ []) s)

-- A separator of one byte cuts a text into one part more than it occurs.
pub length-split : (b : ℕ) (s : Bytes) → length (split s (b ∷ [])) ≡ 1 + count_byte s b
unfolding split
length-split b s = length-split_from b [] s

pub split-ne-nil : (b : ℕ) (s : Bytes) → split s (b ∷ []) ≢ []
unfolding split
split-ne-nil b s = split_from-ne-nil (b ∷ []) 0 [] s
