-- ===== src/Strings/Paths/Laws.antt =====
-- A cleaned relative path climbs only at its front.
use mathlib.Core.List.{reverse, reverse-append, reverse-cons, concat-ne-nil}
use go_core_mcp.Prelude.{
  ◌≡◌, ◌≢◌, refl, sym, ◌∙◌, ap, true, false, ◌||◌, inl, inr, List, [], ◌∷◌, ◌++◌, Bytes, bytes_eq,
  bytes_eq_iff, arith, if◌then◌else◌, All, All-append, append-nil, Bool-cases,
}
use go_core_mcp.Strings.{has_prefix, split, join}
use go_core_mcp.Strings.Laws.{has_prefix-append}
use go_core_mcp.Strings.Paths.{
  slash, dot, dot_dot, is_abs, up, clean_parts, names_of, render, clean,
}

-- No name is `..`.
abbrev pub NoParent : List Bytes → Type 0
NoParent = All (λ n. n ≢ dot_dot)

-- Names in reverse order: those that are no `..` first, then nothing but `..`.
abbrev Climbs : List Bytes → Type 0
Climbs = All (λ n. n ≡ dot_dot)

abbrev IsStack : List Bytes → Type 0
IsStack names =
    (kept : List Bytes) × (dots : List Bytes) × (names ≡ kept ++ dots) × NoParent kept × Climbs dots

up-IsStack : (names : List Bytes) → IsStack names → IsStack (up false names)
unfolding up
up-IsStack names ([], [], e, k, d) = rw e ([], dot_dot ∷ [], refl, tt, (refl, tt))
up-IsStack names ([], x ∷ dots, e, k, d) = rw e (
    let same : bytes_eq x dot_dot ≡ true = (bytes_eq_iff x dot_dot).1 d.0 in
    rw (same, up) ([], dot_dot ∷ x ∷ dots, refl, tt, (refl, d)))
up-IsStack names (x ∷ kept, dots, e, k, d) = rw e (
    let other : bytes_eq x dot_dot ≡ false = ground (arith, bytes_eq_iff x dot_dot) in
    rw (other, up) (kept, dots, refl, k.1, d))

-- One part, as the loop of `clean_parts` takes it.
abbrev take_part : List Bytes → Bytes → List Bytes
take_part names p =
    if bytes_eq p [] || bytes_eq p dot
    then names
    else if bytes_eq p dot_dot
    then up false names
    else p ∷ names

take_part-IsStack : (names : List Bytes) (p : Bytes) → IsStack names → IsStack (take_part names p)
take_part-IsStack names p s = elim (Bool-cases (bytes_eq p [] || bytes_eq p dot)) [
  | inl e ↦ rw e s
  | inr e ↦ elim (Bool-cases (bytes_eq p dot_dot)) [
    | inl f ↦ rw (e, f) (up-IsStack names s)
    | inr f ↦
        let fresh : p ≢ dot_dot = λ q. cc ((bytes_eq_iff p dot_dot).1 q) in
        rw (e, f) (p ∷ s.0, s.1, ap (λ t. p ∷ t) s.2, (fresh, s.3), s.4)
  ]
]

clean_parts-IsStack :
    (names parts : List Bytes) → IsStack names → IsStack (clean_parts false names parts)
unfolding clean_parts
clean_parts-IsStack names [] s = s
clean_parts-IsStack names (p ∷ ps) s =
    clean_parts-IsStack (take_part names p) ps (take_part-IsStack names p s)

pub All-reverse : {A : Type 0} (P : A → Type 0) (xs : List A) → All P xs → All P (reverse xs)
All-reverse P [] h = tt
All-reverse P (x ∷ xs) h =
    rw (reverse-cons x xs) (All-append P (reverse xs) (x ∷ []) (All-reverse P xs h.1) (h.0, tt))

reverse-ne-nil : {A : Type 0} (x : A) (xs : List A) → reverse (x ∷ xs) ≢ []
reverse-ne-nil x xs = rw (reverse-cons x xs) (concat-ne-nil x (reverse xs))

-- A cleaned path whose first name is `..` is `..` or starts with `../`.
render_climbs :
    (n : Bytes) (ns : List Bytes)
    → n ≡ dot_dot
    → bytes_eq (render false (n ∷ ns)) dot_dot ≡ false
    → has_prefix (render false (n ∷ ns)) (dot_dot ++ slash) ≡ true
unfolding render join
render_climbs n [] e h = absurd (cc ((bytes_eq_iff n dot_dot).1 e))
render_climbs n (m ∷ ns) e h =
    let path = join (n ∷ m ∷ ns) slash in
    rw e (has_prefix-append (dot_dot ++ slash) (join (m ∷ ns) slash))

climbing_first :
    (r rest : List Bytes)
    → r ≢ []
    → Climbs r
    → bytes_eq (render false (r ++ rest)) dot_dot ≡ false
    → has_prefix (render false (r ++ rest)) (dot_dot ++ slash) ≡ false
    → ⊥
climbing_first [] rest h c e f = h refl
climbing_first (n ∷ ns) rest h c e f = cc (render_climbs n (ns ++ rest) c.0 e)

stack-NoParent :
    (names : List Bytes)
    → IsStack names
    → bytes_eq (render false (reverse names)) dot_dot ≡ false
    → has_prefix (render false (reverse names)) (dot_dot ++ slash) ≡ false
    → NoParent (reverse names)
stack-NoParent names (kept, [], e, k, d) f g =
    rw (e, append-nil) (All-reverse (λ n. n ≢ dot_dot) kept k)
stack-NoParent names (kept, x ∷ dots, e, k, d) f g =
    let whole : reverse names ≡ reverse (x ∷ dots) ++ reverse kept =
      ap reverse e ∙ reverse-append kept (x ∷ dots) in
    absurd (
      climbing_first (reverse (x ∷ dots)) (reverse kept) (reverse-ne-nil x dots)
        (All-reverse (λ n. n ≡ dot_dot) (x ∷ dots) d)
        (ap (λ t. bytes_eq (render false t) dot_dot) (sym whole) ∙ f)
        (ap (λ t. has_prefix (render false t) (dot_dot ++ slash)) (sym whole) ∙ g))

names_of-relative :
    (path : Bytes)
    → is_abs path ≡ false
    → names_of path ≡ reverse (clean_parts false [] (split path slash))
unfolding names_of
names_of-relative path h = rw h

clean-relative :
    (path : Bytes)
    → is_abs path ≡ false
    → clean path ≡ render false (reverse (clean_parts false [] (split path slash)))
unfolding clean
clean-relative path h = rw (h, names_of-relative path h)

-- A path that is not absolute, and that is neither `..` nor starts with `../` when it is cleaned,
-- has no `..` among the names that are left of it.
pub names_of-NoParent :
    (path : Bytes)
    → is_abs path ≡ false
    → bytes_eq (clean path) dot_dot ≡ false
    → has_prefix (clean path) (dot_dot ++ slash) ≡ false
    → NoParent (names_of path)
names_of-NoParent path relative h k =
    let cleaned = clean-relative path relative in
    rw (names_of-relative path relative) (
      stack-NoParent (clean_parts false [] (split path slash))
        (clean_parts-IsStack [] (split path slash) ([], [], refl, tt, tt))
        (ap (λ t. bytes_eq t dot_dot) (sym cleaned) ∙ h)
        (ap (λ t. has_prefix t (dot_dot ++ slash)) (sym cleaned) ∙ k))
