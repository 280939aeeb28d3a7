-- ===== src/Webutils/Search/Usable.antt =====
-- webutils/browser.go: the limits that `normalizeLimits` makes usable.
use go_core_mcp.Prelude.{◌≡◌, refl, inl, inr, false, Bool-cases, arith}
use go_core_mcp.Prelude.Int.{ℤ, pos, negsuc, ltb_ℤ, leb_ℤ}
use go_core_mcp.Webutils.Search.{Limits, or_default, at_most, normalize_limits}

abbrev pub IsPositive : ℤ → Type 0
IsPositive n = leb_ℤ n (pos 0) ≡ false

-- Every limit is positive, and what is used when nothing is asked for is within what may be asked for.
pub record AreUsable (l : Limits) : Type 0 where
  pub timeout : IsPositive l.timeout
  pub default_text : IsPositive l.default_max_text_chars
  pub most_text : IsPositive l.max_allowed_text_chars
  pub links : IsPositive l.max_links
  pub link_text : IsPositive l.max_link_text_chars
  pub default_results : IsPositive l.default_max_results
  pub most_results : IsPositive l.max_search_results
  pub redirects : IsPositive l.max_redirects
  pub screenshot : IsPositive l.max_screenshot_bytes
  pub text_within : ltb_ℤ l.max_allowed_text_chars l.default_max_text_chars ≡ false
  pub results_within : ltb_ℤ l.max_search_results l.default_max_results ≡ false

or_default-IsPositive : (d n : ℤ) → IsPositive d → IsPositive (or_default d n)
unfolding or_default
or_default-IsPositive d n h = elim (Bool-cases (leb_ℤ n (pos 0))) [
  | inl e ↦ rw e h
  | inr e ↦ rw e e
]

at_most-IsPositive : (m n : ℤ) → IsPositive m → IsPositive n → IsPositive (at_most m n)
unfolding at_most
at_most-IsPositive m n h k = elim (Bool-cases (ltb_ℤ m n)) [ inl e ↦ rw e h | inr e ↦ rw e k ]

ltb_ℤ-irreflexive : (m : ℤ) → ltb_ℤ m m ≡ false
ltb_ℤ-irreflexive (pos n) = ground arith
ltb_ℤ-irreflexive (negsuc n) = ground arith

at_most-within : (m n : ℤ) → ltb_ℤ m (at_most m n) ≡ false
unfolding at_most
at_most-within m n = elim (Bool-cases (ltb_ℤ m n)) [
  | inl e ↦ rw e (ltb_ℤ-irreflexive m)
  | inr e ↦ rw e e
]

normalize_limits-usable : (l : Limits) → AreUsable (normalize_limits l)
unfolding normalize_limits
normalize_limits-usable l =
    let positive = or_default-IsPositive in
    let most_text = positive (pos 12000) l.max_allowed_text_chars refl in
    let most_results = positive (pos 10) l.max_search_results refl in
    record {
      timeout = positive (pos 20000000000) l.timeout refl;
      default_text =
          at_most-IsPositive (or_default (pos 12000) l.max_allowed_text_chars)
            (or_default (pos 4000) l.default_max_text_chars) most_text
            (positive (pos 4000) l.default_max_text_chars refl);
      most_text = most_text;
      links = positive (pos 40) l.max_links refl;
      link_text = positive (pos 200) l.max_link_text_chars refl;
      default_results =
          at_most-IsPositive (or_default (pos 10) l.max_search_results)
            (or_default (pos 5) l.default_max_results) most_results
            (positive (pos 5) l.default_max_results refl);
      most_results = most_results;
      redirects = positive (pos 8) l.max_redirects refl;
      screenshot = positive (pos 1048576) l.max_screenshot_bytes refl;
      text_within =
          at_most-within (or_default (pos 12000) l.max_allowed_text_chars)
            (or_default (pos 4000) l.default_max_text_chars);
      results_within =
          at_most-within (or_default (pos 10) l.max_search_results)
            (or_default (pos 5) l.default_max_results);
    }

or_default-same : (d n : ℤ) → IsPositive n → or_default d n ≡ n
unfolding or_default
or_default-same d n h = rw h refl

at_most-same : (m n : ℤ) → ltb_ℤ m n ≡ false → at_most m n ≡ n
unfolding at_most
at_most-same m n h = rw h refl

usable_same : (l : Limits) → AreUsable l → normalize_limits l ≡ l
unfolding normalize_limits
usable_same l u =
    rw
      (
        or_default-same (pos 20000000000) l.timeout u.timeout,
        or_default-same (pos 12000) l.max_allowed_text_chars u.most_text,
        or_default-same (pos 4000) l.default_max_text_chars u.default_text,
        or_default-same (pos 40) l.max_links u.links,
        or_default-same (pos 200) l.max_link_text_chars u.link_text,
        or_default-same (pos 5) l.default_max_results u.default_results,
        or_default-same (pos 10) l.max_search_results u.most_results,
        or_default-same (pos 8) l.max_redirects u.redirects,
        or_default-same (pos 1048576) l.max_screenshot_bytes u.screenshot,
        at_most-same l.max_allowed_text_chars l.default_max_text_chars u.text_within,
        at_most-same l.max_search_results l.default_max_results u.results_within,
      )
      refl

-- Whatever limits are given, those that `normalizeLimits` makes of them are positive, the defaults
-- within the most that is allowed; and it changes nothing when it is called again, as `Browse` and
-- `Search` do on the limits of `NewChromiumBrowser`.
pub normalize_limits-AreUsable :
    (l : Limits)
    → AreUsable (normalize_limits l) × (normalize_limits (normalize_limits l) ≡ normalize_limits l)
normalize_limits-AreUsable l =
    (normalize_limits-usable l, usable_same (normalize_limits l) (normalize_limits-usable l))
