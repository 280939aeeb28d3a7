-- ===== src/Webutils/Search/Results.antt =====
-- webutils/browser.go: which links a search returns.
use mathlib.Core.Path.{subst}
use go_core_mcp.Prelude.{
  ℕ, ◌+◌, ◌≤◌, ◌≡◌, refl, sym, ap, inl, inr, Bool, true, false, ◌||◌, or-false, leb-false, List, [],
  ◌∷◌, ◌++◌, map, map-append, Bytes, bytes_eq, mem, arith, length, length-append, All, All-append,
  Bool-cases,
}
use go_core_mcp.Prelude.Int.{ℤ, pos, leb_ℤ}
use go_core_mcp.Outcome.{Outcome, ok, err, panic, ok_inj}
use go_core_mcp.Strings.{trim_space}
use go_core_mcp.Client.Catalog.{Distinct, Distinct-last}
use go_core_mcp.Webutils.Policy.{Net, Url, UrlError, validate_and_resolve_url}
use go_core_mcp.Webutils.Search.{
  RawResult, Link, is_allowed, link_of, is_skipped, collect, normalize_search_links, room_for,
}

-- The links are numbered from `n` on.
abbrev pub Ranked : ℕ → List Link → Type 0
Ranked n [] = Unit
Ranked n (l ∷ ls) = (l.rank ≡ n) × Ranked (n + 1) ls

module _ (net : Net) (most : ℕ) (max_text_chars : ℤ) where
  -- The policy allows the URL.
  abbrev pub IsOpen : Link → Type 0
  IsOpen l = (u : Url) × (validate_and_resolve_url net l.url ≡ ok u)

  -- At most so many links, with URLs that the policy allows, no two the same, numbered from 1.
  pub record AreResults (links : List Link) : Type 0 where
    pub few : length links ≤ most
    pub allowed : All IsOpen links
    pub distinct : Distinct (map (λ l. l.url) links)
    pub ranked : Ranked 1 links

  is_allowed_sound : (r : Outcome UrlError Url) → is_allowed r ≡ true → (u : Url) × (r ≡ ok u)
  unfolding is_allowed
  is_allowed_sound (ok u) h = (u, refl)
  is_allowed_sound (err e) h = cc
  is_allowed_sound panic h = cc

  is_skipped_sound :
      (links : List Link) (url : Bytes)
      → is_skipped net (pos most) max_text_chars links url ≡ false
      → (mem url (map (λ l. l.url) links) ≡ false)
        × ((u : Url) × (validate_and_resolve_url net url ≡ ok u))
  unfolding is_skipped
  is_skipped_sound links url h =
      elim (Bool-cases (bytes_eq url [] || mem url (map (λ l. l.url) links))) [
        | inl e ↦ cc (rw (is_skipped, e) at h)
        | inr e ↦ elim (Bool-cases (is_allowed (validate_and_resolve_url net url))) [
          | inr f ↦ cc (rw (is_skipped, e, f) at h)
          | inl f ↦ ((or-false _ _ e).1, is_allowed_sound (validate_and_resolve_url net url) f)
        ]
      ]

  Ranked-last :
      (n : ℕ) (ls : List Link) (l : Link)
      → Ranked n ls
      → l.rank ≡ length ls + n
      → Ranked n (ls ++ l ∷ [])
  Ranked-last n [] l h e = (omega (arith, e), tt)
  Ranked-last n (m ∷ ls) l h e = (h.0, Ranked-last (n + 1) ls l h.1 (omega (arith, e)))

  added :
      (links : List Link) (link : Link)
      → AreResults links
      → leb_ℤ (pos most) (pos (length links)) ≡ false
      → mem link.url (map (λ l. l.url) links) ≡ false
      → IsOpen link
      → link.rank ≡ length links + 1
      → AreResults (links ++ link ∷ [])
  added links link r room new passes rank = record {
    few =
        subst (λ k. k ≤ most) (sym (length-append links (link ∷ [])))
          (omega (arith, leb-false _ _ room));
    allowed = All-append IsOpen links (link ∷ []) r.allowed (passes, tt);
    distinct =
        subst Distinct (sym (map-append (λ l. l.url) links (link ∷ [])))
          (Distinct-last link.url (map (λ l. l.url) links) r.distinct new);
    ranked = Ranked-last 1 links link r.ranked rank;
  }

  collect-AreResults :
      (items : List RawResult) (links : List Link) (truncated : Bool)
      → AreResults links
      → AreResults (collect net (pos most) max_text_chars items links truncated).0
  unfolding collect link_of
  collect-AreResults [] links truncated r = r
  collect-AreResults (item ∷ items) links truncated r =
      elim (Bool-cases (leb_ℤ (pos most) (pos (length links)))) [
        | inl e ↦ rw (collect, e) r
        | inr room ↦
            elim (Bool-cases
              (is_skipped net (pos most) max_text_chars links (trim_space item.url))) [
                | inl e ↦ rw (collect, room, e) (collect-AreResults items links truncated r)
                | inr e ↦
                    let (new, passes) = is_skipped_sound links (trim_space item.url) e in
                    let (link, cut) =
                      link_of net (pos most) max_text_chars item (trim_space item.url)
                        (length links + 1) in
                    rw (collect, room, e)
                      (collect-AreResults items (links ++ link ∷ []) (truncated || cut)
                        (added links link r room new passes refl))
              ]
      ]

  -- A search returns at most as many links as it may, each with a URL that the policy on addresses
  -- allows, no URL twice, and ranked from 1 in order.
  pub normalize_search_links-AreResults :
      (raw : List RawResult) {links : List Link} {truncated : Bool}
      → normalize_search_links net (pos most) max_text_chars raw ≡ ok (links, truncated)
      → AreResults links
  unfolding normalize_search_links room_for
  normalize_search_links-AreResults raw h = subst AreResults (ap (λ p. p.0) (ok_inj h)) (
      collect-AreResults raw [] false
        (record { few = omega arith; allowed = tt; distinct = tt; ranked = tt }))
