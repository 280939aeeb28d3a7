-- ===== src/Webutils/Search.antt =====
-- webutils/browser.go: the limits of a browser, and the links of a search. The pages themselves are
-- the business of Chromium.
pub mod Results
pub mod Usable
use go_core_mcp.Prelude.{
  ℕ, zero, suc, ◌+◌, Bool, true, false, ◌||◌, Option, none, some, List, [], ◌∷◌, ◌++◌, map, Bytes,
  lit, bytes_eq, mem, if◌then◌else◌, length,
}
use go_core_mcp.Prelude.Int.{ℤ, pos, negsuc, ltb_ℤ, leb_ℤ}
use go_core_mcp.Outcome.{Outcome, ok, err, panic}
use go_core_mcp.Strings.{trim_space}
use go_core_mcp.Coreutils.Runes.{decode_rune}
use go_core_mcp.Webutils.Policy.{Net, Url, UrlError, validate_and_resolve_url}

-- `Limits`, the time in nanoseconds
pub record Limits : Type 0 where
  pub timeout : ℤ
  pub default_max_text_chars : ℤ
  pub max_allowed_text_chars : ℤ
  pub max_links : ℤ
  pub max_link_text_chars : ℤ
  pub default_max_results : ℤ
  pub max_search_results : ℤ
  pub max_redirects : ℤ
  pub max_screenshot_bytes : ℤ

-- `DefaultLimits`
abbrev pub default_limits : Limits
default_limits = record {
  timeout = pos 20000000000;
  default_max_text_chars = pos 4000;
  max_allowed_text_chars = pos 12000;
  max_links = pos 40;
  max_link_text_chars = pos 200;
  default_max_results = pos 5;
  max_search_results = pos 10;
  max_redirects = pos 8;
  max_screenshot_bytes = pos 1048576;
}

-- A limit that is not positive is replaced.
pub or_default : ℤ → ℤ → ℤ
or_default fallback n = if leb_ℤ n (pos 0) then fallback else n

pub at_most : ℤ → ℤ → ℤ
at_most most n = if ltb_ℤ most n then most else n

-- `normalizeLimits`
unfoldable pub normalize_limits : Limits → Limits
unfolding or_default at_most
normalize_limits l =
    let most_text = or_default default_limits.max_allowed_text_chars l.max_allowed_text_chars in
    let most_results = or_default default_limits.max_search_results l.max_search_results in
    record {
      timeout = or_default default_limits.timeout l.timeout;
      default_max_text_chars =
          at_most most_text
            (or_default default_limits.default_max_text_chars l.default_max_text_chars);
      max_allowed_text_chars = most_text;
      max_links = or_default default_limits.max_links l.max_links;
      max_link_text_chars = or_default default_limits.max_link_text_chars l.max_link_text_chars;
      default_max_results =
          at_most most_results
            (or_default default_limits.default_max_results l.default_max_results);
      max_search_results = most_results;
      max_redirects = or_default default_limits.max_redirects l.max_redirects;
      max_screenshot_bytes = or_default default_limits.max_screenshot_bytes l.max_screenshot_bytes;
    }

-- The first `left` runes, of which `skip` bytes of the one before are still to come.
clamp_runes : ℕ → ℕ → Bytes → Bytes × Bool
clamp_runes left skip [] = ([], false)
clamp_runes left (suc skip) (c ∷ s) = let (kept, cut) = clamp_runes left skip s in (c ∷ kept, cut)
clamp_runes zero zero (c ∷ s) = ([], true)
clamp_runes (suc left) zero (c ∷ s) =
    let (r, more) = decode_rune c s in let (kept, cut) = clamp_runes left more s in (c ∷ kept, cut)

-- `clampString`
unfoldable pub clamp_string : Bytes → ℤ → Bytes × Bool
unfolding clamp_runes
clamp_string value (negsuc n) = (value, false)
clamp_string value (pos zero) = (value, false)
clamp_string value (pos (suc n)) = clamp_runes (suc n) 0 value

-- One entry of what the page's script collects; a key that is missing reads as the empty text.
pub record RawResult : Type 0 where
  pub url : Bytes
  pub title : Bytes
  pub snippet : Bytes
  pub source : Bytes

pub record Link : Type 0 where
  pub text : Bytes
  pub url : Bytes
  pub rank : ℕ
  pub source : Bytes

-- " — ", in UTF-8
abbrev dash : Bytes
dash = 32 ∷ 226 ∷ 128 ∷ 148 ∷ 32 ∷ []

-- The text of a link: its title and its snippet, as far as there are such, or else its URL.
link_text : Bytes → Bytes → Bytes → Bytes
link_text [] [] url = url
link_text [] (c ∷ snippet) url = c ∷ snippet
link_text (t ∷ title) [] url = t ∷ title
link_text (t ∷ title) (c ∷ snippet) url = (t ∷ title) ++ (dash ++ (c ∷ snippet))

is_allowed : Outcome UrlError Url → Bool
is_allowed (ok url) = true
is_allowed (err e) = false
is_allowed panic = false

-- `make([]Link, 0, maxResults)`
room_for : ℤ → Outcome UrlError (Unit {0})
room_for (pos n) = ok tt
room_for (negsuc n) = panic

module _ (net : Net) (max_results max_text_chars : ℤ) where
  -- The link of an entry whose URL is `url`, and whether its title or its snippet was cut.
  link_of : RawResult → Bytes → ℕ → Link × Bool
  unfolding link_text
  link_of item url rank =
      let (title, title_cut) = clamp_string (trim_space item.title) max_text_chars in
      let (snippet, snippet_cut) = clamp_string (trim_space item.snippet) max_text_chars in
      let (source, _) = clamp_string (trim_space item.source) (pos 40) in
      (
        record {
          text = link_text (trim_space title) snippet url;
          url = url;
          rank = rank;
          source = source;
        },
        title_cut || snippet_cut,
      )

  -- An entry that is left out: it has no URL, or one that was seen, or one that is not allowed.
  is_skipped : List Link → Bytes → Bool
  unfolding bytes_eq mem is_allowed
  is_skipped links url =
      if bytes_eq url [] || mem url (map (λ l. l.url) links)
      then true
      else if is_allowed (validate_and_resolve_url net url)
      then false
      else true

  -- The loop over the entries; the keys of `seen` are the URLs of the links so far.
  collect : List RawResult → List Link → Bool → List Link × Bool
  unfolding link_of is_skipped
  collect [] links truncated = (links, truncated)
  collect (item ∷ items) links truncated =
      let url = trim_space item.url in
      let (link, cut) = link_of item url (length links + 1) in
      elim (leb_ℤ max_results (pos (length links))) [
        | true ↦ (links, true)
        | false ↦ elim (is_skipped links url) [
          | true ↦ collect items links truncated
          | false ↦ collect items (links ++ link ∷ []) (truncated || cut)
        ]
      ]

  -- `normalizeSearchLinks`
  unfoldable pub normalize_search_links : List RawResult → Outcome UrlError (List Link × Bool)
  unfolding room_for collect
  normalize_search_links raw = elim (room_for max_results) [
    | ok u ↦ ok (collect raw [] false)
    | err e ↦ err e
    | panic ↦ panic
  ]

-- `normalizeSearchEngine` with strings.ToLower, and `searchURLForQuery` with url.QueryEscape
unfoldable pub normalize_search_engine : (Bytes → Bytes) → Bytes → Bytes
unfolding bytes_eq
normalize_search_engine to_lower engine =
    let normalized = to_lower (trim_space engine) in
    if bytes_eq normalized [] || bytes_eq normalized (lit "duckduckgo")
    then lit "duckduckgo"
    else []

unfoldable pub search_url_for_query : (Bytes → Bytes) → Bytes → Bytes → Option Bytes
unfolding bytes_eq
search_url_for_query query_escape engine query =
    if bytes_eq engine (lit "duckduckgo")
    then some (lit "https://duckduckgo.com/html/?q=" ++ query_escape (trim_space query))
    else none

-- `clampCount`
unfoldable pub clamp_count : ℤ → ℤ → ℤ
clamp_count value most = if ltb_ℤ most value then most else value
