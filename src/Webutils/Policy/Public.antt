-- ===== src/Webutils/Policy/Public.antt =====
-- What a URL that is accepted is known to be.
use mathlib.Core.Path.{subst}
use go_core_mcp.Prelude.{
  not-false, ℕ, ◌≤◌, ◌≡◌, refl, sym, Bool, true, false, not, ◌||◌, inl, inr, Option, none, some,
  List, [], ◌∷◌, Bytes, bytes_eq, arith, ltb, length, All, Bool-cases, Option-cases, if◌then◌else◌,
}
use go_core_mcp.Outcome.{Outcome, ok, reject_if, ◌>>◌, >>=-eq-ok, reject_if-eq-ok}
use go_core_mcp.Strings.{trim_space}
use go_core_mcp.Webutils.Policy.{
  Address, Net, Url, UrlError, disallowed_ip_prefixes, in_none, is_public_address, all_public,
  looked_up, ensure_public_host, parsed_or, validate_and_resolve_url, max_hostname_length,
  max_url_length,
}

-- An address outside every one of the prefixes, and none of the kinds that are not public.
pub record IsPublic (addr : Address) : Type 0 where
  pub valid : addr.is_valid ≡ true
  pub not_unspecified : addr.is_unspecified ≡ false
  pub not_loopback : addr.is_loopback ≡ false
  pub not_multicast : addr.is_multicast ≡ false
  pub not_link_local : (addr.is_link_local_unicast ≡ false) × (addr.is_link_local_multicast ≡ false)
  pub not_private : addr.is_private ≡ false
  pub outside : All (λ p. addr.is_in p ≡ false) disallowed_ip_prefixes

in_none_sound :
    (ps : List Bytes) (addr : Address) → in_none ps addr ≡ true → All (λ p. addr.is_in p ≡ false) ps
unfolding in_none
in_none_sound [] addr h = tt
in_none_sound (p ∷ ps) addr h = elim (Bool-cases (addr.is_in p)) [
  | inl e ↦ absurd (cc (rw (e, in_none) at h))
  | inr e ↦ (e, in_none_sound ps addr (rw (e, in_none) at h))
]

kinds :
    (v a b c d e f : Bool) (rest : Bool)
    → (if not v || a || b || c || d || e || f then false else rest) ≡ true
    → (v ≡ true)
      × (a ≡ false)
      × (b ≡ false)
      × (c ≡ false)
      × (d ≡ false)
      × (e ≡ false)
      × (f ≡ false)
      × (rest ≡ true)
kinds v a b c d e f rest h = (
  ground arith,
  ground arith,
  ground arith,
  ground arith,
  ground arith,
  ground arith,
  ground arith,
  ground arith,
)

is_public_address-IsPublic : (addr : Address) → is_public_address addr ≡ true → IsPublic addr
unfolding is_public_address
is_public_address-IsPublic addr h =
    let (v, a, b, c, d, e, f, rest) =
      kinds addr.is_valid addr.is_unspecified addr.is_loopback addr.is_multicast
        addr.is_link_local_unicast addr.is_link_local_multicast addr.is_private _ h in
    record {
      valid = v;
      not_unspecified = a;
      not_loopback = b;
      not_multicast = c;
      not_link_local = (d, e);
      not_private = f;
      outside = in_none_sound disallowed_ip_prefixes addr rest;
    }

abbrev pub pick : Option Address → Option (List Address) → Option (List Address)
pick none found = found
pick (some a) found = some (a ∷ [])

-- The addresses that a host stands for: itself if it is one, and else what the resolver finds.
abbrev pub addresses : Net → Bytes → Option (List Address)
addresses net host = pick (net.parse_addr host) (net.lookup host)

all_public_sound : (found : List Address) → all_public found ≡ ok tt → All IsPublic found
unfolding all_public
all_public_sound [] h = tt
all_public_sound (a ∷ found) h = elim (Bool-cases (is_public_address a)) [
  | inl e ↦ (is_public_address-IsPublic a e, all_public_sound found (rw e at h))
  | inr e ↦ absurd (cc (rw e at h))
]

abbrev pub AllPublic : Option (List Address) → Type 0
AllPublic none = ⊥
AllPublic (some []) = ⊥
AllPublic (some (a ∷ found)) = All IsPublic (a ∷ found)

looked_up_sound : (o : Option (List Address)) → looked_up o ≡ ok tt → AllPublic o
unfolding looked_up
looked_up_sound none h = cc
looked_up_sound (some []) h = cc
looked_up_sound (some (a ∷ found)) h = all_public_sound (a ∷ found) h

ensure_public_host_sound :
    (net : Net) (host : Bytes)
    → ensure_public_host net host ≡ ok tt
    → AllPublic (addresses net host)
unfolding ensure_public_host
ensure_public_host_sound net host h = elim (Option-cases (net.parse_addr host)) [
  | inl e ↦
      subst (λ o. AllPublic (pick o (net.lookup host))) (sym e)
        (looked_up_sound (net.lookup host) (rw (e, ensure_public_host) at h))
  | inr (a, e) ↦
      subst (λ o. AllPublic (pick o (net.lookup host))) (sym e)
        (
          is_public_address-IsPublic a
              (not-false _ ((reject_if-eq-ok _ _).0 (rw (e, ensure_public_host) at h))),
          tt,
        )
]

passed :
    {A : Type 0} (b : Bool) (e : UrlError) (k : Outcome UrlError A) {a : A}
    → (reject_if b e >> k) ≡ ok a
    → (b ≡ false) × (k ≡ ok a)
passed true e k h = cc
passed false e k h = (refl, h)

-- A URL that may be opened.
pub record IsAllowed (net : Net) (text : Bytes) (url : Url) : Type 0 where
  pub short : length (trim_space text) ≤ 2048
  pub parses : net.parse_url (trim_space text) ≡ some url
  pub https : url.is_https ≡ true
  pub no_user : url.has_user ≡ false
  pub hosts : AllPublic (addresses net url.hostname)

parsed_or-eq-ok : (o : Option Url) {u : Url} → parsed_or o ≡ ok u → o ≡ some u
unfolding parsed_or
parsed_or-eq-ok none h = cc
parsed_or-eq-ok (some u) h = cc

not_longer : (n m : ℕ) → ltb m n ≡ false → n ≤ m
not_longer n m h = ground arith

-- A URL that `validateAndResolveURL` accepts is what its trimmed text, of at most 2048 bytes, parses
-- to, uses https, names no user, and each address of its host, of which there is at least one, is public.
pub validate_and_resolve_url-IsAllowed :
    (net : Net) (text : Bytes) {url : Url}
    → validate_and_resolve_url net text ≡ ok url
    → IsAllowed net text url
unfolding validate_and_resolve_url
validate_and_resolve_url-IsAllowed net text {url} h =
    let raw = trim_space text in
    let (_, s1) = passed (bytes_eq raw []) _ _ h in
    let (short, s2) = passed (ltb max_url_length (length raw)) _ _ s1 in
    let (u, parses, s3) = >>=-eq-ok (parsed_or (net.parse_url raw)) _ s2 in
    let (https, s4) = passed (not u.is_https) _ _ s3 in
    let (_, s5) = passed (bytes_eq u.host []) _ _ s4 in
    let (no_user, s6) = passed u.has_user _ _ s5 in
    let (_, s7) =
      passed (bytes_eq u.hostname [] || ltb max_hostname_length (length u.hostname)) _ _ s6 in
    let (_, hosts, s8) = >>=-eq-ok (ensure_public_host net u.hostname) _ s7 in
    let same : u ≡ url = cc s8 in
    subst (IsAllowed net text) same (record {
      short = not_longer _ _ short;
      parses = parsed_or-eq-ok _ parses;
      https = not-false _ https;
      no_user = no_user;
      hosts = ensure_public_host_sound net u.hostname hosts;
    })
