-- ===== src/Webutils/Policy.antt =====
-- webutils/policy.go: which URLs may be opened. net/url, net/netip and the resolver are parameters;
-- an address is what the methods of netip.Addr and netip.Prefix say of it.
pub mod Public
use go_core_mcp.Prelude.{
  ℕ, Bool, true, false, not, ◌||◌, Option, none, some, List, [], ◌∷◌, Bytes, lit, bytes_eq, ltb,
  if◌then◌else◌, length,
}
use go_core_mcp.Outcome.{Outcome, ok, err, reject_if, ◌>>=◌, ◌>>◌}
use go_core_mcp.Strings.{trim_space}

abbrev max_url_length : ℕ
max_url_length = 2048

abbrev max_hostname_length : ℕ
max_hostname_length = 253

-- netip.Addr: what its methods say of it, and netip.Prefix.Contains for the prefixes of the code,
-- each by its text.
pub record Address : Type 0 where
  pub is_valid : Bool
  pub is_unspecified : Bool
  pub is_loopback : Bool
  pub is_multicast : Bool
  pub is_link_local_unicast : Bool
  pub is_link_local_multicast : Bool
  pub is_private : Bool
  pub is_in : Bytes → Bool

-- `disallowedIPPrefixes`
abbrev pub disallowed_ip_prefixes : List Bytes
disallowed_ip_prefixes =
    lit "0.0.0.0/8"
    ∷ lit "10.0.0.0/8"
    ∷ lit "100.64.0.0/10"
    ∷ lit "127.0.0.0/8"
    ∷ lit "169.254.0.0/16"
    ∷ lit "172.16.0.0/12"
    ∷ lit "192.0.0.0/24"
    ∷ lit "192.0.2.0/24"
    ∷ lit "192.88.99.0/24"
    ∷ lit "192.168.0.0/16"
    ∷ lit "198.18.0.0/15"
    ∷ lit "198.51.100.0/24"
    ∷ lit "203.0.113.0/24"
    ∷ lit "224.0.0.0/4"
    ∷ lit "240.0.0.0/4"
    ∷ lit "::/128"
    ∷ lit "::1/128"
    ∷ lit "64:ff9b:1::/48"
    ∷ lit "100::/64"
    ∷ lit "2001::/32"
    ∷ lit "2001:2::/48"
    ∷ lit "2001:db8::/32"
    ∷ lit "fc00::/7"
    ∷ lit "fe80::/10"
    ∷ lit "ff00::/8"
    ∷ []

in_none : List Bytes → Address → Bool
in_none [] addr = true
in_none (p ∷ ps) addr = if addr.is_in p then false else in_none ps addr

-- `isPublicAddress`
unfoldable pub is_public_address : Address → Bool
unfolding in_none
is_public_address addr =
    if not addr.is_valid
      || addr.is_unspecified
      || addr.is_loopback
      || addr.is_multicast
      || addr.is_link_local_unicast
      || addr.is_link_local_multicast
      || addr.is_private
    then false
    else in_none disallowed_ip_prefixes addr

pub data UrlError : Type 0 where
  url_required url_too_long invalid_url url_must_be_https url_host_required
        url_userinfo_not_allowed :
      UrlError
  host_not_public dns_failed host_no_public_address : UrlError

-- What net/url makes of a URL; `host` is with the port, `hostname` without, `is_https` compares the
-- scheme regardless of case.
pub record Url : Type 0 where
  pub is_https : Bool
  pub host : Bytes
  pub has_user : Bool
  pub hostname : Bytes

pub record Net : Type 0 where
  pub parse_url : Bytes → Option Url
  pub parse_addr : Bytes → Option Address
  pub lookup : Bytes → Option (List Address)

-- The loop of `ensurePublicHost`; what it counts is the length of the list when it ends.
all_public : List Address → Outcome UrlError (Unit {0})
all_public [] = ok tt
all_public (a ∷ found) = if is_public_address a then all_public found else err host_not_public

looked_up : Option (List Address) → Outcome UrlError (Unit {0})
unfolding all_public
looked_up none = err dns_failed
looked_up (some []) = err host_no_public_address
looked_up (some (a ∷ found)) = all_public (a ∷ found)

-- `ensurePublicHost`
unfoldable pub ensure_public_host : Net → Bytes → Outcome UrlError (Unit {0})
unfolding looked_up
ensure_public_host net host = elim (net.parse_addr host) [
  | some a ↦ reject_if (not (is_public_address a)) host_not_public
  | none ↦ looked_up (net.lookup host)
]

parsed_or : Option Url → Outcome UrlError Url
parsed_or none = err invalid_url
parsed_or (some u) = ok u

-- `validateAndResolveURL`
unfoldable pub validate_and_resolve_url : Net → Bytes → Outcome UrlError Url
unfolding parsed_or bytes_eq
validate_and_resolve_url net text = do
  let raw = trim_space text
  reject_if (bytes_eq raw []) url_required
  reject_if (ltb max_url_length (length raw)) url_too_long
  url ← parsed_or (net.parse_url raw)
  reject_if (not url.is_https) url_must_be_https
  reject_if (bytes_eq url.host []) url_host_required
  reject_if url.has_user url_userinfo_not_allowed
  reject_if (bytes_eq url.hostname [] || ltb max_hostname_length (length url.hostname))
      url_host_required
  ensure_public_host net url.hostname
  ok url
