-- ===== src/Url.antt =====
-- ssrf.go: the checks on a URL and at a dial. What the source takes from the standard library's
-- parsers and resolver is the parameter `platform`; a text is the list of its code points.
pub mod Accepted
pub mod Hostnames
pub mod Dialed
pub mod Samples
mod Tests
use httpc.Prelude.{
  ℕ, ◌+◌, String, Bool, true, false, not, ◌&&◌, ◌||◌, Option, none, some, List, [], ◌∷◌, map,
  length, all, any, leb, ltb, ◌==◌, is_none, is_some, if◌then◌else◌,
}
use httpc.Prelude.Text.{Text, codes, text_eq, text_mem, split_on}
use httpc.Errors.{Err, sentinel, new, wrap, blocked_by_policy}
use httpc.Net.{Ip, IpNet, ipv4, ipv6}
use httpc.Policy.{IpPolicy, Lookup, addresses, failed, check_ip, default_ip_policy}

-- What the package reads of a *url.URL: Scheme, Hostname(), Port() and Path.
pub record Url : Type 0 where
  pub scheme : Text
  pub hostname : Text
  pub port : Text
  pub path : Text

pub record Platform : Type 0 where
  pub parse_url : Text → Option Url  -- url.Parse; none is an error
  pub parse_ip : Text → Option Ip  -- net.ParseIP
  pub parse_cidr : Text → Option IpNet  -- net.ParseCIDR; none is an error
  pub split_host_port : Text → Option Text  -- the host of net.SplitHostPort; none is an error
  pub default_resolver : Text → Lookup  -- net.DefaultResolver.LookupIPAddr
  pub lower_rune : ℕ → ℕ  -- unicode.ToLower, beyond ASCII

abbrev pub allowed_schemes : List Text
allowed_schemes = codes "http" ∷ codes "https" ∷ []

abbrev pub metadata_hostnames : List Text
metadata_hostnames = codes "metadata.google.internal" ∷ codes "metadata.goog" ∷ []

abbrev pub loopback_hostnames : List Text
loopback_hostnames = codes "localhost" ∷ codes "localhost.localdomain" ∷ []

abbrev pub loopback_ips : List Ip
loopback_ips =
    ipv4 127 0 0 1 ∷ (0 ∷ 0 ∷ 0 ∷ 0 ∷ 0 ∷ 0 ∷ 0 ∷ 0 ∷ 0 ∷ 0 ∷ 0 ∷ 0 ∷ 0 ∷ 0 ∷ 0 ∷ 1 ∷ []) ∷ []

unfoldable pub allows_loopback_by_name : Option IpPolicy → Bool
allows_loopback_by_name p = any (λ ip. is_none (check_ip p ip)) loopback_ips

-- strings.TrimSuffix(s, ".")
unfoldable pub trim_dot : Text → Text
trim_dot [] = []
trim_dot (c ∷ []) = if c == b'.' then [] else c ∷ []
trim_dot (c ∷ d ∷ t) = c ∷ trim_dot (d ∷ t)

abbrev pub has : ℕ → Text → Bool
has c t = any (λ d. d == c) t

-- host[:i] at the last "%", or the whole host
unfoldable pub strip_zone : Text → Text
strip_zone [] = []
strip_zone (c ∷ t) =
    let rest = strip_zone t in if has b'%' t then c ∷ rest else if c == b'%' then [] else c ∷ t

abbrev pub is_digit : ℕ → Bool
is_digit c = leb b'0' c && leb c b'9'

abbrev pub is_octal : ℕ → Bool
is_octal c = leb b'0' c && leb c b'7'

abbrev pub is_hex : ℕ → Bool
is_hex c = is_digit c || (leb b'a' c && leb c b'f') || (leb b'A' c && leb c b'F')

-- [class]+
abbrev pub some_of : (ℕ → Bool) → Text → Bool
some_of p [] = false
some_of p (c ∷ t) = p c && all p t

-- 0[xX][0-9a-fA-F]+
abbrev pub is_hex_literal : Text → Bool
is_hex_literal (z ∷ x ∷ t) = z == b'0' && (x == b'x' || x == b'X') && some_of is_hex t
is_hex_literal _ = false

-- 0[0-7]+
abbrev pub is_octal_literal : Text → Bool
is_octal_literal (z ∷ t) = z == b'0' && some_of is_octal t
is_octal_literal [] = false

-- 0[0-7]+(\.[0-7]+){0,3}, on the pieces between the dots
abbrev pub is_octal_dotted : List Text → Bool
is_octal_dotted [] = false
is_octal_dotted (s ∷ ss) = is_octal_literal s && all (some_of is_octal) ss && leb (length ss) 3

-- nonCanonicalIPPattern
unfoldable pub is_non_canonical : Text → Bool
unfolding split_on
is_non_canonical t = is_hex_literal t || some_of is_digit t || is_octal_dotted (split_on b'.' t)

abbrev pub denied : String → Option Err
denied message = some (wrap message (sentinel blocked_by_policy))

module _ (platform : Platform) where
  open platform use {parse_url, parse_ip, parse_cidr, split_host_port, default_resolver, lower_rune}

  -- unicode.ToLower
  abbrev pub to_lower_rune : ℕ → ℕ
  to_lower_rune c =
      if leb b'A' c && leb c b'Z' then c + 32 else if ltb c 128 then c else lower_rune c

  -- strings.ToLower
  unfoldable pub lower_host : Text → Text
  lower_host t = map to_lower_rune t

  unfoldable pub host_alias : Text → Text
  unfolding lower_host trim_dot
  host_alias t = trim_dot (lower_host t)

  -- the end of ValidateURL: only an IP literal is checked here
  abbrev pub check_literal : Option IpPolicy → Option Ip → Option Err
  check_literal p none = none
  check_literal p (some ip) = check_ip p ip

  -- ValidateURL after the parse, from the host on; `host` is the lower-cased one
  unfoldable pub validate_host : Option IpPolicy → Text → Option Err
  validate_host p host =
      let alias = host_alias host in
      if text_mem alias metadata_hostnames
      then denied "request to cloud metadata hostname is denied"
      else if text_mem alias loopback_hostnames && not (allows_loopback_by_name p)
      then denied "request to loopback hostname is denied"
      else if is_non_canonical alias
      then denied "request to non-canonical IP literal is blocked"
      else check_literal p (parse_ip (strip_zone alias))

  -- ValidateURL after the parse
  unfoldable pub validate_parts : Option IpPolicy → Url → Option Err
  validate_parts p u =
      if not (text_mem (lower_host u.scheme) allowed_schemes)
      then denied "URL scheme is not allowed"
      else if text_eq u.hostname []
      then denied "URL has no host"
      else validate_host p (lower_host u.hostname)

  unfoldable pub validate_url : Option IpPolicy → Text → Option Err
  validate_url p raw = elim (parse_url raw) [
    | none ↦ some (new "invalid URL")
    | some u ↦ validate_parts p u
  ]

  -- The loop over the resolved addresses.
  unfoldable pub check_addresses : Option IpPolicy → List Ip → Option Err
  check_addresses p [] = none
  check_addresses p (ip ∷ ips) =
      let rest = check_addresses p ips in
      elim (check_ip p ip) [
        | some e ↦ some (wrap "host resolves to a blocked address" e)
        | none ↦ rest
      ]

  abbrev pub judge : Option IpPolicy → Lookup → Option Err
  judge p (failed e) = some (wrap "cannot resolve host" e)
  judge p (addresses []) = some (new "resolver returned no addresses")
  judge p (addresses (ip ∷ ips)) = check_addresses p (ip ∷ ips)

  -- A nil policy, and a policy with no resolver, use the default resolver.
  abbrev pub resolver_of : Option IpPolicy → Text → Lookup
  resolver_of none = default_resolver
  resolver_of (some p) = elim p.resolver [ none ↦ default_resolver | some r ↦ r ]

  -- ValidateURLResolved after ValidateURL has passed
  unfoldable pub resolve_parts : Option IpPolicy → Url → Option Err
  resolve_parts p u =
      let host = lower_host u.hostname in
      if is_some (parse_ip (strip_zone (host_alias host)))
      then none
      else judge p (resolver_of p host)

  unfoldable pub validate_url_resolved : Option IpPolicy → Text → Option Err
  validate_url_resolved p raw = elim (validate_url p raw) [
    | some e ↦ some e
    | none ↦ elim (parse_url raw) [ none ↦ some (new "invalid URL") | some u ↦ resolve_parts p u ]
  ]

  abbrev pub dialed_host : Text → Text
  dialed_host address = elim (split_host_port address) [ none ↦ address | some host ↦ host ]

  -- the function that ControlFunc returns
  unfoldable pub control : Option IpPolicy → Text → Option Err
  control p address = elim (parse_ip (strip_zone (dialed_host address))) [
    | none ↦ some (wrap "refusing to dial unresolvable address" (sentinel blocked_by_policy))
    | some ip ↦ check_ip p ip
  ]

  -- NewIPPolicy: the first invalid block is an error
  unfoldable pub parse_cidrs : List Text → Option (List (Option IpNet))
  parse_cidrs [] = some []
  parse_cidrs (c ∷ cs) =
      let rest = parse_cidrs cs in
      elim (parse_cidr c) [
        | none ↦ none
        | some n ↦ elim rest [ none ↦ none | some ns ↦ some (some n ∷ ns) ]
      ]

  unfoldable pub new_ip_policy : List Text → Option IpPolicy
  unfolding parse_cidrs
  new_ip_policy cidrs = elim (parse_cidrs cidrs) [
    | none ↦ none
    | some nets ↦ some (record default_ip_policy { allowed_cidrs = nets })
  ]

  unfoldable pub validate_url_not_private : Text → Option Err
  validate_url_not_private raw = validate_url (some default_ip_policy) raw

  unfoldable pub validate_url_not_private_except : Text → List Text → Option Err
  unfolding new_ip_policy
  validate_url_not_private_except raw cidrs = elim (new_ip_policy cidrs) [
    | none ↦ some (new "invalid allowed CIDR")
    | some p ↦ validate_url (some p) raw
  ]
