-- ===== src/Url/Accepted.antt =====
-- ssrf.go, ValidateURL: which URLs pass.
use httpc.Prelude.{
  ◌≡◌, ◌≢◌, ◌↔◌, ◌⊎◌, inl, inr, sym, ◌∙◌, true, false, Option, none, some, [], arith, Option-cases,
}
use mathlib.Core.Path.{subst}
use httpc.Prelude.Text.{Text, text_eq_iff, text_mem}
use httpc.Errors.{Err, is_err, blocked_by_policy}
use httpc.Policy.{IpPolicy}
use httpc.Policy.CheckIp.{check_ip-blocked}
use httpc.Url.{
  Url, Platform, allowed_schemes, metadata_hostnames, loopback_hostnames, allows_loopback_by_name,
  strip_zone, is_non_canonical, host_alias, lower_host, validate_host, validate_parts, validate_url,
  check_literal,
}

module _ (platform : Platform) (p : Option IpPolicy) where
  -- A host, lower-cased, that ValidateURL passes.
  pub record IsAcceptedHost (host : Text) : Type 0 where
    pub not_metadata : text_mem (host_alias platform host) metadata_hostnames ≡ false
    pub loopback_allowed :
        (text_mem (host_alias platform host) loopback_hostnames ≡ false)
        ⊎ (allows_loopback_by_name p ≡ true)
    pub canonical : is_non_canonical (host_alias platform host) ≡ false
    pub literal_permitted :
        check_literal platform p (platform.parse_ip (strip_zone (host_alias platform host))) ≡ none

  pub record IsAccepted (u : Url) : Type 0 where
    pub http_scheme : text_mem (lower_host platform u.scheme) allowed_schemes ≡ true
    pub has_host : u.hostname ≢ []
    pub accepted_host : IsAcceptedHost (lower_host platform u.hostname)

  validate_host_iff : (host : Text) → (validate_host platform p host ≡ none) ↔ IsAcceptedHost host
  unfolding validate_host
  validate_host_iff host = (ground arith, ground arith)

  validate_parts_iff : (u : Url) → (validate_parts platform p u ≡ none) ↔ IsAccepted u
  unfolding validate_parts
  validate_parts_iff u =
      let iff = validate_host_iff (lower_host platform u.hostname) in
      (
        ground (arith, iff, text_eq_iff u.hostname []),
        ground (arith, iff, text_eq_iff u.hostname []),
      )

  -- ValidateURL passes exactly the texts that parse to a URL whose scheme is http or https in any
  -- case, whose host is not empty, and whose host in lower case and without one trailing dot is no
  -- metadata name, is no loopback name unless the policy permits a loopback address, is no
  -- non-canonical number, and is, if it is an IP literal, an address that the policy permits.
  pub validate_url_iff :
      (raw : Text)
      → (validate_url platform p raw ≡ none)
        ↔ ((u : Url) × (platform.parse_url raw ≡ some u) × IsAccepted u)
  unfolding validate_url
  validate_url_iff raw = (accepted (Option-cases (platform.parse_url raw)), passes)
    where
      accepted :
          (platform.parse_url raw ≡ none) ⊎ ((u : Url) × (platform.parse_url raw ≡ some u))
          → validate_url platform p raw ≡ none
          → (u : Url) × (platform.parse_url raw ≡ some u) × IsAccepted u
      accepted (inl e) h = ground arith
      accepted (inr (u, e)) h = (u, e, (validate_parts_iff u).0 (ground arith))

      passes :
          ((u : Url) × (platform.parse_url raw ≡ some u) × IsAccepted u)
          → validate_url platform p raw ≡ none
      passes (u, e, a) = rw (e, validate_url) ((validate_parts_iff u).1 a)

  validate_host-blocked :
      (host : Text) (e : Err)
      → validate_host platform p host ≡ some e
      → is_err blocked_by_policy e ≡ true
  unfolding validate_host is_err
  validate_host-blocked host e h =
      elim (Option-cases (platform.parse_ip (strip_zone (host_alias platform host)))) [
        | inl n ↦ ground arith
        | inr (ip, n) ↦ ground (arith, check_ip-blocked p ip e)
      ]

  -- Every URL that parses and is refused is refused with an error that wraps ErrBlockedByPolicy.
  pub validate_url-blocked :
      (raw : Text) (u : Url) (e : Err)
      → platform.parse_url raw ≡ some u
      → validate_url platform p raw ≡ some e
      → is_err blocked_by_policy e ≡ true
  unfolding validate_url validate_parts is_err
  validate_url-blocked raw u e parsed h =
      ground (arith, validate_host-blocked (lower_host platform u.hostname) e)

  some_injective : (a b : Url) → some a ≡ some b → a ≡ b
  some_injective a b e = cc

  -- The URL that a passed text parses to is accepted.
  pub IsAccepted-of_passed :
      (raw : Text) (u : Url)
      → platform.parse_url raw ≡ some u
      → validate_url platform p raw ≡ none
      → IsAccepted u
  IsAccepted-of_passed raw u parsed passed =
      let (v, parsed', a) = (validate_url_iff raw).0 passed in
      subst IsAccepted (some_injective v u (sym parsed' ∙ parsed)) a
