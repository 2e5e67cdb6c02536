-- ===== src/Url/Dialed.antt =====
-- ssrf.go: the addresses behind a URL (ValidateURLResolved) and behind a dial (ControlFunc).
use httpc.Prelude.{
  ◌≡◌, ◌↔◌, ◌⊎◌, inl, inr, refl, true, Option, none, some, List, [], ◌∷◌, All, arith, is_some,
  Option-cases,
}
use httpc.Prelude.Text.{Text}
use httpc.Errors.{Err, is_err, blocked_by_policy}
use httpc.Net.{Ip}
use httpc.Policy.{IpPolicy, Lookup, addresses, failed, check_ip}
use httpc.Policy.CheckIp.{check_ip-blocked}
use httpc.Url.{
  Url, Platform, strip_zone, host_alias, lower_host, validate_url, validate_url_resolved,
  resolve_parts, resolver_of, judge, check_addresses, dialed_host, control,
}

module _ (platform : Platform) (p : Option IpPolicy) where
  abbrev pub Permitted : Ip → Type 0
  Permitted ip = check_ip p ip ≡ none

  check_addresses_sound :
      (ips : List Ip) → check_addresses platform p ips ≡ none → All Permitted ips
  unfolding check_addresses
  check_addresses_sound [] h = tt
  check_addresses_sound (ip ∷ ips) h = ground (arith, check_addresses_sound ips)

  check_addresses_complete :
      (ips : List Ip) → All Permitted ips → check_addresses platform p ips ≡ none
  unfolding check_addresses
  check_addresses_complete [] h = refl
  check_addresses_complete (ip ∷ ips) h = ground (arith, check_addresses_complete ips)

  -- The answer of the resolver is one address at least, each of them permitted.
  abbrev pub ResolvesToPermitted : Lookup → Type 0
  ResolvesToPermitted (failed e) = ⊥
  ResolvesToPermitted (addresses []) = ⊥
  ResolvesToPermitted (addresses (ip ∷ ips)) = All Permitted (ip ∷ ips)

  judge_iff : (l : Lookup) → (judge platform p l ≡ none) ↔ ResolvesToPermitted l
  judge_iff (failed e) = (λ h. ground arith, λ h. absurd h)
  judge_iff (addresses []) = (λ h. ground arith, λ h. absurd h)
  judge_iff (addresses (ip ∷ ips)) =
      (check_addresses_sound (ip ∷ ips), check_addresses_complete (ip ∷ ips))

  -- The host is an IP literal, which ValidateURL has judged.
  abbrev pub IsLiteral : Url → Type 0
  IsLiteral u =
      is_some
        (platform.parse_ip (strip_zone (host_alias platform (lower_host platform u.hostname))))
      ≡ true

  -- ValidateURLResolved passes a URL that parses exactly if ValidateURL passes it, and its host is
  -- an IP literal or the policy's resolver answers for its lower-case name (the trailing dot kept)
  -- with one address at least, and the policy permits each of them. A failed and an empty lookup
  -- refuse.
  pub validate_url_resolved_iff :
      (raw : Text) (u : Url)
      → platform.parse_url raw ≡ some u
      → (validate_url_resolved platform p raw ≡ none) ↔ (
          (validate_url platform p raw ≡ none)
          × (IsLiteral u
              ⊎ ResolvesToPermitted (resolver_of platform p (lower_host platform u.hostname))))
  unfolding validate_url_resolved resolve_parts
  validate_url_resolved_iff raw u parsed =
      let iff = judge_iff (resolver_of platform p (lower_host platform u.hostname)) in
      (ground (arith, iff, parsed), ground (arith, iff, parsed))

  -- A dial goes ahead exactly if the address to dial is an IP address, with or without a port and a
  -- zone, that the policy permits.
  pub control_iff :
      (address : Text)
      → (control platform p address ≡ none) ↔ (
          (ip : Ip) × (platform.parse_ip (strip_zone (dialed_host platform address)) ≡ some ip)
          × (check_ip p ip ≡ none))
  unfolding control
  control_iff address = (sound (Option-cases _), λ (ip, e, h). rw (e, control) h)
    where
      sound :
          (platform.parse_ip (strip_zone (dialed_host platform address)) ≡ none)
            ⊎ ((ip : Ip) × (platform.parse_ip (strip_zone (dialed_host platform address))
                  ≡ some ip))
          → control platform p address ≡ none
          → (ip : Ip) × (platform.parse_ip (strip_zone (dialed_host platform address)) ≡ some ip)
            × (check_ip p ip ≡ none)
      sound (inl e) h = ground arith
      sound (inr (ip, e)) h = (ip, e, ground arith)

  -- A refused dial is refused with an error that wraps ErrBlockedByPolicy.
  pub control-blocked :
      (address : Text) (e : Err)
      → control platform p address ≡ some e
      → is_err blocked_by_policy e ≡ true
  unfolding control is_err
  control-blocked address e h =
      elim (Option-cases (platform.parse_ip (strip_zone (dialed_host platform address)))) [
        | inl n ↦ ground arith
        | inr (ip, n) ↦ ground (arith, check_ip-blocked p ip e)
      ]
