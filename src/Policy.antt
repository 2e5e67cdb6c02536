-- ===== src/Policy.antt =====
-- ssrf.go: IPPolicy and its decision on an address.
pub mod CheckIp
pub mod Ipv4
pub mod Embedded
pub mod Tables
mod Tests
use httpc.Prelude.{
  ℕ, zero, suc, Bool, true, false, ◌&&◌, ◌||◌, Option, none, some, List, [], ◌∷◌, ◌++◌, length, any,
  leb, ◌==◌, is_none, is_some, if◌then◌else◌,
}
use httpc.Prelude.Text.{Text}
use httpc.Errors.{Err, sentinel, wrap, blocked_by_policy}
use httpc.Net.{Ip, IpNet, cidr, ipv4, ipv6, to4, to16, contains}

-- privateCIDRs, parsed
unfoldable pub private_ip_nets : List IpNet
unfolding cidr ipv6
private_ip_nets =
    cidr (0 ∷ 0 ∷ 0 ∷ 0 ∷ []) 8
    ∷ cidr (10 ∷ 0 ∷ 0 ∷ 0 ∷ []) 8
    ∷ cidr (172 ∷ 16 ∷ 0 ∷ 0 ∷ []) 12
    ∷ cidr (192 ∷ 168 ∷ 0 ∷ 0 ∷ []) 16
    ∷ cidr (127 ∷ 0 ∷ 0 ∷ 0 ∷ []) 8
    ∷ cidr (169 ∷ 254 ∷ 0 ∷ 0 ∷ []) 16
    ∷ cidr (100 ∷ 64 ∷ 0 ∷ 0 ∷ []) 10
    ∷ cidr (192 ∷ 0 ∷ 0 ∷ 0 ∷ []) 24
    ∷ cidr (198 ∷ 18 ∷ 0 ∷ 0 ∷ []) 15
    ∷ cidr (240 ∷ 0 ∷ 0 ∷ 0 ∷ []) 4
    ∷ cidr (255 ∷ 255 ∷ 255 ∷ 255 ∷ []) 32
    ∷ cidr (ipv6 (0 ∷ 0 ∷ 0 ∷ 0 ∷ 0 ∷ 0 ∷ 0 ∷ 0 ∷ [])) 128
    ∷ cidr (ipv6 (0 ∷ 0 ∷ 0 ∷ 0 ∷ 0 ∷ 0 ∷ 0 ∷ 1 ∷ [])) 128
    ∷ cidr (ipv6 (0xfc00 ∷ 0 ∷ 0 ∷ 0 ∷ 0 ∷ 0 ∷ 0 ∷ 0 ∷ [])) 7
    ∷ cidr (ipv6 (0xfe80 ∷ 0 ∷ 0 ∷ 0 ∷ 0 ∷ 0 ∷ 0 ∷ 0 ∷ [])) 10
    ∷ []

-- metadataCIDRs, parsed
unfoldable pub metadata_ip_nets : List IpNet
unfolding cidr ipv6
metadata_ip_nets =
    cidr (169 ∷ 254 ∷ 169 ∷ 254 ∷ []) 32
    ∷ cidr (169 ∷ 254 ∷ 170 ∷ 2 ∷ []) 32
    ∷ cidr (169 ∷ 254 ∷ 170 ∷ 23 ∷ []) 32
    ∷ cidr (ipv6 (0xfd00 ∷ 0xec2 ∷ 0 ∷ 0 ∷ 0 ∷ 0 ∷ 0 ∷ 0x254 ∷ [])) 128
    ∷ cidr (ipv6 (0xfd00 ∷ 0xec2 ∷ 0 ∷ 0 ∷ 0 ∷ 0 ∷ 0 ∷ 0x23 ∷ [])) 128
    ∷ cidr (100 ∷ 100 ∷ 100 ∷ 200 ∷ []) 32
    ∷ []

-- nonDecodableCIDRs, parsed
unfoldable pub non_decodable_ip_nets : List IpNet
unfolding cidr ipv6
non_decodable_ip_nets = cidr (ipv6 (0x64 ∷ 0xff9b ∷ 1 ∷ 0 ∷ 0 ∷ 0 ∷ 0 ∷ 0 ∷ [])) 48 ∷ []

unfoldable pub nat64_well_known_net : IpNet
unfolding cidr ipv6
nat64_well_known_net = cidr (ipv6 (0x64 ∷ 0xff9b ∷ 0 ∷ 0 ∷ 0 ∷ 0 ∷ 0 ∷ 0 ∷ [])) 96

unfoldable pub ipv4_compatible_net : IpNet
unfolding cidr ipv6
ipv4_compatible_net = cidr (ipv6 (0 ∷ 0 ∷ 0 ∷ 0 ∷ 0 ∷ 0 ∷ 0 ∷ 0 ∷ [])) 96

-- ip[i], of an address that has so many bytes
abbrev pub byte : Ip → ℕ → ℕ
byte [] i = 0
byte (x ∷ xs) zero = x
byte (x ∷ xs) (suc i) = byte xs i

-- the switch of embeddedIPv4, on the 16 bytes
abbrev pub embedded_in : Ip → Option Ip
embedded_in ip16 =
    if byte ip16 0 == 0x20 && byte ip16 1 == 0x02
    then some (ipv4 (byte ip16 2) (byte ip16 3) (byte ip16 4) (byte ip16 5))
    else if contains nat64_well_known_net ip16
    then some (ipv4 (byte ip16 12) (byte ip16 13) (byte ip16 14) (byte ip16 15))
    else if contains ipv4_compatible_net ip16
    then (if byte ip16 12 == 0 && byte ip16 13 == 0 && byte ip16 14 == 0 && leb (byte ip16 15) 1
        then none
        else some (ipv4 (byte ip16 12) (byte ip16 13) (byte ip16 14) (byte ip16 15)))
    else none

unfoldable pub embedded_ipv4 : Ip → Option Ip
embedded_ipv4 ip =
    if is_some (to4 ip) then none else elim (to16 ip) [ none ↦ none | some ip16 ↦ embedded_in ip16 ]

-- The answer of Resolver.LookupIPAddr: the addresses, or an error.
pub data Lookup : Type 0 where
  addresses : List Ip → Lookup
  failed : Err → Lookup

-- A caller's policy. The list may hold nil entries, and the resolver may be nil.
pub record IpPolicy : Type 0 where
  pub allow_private : Bool
  pub allowed_cidrs : List (Option IpNet)
  pub resolver : Option (Text → Lookup)
  pub trust_proxy_resolution : Bool

abbrev pub default_ip_policy : IpPolicy
default_ip_policy = record {
  allow_private = false;
  allowed_cidrs = [];
  resolver = none;
  trust_proxy_resolution = false;
}

abbrev pub allow_all_private_ips : IpPolicy
allow_all_private_ips = record default_ip_policy { allow_private = true }

-- A nil policy is the default one.
abbrev pub or_default : Option IpPolicy → IpPolicy
or_default none = default_ip_policy
or_default (some p) = p

unfoldable pub allows : List (Option IpNet) → Ip → Bool
allows [] ip = false
allows (none ∷ ns) ip = allows ns ip
allows (some n ∷ ns) ip = contains n ip || allows ns ip

abbrev pub in_any : List IpNet → Ip → Bool
in_any nets ip = any (λ n. contains n ip) nets

-- the loop over privateIPNets: the first block that has the address decides
unfoldable pub check_private : IpPolicy → List IpNet → Ip → Option Err
check_private p [] ip = none
check_private p (n ∷ ns) ip =
    if contains n ip
    then (if allows p.allowed_cidrs ip
        then none
        else some
            (wrap "request to private/reserved IP address is blocked" (sentinel blocked_by_policy)))
    else check_private p ns ip

-- the check of the IPv4 address inside an IPv6 one, by the check that is given
abbrev pub check_embedded : (Ip → Option Err) → Option Ip → Option Err
check_embedded check none = none
check_embedded check (some v4) = elim (check v4) [
  | none ↦ none
  | some e ↦ some (wrap "embeds a blocked IPv4 address" e)
]

-- the body of CheckIP; `check` is its recursive call
unfoldable pub check_body : (Ip → Option Err) → Option IpPolicy → Ip → Option Err
check_body check p ip =
    if length ip == 0 || is_none (to16 ip)
    then some (wrap "invalid IP address" (sentinel blocked_by_policy))
    else if in_any metadata_ip_nets ip
    then some (wrap "request to cloud metadata address is blocked" (sentinel blocked_by_policy))
    else if in_any non_decodable_ip_nets ip
    then some (wrap "the prefix embeds an IPv4 address" (sentinel blocked_by_policy))
    else elim (check_embedded check (embedded_ipv4 ip)) [
      | some e ↦ some e
      | none ↦
          if (or_default p).allow_private
          then none
          else check_private (or_default p) private_ip_nets ip
    ]

-- CheckIP calls itself once at most: fuel 2 is enough (`check_ip-eq`), and at 0 the answer, which no
-- address reaches, is a denial.
unfoldable pub check_ip_fuel : ℕ → Option IpPolicy → Ip → Option Err
check_ip_fuel zero p ip = some (sentinel blocked_by_policy)
check_ip_fuel (suc f) p ip = check_body (check_ip_fuel f p) p ip

unfoldable pub check_ip : Option IpPolicy → Ip → Option Err
check_ip p ip = check_ip_fuel 2 p ip
