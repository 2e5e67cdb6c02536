-- ===== src/Policy/Tests.antt =====
-- CheckIP on concrete addresses, and the theorems at inputs.
use httpc.Prelude.{
  ◌≡◌, ◌↔◌, ◌⊎◌, refl, Bool, true, false, ◌&&◌, ◌==◌, leb, none, some, List, [], ◌∷◌, ◌++◌, arith,
  is_none,
}
use httpc.Errors.{Err, sentinel, wrap, blocked_by_policy}
use httpc.Net.{Ip, cidr, ipv4, ipv6, contains, to4, to16}
use httpc.Policy.{
  IpPolicy, default_ip_policy, allow_all_private_ips, allows, check_ip, check_ip_fuel, check_body,
  check_private, embedded_ipv4, metadata_ip_nets, non_decodable_ip_nets, private_ip_nets,
  nat64_well_known_net, ipv4_compatible_net,
}
use httpc.Policy.CheckIp.{check_ip_iff, IsPermissible, IsAllowed, IsStricter}
use httpc.Policy.Ipv4.{check_ipv4_iff, is_reserved, is_metadata}
use httpc.Policy.Embedded.{check_ip-mapped, transition_encodings}

abbrev internal : IpPolicy
internal = record default_ip_policy {
  allowed_cidrs = none ∷ some (cidr (10 ∷ 0 ∷ 0 ∷ 0 ∷ []) 8) ∷ [];
}

abbrev public_ip : Ip
public_ip = 8 ∷ 8 ∷ 8 ∷ 8 ∷ []

-- 64:ff9b::169.254.169.254
abbrev nat64_imds : Ip
nat64_imds = 0 ∷ 0x64 ∷ 0xff ∷ 0x9b ∷ 0 ∷ 0 ∷ 0 ∷ 0 ∷ 0 ∷ 0 ∷ 0 ∷ 0 ∷ 169 ∷ 254 ∷ 169 ∷ 254 ∷ []

abbrev verdicts : List Bool
verdicts =
    is_none (check_ip none public_ip)
    ∷ is_none (check_ip none (10 ∷ 1 ∷ 2 ∷ 3 ∷ []))
    ∷ is_none (check_ip (some internal) (10 ∷ 1 ∷ 2 ∷ 3 ∷ []))
    ∷ is_none (check_ip (some internal) (192 ∷ 168 ∷ 0 ∷ 1 ∷ []))
    ∷ is_none (check_ip (some allow_all_private_ips) (192 ∷ 168 ∷ 0 ∷ 1 ∷ []))
    ∷ is_none (check_ip (some allow_all_private_ips) nat64_imds)
    ∷ is_none (check_ip (some allow_all_private_ips) (1 ∷ 2 ∷ 3 ∷ []))
    ∷ []

verdicts_as_documented : verdicts ≡ true ∷ false ∷ true ∷ false ∷ true ∷ false ∷ false ∷ []
unfolding check_ip check_ip_fuel check_body check_private allows embedded_ipv4 metadata_ip_nets
    non_decodable_ip_nets private_ip_nets nat64_well_known_net ipv4_compatible_net contains cidr to4
    to16
verdicts_as_documented = refl

abbrev empty_denial : Err
empty_denial = wrap "invalid IP address" (sentinel blocked_by_policy)

check_ip_iff_example : (check_ip (some internal) (10 ∷ 1 ∷ 2 ∷ 3 ∷ []) ≡ none) ↔ (
    IsPermissible (some internal) (10 ∷ 1 ∷ 2 ∷ 3 ∷ []) × IsAllowed internal (10 ∷ 1 ∷ 2 ∷ 3 ∷ []))
check_ip_iff_example = check_ip_iff (some internal) (10 ∷ 1 ∷ 2 ∷ 3 ∷ [])

default-IsStricter : IsStricter default_ip_policy internal
unfolding allows
default-IsStricter = record { private = λ h. cc; exceptions = λ ip h. cc }

public_permitted : check_ip none public_ip ≡ none
unfolding check_ip check_ip_fuel check_body check_private allows embedded_ipv4 metadata_ip_nets
    non_decodable_ip_nets private_ip_nets contains cidr to4 to16
public_permitted = refl

check_ipv4_iff_example : (check_ip (some internal) (10 ∷ 1 ∷ 2 ∷ 3 ∷ []) ≡ none) ↔ (
    (is_metadata 10 1 2 3 ≡ false)
    × ((internal.allow_private ≡ true)
        ⊎ (is_reserved 10 1 2 3 ≡ false)
        ⊎ (allows internal.allowed_cidrs (10 ∷ 1 ∷ 2 ∷ 3 ∷ []) ≡ true)))
check_ipv4_iff_example =
    check_ipv4_iff 10 1 2 3 (omega arith) (omega arith) (omega arith) (omega arith) (some internal)

check_ip-mapped_example :
    check_ip (some internal) (ipv4 169 254 169 254)
    ≡ check_ip (some internal) (169 ∷ 254 ∷ 169 ∷ 254 ∷ [])
check_ip-mapped_example = check_ip-mapped 169 254 169 254 (some internal)

abbrev zeros : Ip
zeros = 0 ∷ 0 ∷ 0 ∷ 0 ∷ 0 ∷ 0 ∷ 0 ∷ 0 ∷ 0 ∷ 0 ∷ []

transition_encodings_example :
    ((check_ip none (0x20 ∷ 0x02 ∷ 10 ∷ 1 ∷ 2 ∷ 3 ∷ zeros) ≡ none)
      → check_ip none (10 ∷ 1 ∷ 2 ∷ 3 ∷ []) ≡ none)
    × ((check_ip none (ipv6 (0x64 ∷ 0xff9b ∷ 0 ∷ 0 ∷ 0 ∷ 0 ∷ []) ++ 10 ∷ 1 ∷ 2 ∷ 3 ∷ []) ≡ none)
        → check_ip none (10 ∷ 1 ∷ 2 ∷ 3 ∷ []) ≡ none)
    × ((10 == 0 && 1 == 0 && 2 == 0 && leb 3 1) ≡ false
        → check_ip none (0 ∷ 0 ∷ 0 ∷ 0 ∷ 0 ∷ 0 ∷ 0 ∷ 0 ∷ 0 ∷ 0 ∷ 0 ∷ 0 ∷ 10 ∷ 1 ∷ 2 ∷ 3 ∷ []) ≡ none
        → check_ip none (10 ∷ 1 ∷ 2 ∷ 3 ∷ []) ≡ none)
transition_encodings_example =
    transition_encodings 10 1 2 3 (omega arith) (omega arith) (omega arith) (omega arith) none zeros
      refl
