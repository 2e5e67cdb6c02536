-- ===== src/Net.antt =====
-- What ssrf.go uses of the standard library's net package: net.IP with To4 and To16, and
-- net.IPNet with Contains. An address is the list of its bytes; a nil address is the empty list.
pub mod Masks
use Prim.Native.Nat.{bit_and}
use httpc.Prelude.{
  ℕ, zero, suc, ◌+◌, ◌-◌, ◌*◌, ◌/◌, ◌%◌, ◌^◌, Bool, true, false, ◌&&◌, Option, none, some, List, [],
  ◌∷◌, ◌++◌, length, take, drop, leb, ◌==◌, if◌then◌else◌,
}
use httpc.Prelude.Text.{text_eq}

abbrev pub Ip : Type 0
Ip = List ℕ

-- net.v4InV6Prefix
abbrev pub v4_in_v6_prefix : Ip
v4_in_v6_prefix = 0 ∷ 0 ∷ 0 ∷ 0 ∷ 0 ∷ 0 ∷ 0 ∷ 0 ∷ 0 ∷ 0 ∷ 255 ∷ 255 ∷ []

-- net.IPv4: the 16-byte form of an IPv4 address
abbrev pub ipv4 : ℕ → ℕ → ℕ → ℕ → Ip
ipv4 a b c d = v4_in_v6_prefix ++ a ∷ b ∷ c ∷ d ∷ []

unfoldable pub to4 : Ip → Option Ip
unfolding text_eq
to4 ip =
    if length ip == 4
    then some ip
    else if length ip == 16 && text_eq (take 12 ip) v4_in_v6_prefix
    then some (drop 12 ip)
    else none

unfoldable pub to16 : Ip → Option Ip
to16 ip =
    if length ip == 4
    then some (v4_in_v6_prefix ++ ip)
    else if length ip == 16
    then some ip
    else none

pub record IpNet : Type 0 where
  pub ip : Ip
  pub mask : List ℕ

-- net.CIDRMask, for an address of so many bytes
unfoldable pub cidr_mask : ℕ → ℕ → List ℕ
cidr_mask ones zero = []
cidr_mask ones (suc n) = (if leb 8 ones then 255 else 256 - 2 ^ (8 - ones)) ∷ cidr_mask (ones - 8) n

-- What net.ParseCIDR returns for a block whose host bits are 0: its address and prefix length.
unfoldable pub cidr : Ip → ℕ → IpNet
unfolding cidr_mask
cidr ip ones = record { ip = ip; mask = cidr_mask ones (length ip) }

-- The bytes of an IPv6 address that is given by its eight groups.
unfoldable pub ipv6 : List ℕ → Ip
ipv6 [] = []
ipv6 (g ∷ gs) = g / 256 ∷ g % 256 ∷ ipv6 gs

-- net.networkNumberAndMask: the switch on the length of the mask
abbrev pub with_mask : Ip → List ℕ → Option (Ip × List ℕ)
with_mask ip m =
    if length m == 4
    then (if length ip == 4 then some (ip, m) else none)
    else if length m == 16
    then some (ip, if length ip == 4 then drop 12 m else m)
    else none

unfoldable pub network_number_and_mask : IpNet → Option (Ip × List ℕ)
unfolding to4
network_number_and_mask n = elim (to4 n.ip) [
  | some ip ↦ with_mask ip n.mask
  | none ↦ if length n.ip == 16 then with_mask n.ip n.mask else none
]

-- The loop of Contains, over lists of one length.
unfoldable pub masked_eq : List ℕ → List ℕ → Ip → Bool
masked_eq (n ∷ ns) (m ∷ ms) (x ∷ xs) = bit_and n m == bit_and x m && masked_eq ns ms xs
masked_eq _ _ _ = true

abbrev pub shortest : Ip → Ip
shortest ip = elim (to4 ip) [ some x ↦ x | none ↦ ip ]

-- A nil network number has length 0.
unfoldable pub contains : IpNet → Ip → Bool
unfolding network_number_and_mask masked_eq
contains n ip =
    let x = shortest ip in
    elim (network_number_and_mask n) [
      | none ↦ length x == 0
      | some (nn, m) ↦ length x == length nn && masked_eq nn m x
    ]
