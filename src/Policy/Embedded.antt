-- ===== src/Policy/Embedded.antt =====
-- ssrf.go: IPv6 addresses that carry an IPv4 address are judged on it.
use httpc.Prelude.{
  ℕ, ◌<◌, ◌≡◌, ◌∙◌, refl, sym, true, false, Option, none, some, List, [], ◌∷◌, ◌++◌, length, arith,
  leb, ◌&&◌, ◌==◌,
}
use httpc.Prelude.Text.{text_eq}
use httpc.Net.{Ip, IpNet, contains, to4, to16, ipv4, ipv6}
use httpc.Net.Masks.{and-0}
use httpc.Policy.{
  IpPolicy, check_ip, check_body, check_private, allows, embedded_ipv4, in_any,
  nat64_well_known_net, ipv4_compatible_net, or_default, metadata_ip_nets, non_decodable_ip_nets,
  private_ip_nets,
}
use httpc.Policy.CheckIp.{check_ip-eq, check_ip_iff}

module _ (a b c d : ℕ) where
  contains-mapped : (n : IpNet) → contains n (ipv4 a b c d) ≡ contains n (a ∷ b ∷ c ∷ d ∷ [])
  unfolding contains to4
  contains-mapped n = refl

  in_any-mapped :
      (nets : List IpNet) → in_any nets (ipv4 a b c d) ≡ in_any nets (a ∷ b ∷ c ∷ d ∷ [])
  in_any-mapped [] = refl
  in_any-mapped (n ∷ ns) = rw (contains-mapped n, in_any-mapped ns)

  allows-mapped :
      (ns : List (Option IpNet)) → allows ns (ipv4 a b c d) ≡ allows ns (a ∷ b ∷ c ∷ d ∷ [])
  unfolding allows
  allows-mapped [] = refl
  allows-mapped (none ∷ ns) = allows-mapped ns
  allows-mapped (some n ∷ ns) = rw (contains-mapped n, allows-mapped ns)

  check_private-mapped :
      (p : IpPolicy) (ns : List IpNet)
      → check_private p ns (ipv4 a b c d) ≡ check_private p ns (a ∷ b ∷ c ∷ d ∷ [])
  unfolding check_private
  check_private-mapped p [] = refl
  check_private-mapped p (n ∷ ns) =
      rw (contains-mapped n, allows-mapped p.allowed_cidrs, check_private-mapped p ns)

  -- The 16-byte form ::ffff:a.b.c.d of an IPv4 address is judged as the 4-byte form is, with the
  -- same error, under every policy.
  pub check_ip-mapped :
      (p : Option IpPolicy) → check_ip p (ipv4 a b c d) ≡ check_ip p (a ∷ b ∷ c ∷ d ∷ [])
  unfolding check_body embedded_ipv4 to4 to16
  check_ip-mapped p =
      check_ip-eq p (ipv4 a b c d)
      ∙ rw
          (
            in_any-mapped metadata_ip_nets,
            in_any-mapped non_decodable_ip_nets,
            check_private-mapped (or_default p) private_ip_nets,
          )
          (sym (check_ip-eq p (a ∷ b ∷ c ∷ d ∷ [])))

  embedded_permitted :
      (p : Option IpPolicy) (ip : Ip)
      → embedded_ipv4 ip ≡ some (ipv4 a b c d)
      → check_ip p ip ≡ none
      → check_ip p (a ∷ b ∷ c ∷ d ∷ []) ≡ none
  embedded_permitted p ip e h =
      let inside = ((check_ip_iff p ip).0 h).0.embedded_permitted in
      sym (check_ip-mapped p) ∙ ground (arith, inside, e)

  -- 2002:V4ADDR::/48
  embedded-6to4 :
      (rest : Ip)
      → length rest ≡ 10
      → embedded_ipv4 (0x20 ∷ 0x02 ∷ a ∷ b ∷ c ∷ d ∷ rest) ≡ some (ipv4 a b c d)
  unfolding embedded_ipv4 to4 to16 text_eq
  embedded-6to4 rest h = rw h refl

  module _ (ha : a < 256) (hb : b < 256) (hc : c < 256) (hd : d < 256) where
    in_nat64 :
        contains nat64_well_known_net
          (ipv6 (0x64 ∷ 0xff9b ∷ 0 ∷ 0 ∷ 0 ∷ 0 ∷ []) ++ a ∷ b ∷ c ∷ d ∷ [])
        ≡ true
    unfolding contains nat64_well_known_net ipv6
    in_nat64 = rw (and-0 a ha, and-0 b hb, and-0 c hc, and-0 d hd)

    -- 64:ff9b::a.b.c.d
    embedded-nat64 :
        embedded_ipv4 (ipv6 (0x64 ∷ 0xff9b ∷ 0 ∷ 0 ∷ 0 ∷ 0 ∷ []) ++ a ∷ b ∷ c ∷ d ∷ [])
        ≡ some (ipv4 a b c d)
    unfolding embedded_ipv4 to4 to16 ipv6
    embedded-nat64 = rw in_nat64 refl

    -- ::a.b.c.d, but for :: and ::1
    embedded-compatible :
        (a == 0 && b == 0 && c == 0 && leb d 1) ≡ false
        → embedded_ipv4 (0 ∷ 0 ∷ 0 ∷ 0 ∷ 0 ∷ 0 ∷ 0 ∷ 0 ∷ 0 ∷ 0 ∷ 0 ∷ 0 ∷ a ∷ b ∷ c ∷ d ∷ [])
          ≡ some (ipv4 a b c d)
    unfolding embedded_ipv4 to4 to16 contains nat64_well_known_net ipv4_compatible_net text_eq
    embedded-compatible h = rw (and-0 a ha, and-0 b hb, and-0 c hc, and-0 d hd, h) refl

    -- Where the policy permits an address of a transition encoding (6to4, the well-known NAT64
    -- prefix, or IPv4-compatible other than :: and ::1), it permits the IPv4 address inside it.
    pub transition_encodings :
        (p : Option IpPolicy) (rest : Ip)
        → length rest ≡ 10
        → ((check_ip p (0x20 ∷ 0x02 ∷ a ∷ b ∷ c ∷ d ∷ rest) ≡ none)
            → check_ip p (a ∷ b ∷ c ∷ d ∷ []) ≡ none)
          × ((check_ip p (ipv6 (0x64 ∷ 0xff9b ∷ 0 ∷ 0 ∷ 0 ∷ 0 ∷ []) ++ a ∷ b ∷ c ∷ d ∷ []) ≡ none)
              → check_ip p (a ∷ b ∷ c ∷ d ∷ []) ≡ none)
          × ((a == 0 && b == 0 && c == 0 && leb d 1) ≡ false
              → check_ip p (0 ∷ 0 ∷ 0 ∷ 0 ∷ 0 ∷ 0 ∷ 0 ∷ 0 ∷ 0 ∷ 0 ∷ 0 ∷ 0 ∷ a ∷ b ∷ c ∷ d ∷ [])
                ≡ none
              → check_ip p (a ∷ b ∷ c ∷ d ∷ []) ≡ none)
    transition_encodings p rest len = (
      embedded_permitted p _ (embedded-6to4 rest len),
      embedded_permitted p _ embedded-nat64,
      λ plain. embedded_permitted p _ (embedded-compatible plain),
    )
