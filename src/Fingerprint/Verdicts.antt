-- ===== src/Fingerprint/Verdicts.antt =====
-- ssrf.go, fingerprint: policies that write the same to the hash decide the same.
use httpc.Prelude.{
  ℕ, zero, suc, ◌≡◌, inl, inr, refl, ◌∙◌, sym, true, Option, none, some, List, [], ◌∷◌, arith,
  Option-cases,
}
use httpc.Prelude.Text.{Text, text_eq_iff, text_eq_refl, text_mem}
use httpc.Net.{Ip, IpNet, contains}
use httpc.Policy.{
  IpPolicy, Lookup, allows, check_private, check_body, check_ip_fuel, check_ip, private_ip_nets,
  embedded_ipv4,
}
use httpc.Fingerprint.{net_strings, written, sort_texts}
use httpc.Fingerprint.Sorted.{mem-sort_texts}
use httpc.Fingerprint.Lines.{one_line, written-injective}

-- An address passes an exact pair of policies alike, if they agree on these two points.
module _ (p q : IpPolicy) (same_private : p.allow_private ≡ q.allow_private)
    (same_nets : (ip : Ip) → allows p.allowed_cidrs ip ≡ allows q.allowed_cidrs ip) where
  check_private-eq : (ns : List IpNet) (ip : Ip) → check_private p ns ip ≡ check_private q ns ip
  unfolding check_private
  check_private-eq [] ip = refl
  check_private-eq (n ∷ ns) ip = ground (arith, same_nets ip, check_private-eq ns ip)

  check_ip_fuel-eq : (f : ℕ) (ip : Ip) → check_ip_fuel f (some p) ip ≡ check_ip_fuel f (some q) ip
  unfolding check_ip_fuel check_body
  check_ip_fuel-eq zero ip = refl
  check_ip_fuel-eq (suc f) ip = elim (Option-cases (embedded_ipv4 ip)) [
    | inl plain ↦ ground (arith, plain, same_private, check_private-eq private_ip_nets ip)
    | inr (v4, inside) ↦
        ground
          (arith, inside, same_private, check_private-eq private_ip_nets ip, check_ip_fuel-eq f v4)
  ]

module _ (resolver_identity : Option (Text → Lookup) → Text) (net_string : IpNet → Text)
    (net_law : (m n : IpNet) (ip : Ip)
      → net_string m ≡ net_string n
      → contains m ip ≡ contains n ip) where
  abbrev strings : List (Option IpNet) → List Text
  strings = net_strings resolver_identity net_string

  allows_found :
      (n : IpNet) (ns : List (Option IpNet)) (ip : Ip)
      → text_mem (net_string n) (strings ns) ≡ true
      → contains n ip ≡ true
      → allows ns ip ≡ true
  unfolding net_strings allows
  allows_found n [] ip h c = absurd (ground arith)
  allows_found n (none ∷ ns) ip h c = allows_found n ns ip h c
  allows_found n (some m ∷ ns) ip h c =
      ground
        (arith, allows_found n ns ip, net_law n m ip, text_eq_iff (net_string n) (net_string m))

  allows_within :
      (ms ns : List (Option IpNet)) (ip : Ip)
      → ((t : Text) → text_mem t (strings ms) ≡ true → text_mem t (strings ns) ≡ true)
      → allows ms ip ≡ true
      → allows ns ip ≡ true
  unfolding net_strings allows
  allows_within [] ns ip within h = absurd (ground arith)
  allows_within (none ∷ ms) ns ip within h = allows_within ms ns ip within h
  allows_within (some m ∷ ms) ns ip within h = ground (
    arith,
    within (net_string m) (ground (arith, text_eq_refl (net_string m))),
    allows_found m ns ip,
    allows_within ms ns ip (λ t here. within t (ground (arith, here))),
  )

  allows-eq :
      (ms ns : List (Option IpNet)) (ip : Ip)
      → sort_texts (strings ms) ≡ sort_texts (strings ns)
      → allows ms ip ≡ allows ns ip
  allows-eq ms ns ip e =
      let there : (t : Text) → text_mem t (strings ms) ≡ text_mem t (strings ns) =
        λ t. ground (arith, mem-sort_texts t (strings ms), mem-sort_texts t (strings ns), e) in
      ground (
        arith,
        allows_within ms ns ip (λ t here. sym (there t) ∙ here),
        allows_within ns ms ip (λ t here. there t ∙ here),
      )

  -- Two policies that write the same to the hash decide the same on every address, treat the resolution by
  -- a proxy alike, and have resolvers of the same identity. This takes of IPNet.String that equal texts mean
  -- blocks with the same addresses, and, as of the identities of the two resolvers, that it has no semicolon.
  pub written-eq :
      (p q : IpPolicy) (ip : Ip)
      → ((n : IpNet) → one_line (net_string n) ≡ true)
      → one_line (resolver_identity p.resolver) ≡ true
      → one_line (resolver_identity q.resolver) ≡ true
      → written resolver_identity net_string (some p)
        ≡ written resolver_identity net_string (some q)
      → (check_ip (some p) ip ≡ check_ip (some q) ip)
        × ((p.trust_proxy_resolution ≡ q.trust_proxy_resolution)
            × (resolver_identity p.resolver ≡ resolver_identity q.resolver))
  unfolding check_ip
  written-eq p q ip net_line a b e =
      let (same_private, (same_trust, (same_resolver, same_nets))) =
        written-injective resolver_identity net_string net_line p q a b e in
      (
        check_ip_fuel-eq p q same_private
            (λ ip'. allows-eq p.allowed_cidrs q.allowed_cidrs ip' same_nets) 2 ip,
        (same_trust, same_resolver),
      )
