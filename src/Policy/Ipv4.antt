-- ===== src/Policy/Ipv4.antt =====
-- ssrf.go: what the default policy decides on an IPv4 address, in numbers.
use httpc.Prelude.{
  ℕ, ◌<◌, ◌≡◌, ◌∙◌, refl, sym, ◌↔◌, ◌⊎◌, inl, inr, Bool-cases, Bool, true, false, ◌&&◌, ◌||◌,
  Option, none, [], ◌∷◌, arith, leb, ◌==◌,
}
use httpc.Net.{contains, to4, to16}
use httpc.Net.Masks.{and-255, and-0, and-240, and-240_top, and-192, and-254}
use httpc.Policy.CheckIp.{IsPermissible, check_ip_iff}
use httpc.Policy.{
  IpPolicy, or_default, allows, in_any, check_ip, embedded_ipv4, metadata_ip_nets,
  non_decodable_ip_nets, private_ip_nets,
}

-- The blocks of privateCIDRs, as conditions on the bytes.
abbrev pub is_reserved : ℕ → ℕ → ℕ → ℕ → Bool
is_reserved a b c d =
    0 == a
    || (10 == a
        || ((172 == a && (leb 16 b && leb b 31))
            || ((192 == a && 168 == b)
                || (127 == a
                    || ((169 == a && 254 == b)
                        || ((100 == a && (leb 64 b && leb b 127))
                            || ((192 == a && (0 == b && 0 == c))
                                || ((198 == a && (leb 18 b && leb b 19)) || leb 240 a))))))))

-- The blocks of metadataCIDRs, as conditions on the bytes.
abbrev pub is_metadata : ℕ → ℕ → ℕ → ℕ → Bool
is_metadata a b c d =
    (a == 169 && b == 254 && c == 169 && d == 254)
    || (a == 169 && b == 254 && c == 170 && d == 2)
    || (a == 169 && b == 254 && c == 170 && d == 23)
    || (a == 100 && b == 100 && c == 100 && d == 200)

and_true : (x : Bool) → (x && true) ≡ x
and_true true = refl
and_true false = refl

or_false : (x : Bool) → (x || false) ≡ x
or_false true = refl
or_false false = refl

-- 255.255.255.255 is in 240.0.0.0/4.
broadcast : (a : ℕ) (rest : Bool) → (leb 240 a || (255 == a && rest)) ≡ leb 240 a
broadcast a rest = ground arith

module _ (a b c d : ℕ) (ha : a < 256) (hb : b < 256) (hc : c < 256) (hd : d < 256) where
  in_metadata : in_any metadata_ip_nets (a ∷ b ∷ c ∷ d ∷ []) ≡ is_metadata a b c d
  unfolding metadata_ip_nets contains
  in_metadata = rw (and-255 a ha, and-255 b hb, and-255 c hc, and-255 d hd) (ground arith)

  in_non_decodable : in_any non_decodable_ip_nets (a ∷ b ∷ c ∷ d ∷ []) ≡ false
  unfolding non_decodable_ip_nets contains
  in_non_decodable = refl

  in_private : in_any private_ip_nets (a ∷ b ∷ c ∷ d ∷ []) ≡ is_reserved a b c d
  unfolding private_ip_nets contains
  in_private =
      rw
        (
          and-255 a ha,
          and-255 b hb,
          and-255 c hc,
          and-255 d hd,
          and-0 b hb,
          and-0 c hc,
          and-0 d hd,
          and-240 b hb,
          and-192 b hb,
          and-254 b hb,
          and-240_top a ha,
        )
        (simp (and_true, or_false, broadcast))

  permissible :
      (p : Option IpPolicy) → is_metadata a b c d ≡ false → IsPermissible p (a ∷ b ∷ c ∷ d ∷ [])
  unfolding embedded_ipv4 to4 to16
  permissible p h = record {
    well_formed = refl;
    not_empty = refl;
    not_metadata = in_metadata ∙ h;
    decodable = in_non_decodable;
    embedded_permitted = refl;
  }

  -- A policy permits an IPv4 address, given by its four bytes, exactly if it is none of the four
  -- metadata addresses, and the policy allows private addresses, or the address is in none of the
  -- reserved ranges (written here as conditions on the bytes), or it is in one of the exceptions.
  pub check_ipv4_iff :
      (p : Option IpPolicy)
      → (check_ip p (a ∷ b ∷ c ∷ d ∷ []) ≡ none) ↔ (
          (is_metadata a b c d ≡ false)
          × (((or_default p).allow_private ≡ true)
              ⊎ (is_reserved a b c d ≡ false)
              ⊎ (allows (or_default p).allowed_cidrs (a ∷ b ∷ c ∷ d ∷ []) ≡ true)))
  check_ipv4_iff p =
      let iff = check_ip_iff p (a ∷ b ∷ c ∷ d ∷ []) in
      (
        λ h. (sym in_metadata ∙ (iff.0 h).0.not_metadata, ground (arith, (iff.0 h).1, in_private)),
        λ h. iff.1 (permissible p h.0, ground (arith, h.1, in_private)),
      )

  metadata_reserved : is_metadata a b c d ≡ true → is_reserved a b c d ≡ true
  metadata_reserved h = ground arith

  -- Under the default policy (none is configured) the permitted IPv4 addresses are exactly those
  -- outside the reserved ranges.
  default_ipv4_iff : (check_ip none (a ∷ b ∷ c ∷ d ∷ []) ≡ none) ↔ (is_reserved a b c d ≡ false)
  unfolding allows
  default_ipv4_iff = (
    λ h. ground (arith, ((check_ipv4_iff none).0 h).1),
    λ h. (check_ipv4_iff none).1 (not_metadata h, inr (inl h)),
  )
    where
      not_metadata : is_reserved a b c d ≡ false → is_metadata a b c d ≡ false
      not_metadata h = elim (Bool-cases (is_metadata a b c d)) [
        | inl m ↦ absurd (let r = metadata_reserved m in cc)
        | inr m ↦ m
      ]
