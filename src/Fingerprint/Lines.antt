-- ===== src/Fingerprint/Lines.antt =====
-- ssrf.go, fingerprint: what is written to the hash can be read back, line by line.
use httpc.Prelude.{
  ℕ, ◌≡◌, refl, ap, ◌∙◌, sym, Bool, true, false, Option, none, some, List, [], ◌∷◌, ◌++◌, all,
  append_assoc, arith,
}
use httpc.Prelude.Text.{Text, codes, split_on}
use httpc.Prelude.Splits.{whole, split-append}
use httpc.Policy.{IpPolicy, Lookup}
use httpc.Net.{IpNet}
use httpc.Fingerprint.{line, cidr_lines, show_bool, written, sort_texts, net_strings, insert_text}

abbrev semicolon : ℕ
semicolon = b';'

-- text without a semicolon
abbrev pub one_line : Text → Bool
one_line t = whole semicolon t

whole-append : (s t : Text) → one_line s ≡ true → one_line t ≡ true → one_line (s ++ t) ≡ true
whole-append [] t a b = b
whole-append (c ∷ s) t a b = ground (arith, whole-append s t)

split-line :
    (name value t : Text)
    → one_line name ≡ true
    → one_line value ≡ true
    → split_on semicolon (line name value ++ t) ≡ (name ++ value) ∷ split_on semicolon t
split-line name value t a b =
    ap (split_on semicolon) (
      append_assoc name (value ++ (semicolon ∷ [])) t
      ∙ ap (λ u. name ++ u) (append_assoc value (semicolon ∷ []) t)
      ∙ sym (append_assoc name value (semicolon ∷ t)))
    ∙ split-append semicolon (name ++ value) t (whole-append name value a b)

-- The lines of the blocks, and the empty text after the last semicolon.
abbrev records : List Text → List Text
records [] = [] ∷ []
records (c ∷ cs) = (codes "cidr=" ++ c) ∷ records cs

records-injective : (cs ds : List Text) → records cs ≡ records ds → cs ≡ ds
records-injective [] [] e = refl
records-injective [] (d ∷ ds) e = absurd (ground arith)
records-injective (c ∷ cs) [] e = absurd (ground arith)
records-injective (c ∷ cs) (d ∷ ds) e = ground (arith, records-injective cs ds)

split-cidr_lines :
    (cs : List Text) → all one_line cs ≡ true → split_on semicolon (cidr_lines cs) ≡ records cs
unfolding cidr_lines split_on
split-cidr_lines [] h = refl
split-cidr_lines (c ∷ cs) h =
    split-line (codes "cidr=") c (cidr_lines cs) refl (ground arith)
    ∙ ap (λ ls. (codes "cidr=" ++ c) ∷ ls) (split-cidr_lines cs (ground arith))

module _ (resolver_identity : Option (Text → Lookup) → Text) (net_string : IpNet → Text) where
  abbrev sorted_nets : IpPolicy → List Text
  sorted_nets p = sort_texts (net_strings resolver_identity net_string p.allowed_cidrs)

  show_bool-one_line : (b : Bool) → one_line (show_bool b) ≡ true
  show_bool-one_line true = refl
  show_bool-one_line false = refl

  all-insert_text :
      (t : Text) (ts : List Text)
      → one_line t ≡ true
      → all one_line ts ≡ true
      → all one_line (insert_text t ts) ≡ true
  unfolding insert_text
  all-insert_text t [] a b = ground arith
  all-insert_text t (u ∷ ts) a b = ground (arith, all-insert_text t ts)

  all-sort_texts : (ts : List Text) → all one_line ts ≡ true → all one_line (sort_texts ts) ≡ true
  unfolding sort_texts
  all-sort_texts [] h = refl
  all-sort_texts (t ∷ ts) h = ground (arith, all-sort_texts ts, all-insert_text t (sort_texts ts))

  module _ (net_line : (n : IpNet) → one_line (net_string n) ≡ true) where
    all-net_strings :
        (ns : List (Option IpNet))
        → all one_line (net_strings resolver_identity net_string ns) ≡ true
    unfolding net_strings
    all-net_strings [] = refl
    all-net_strings (none ∷ ns) = all-net_strings ns
    all-net_strings (some n ∷ ns) = ground (arith, net_line n, all-net_strings ns)

    abbrev fields : IpPolicy → List Text
    fields p =
        (codes "allowPrivate=" ++ show_bool p.allow_private)
        ∷ (codes "trustProxyResolution=" ++ show_bool p.trust_proxy_resolution)
        ∷ (codes "resolver=" ++ resolver_identity p.resolver)
        ∷ records (sorted_nets p)

    split-written :
        (p : IpPolicy)
        → one_line (resolver_identity p.resolver) ≡ true
        → split_on semicolon (written resolver_identity net_string (some p)) ≡ fields p
    unfolding written
    split-written p h =
        let nets = cidr_lines (sorted_nets p) in
        let resolver = line (codes "resolver=") (resolver_identity p.resolver) ++ nets in
        let trust =
          line (codes "trustProxyResolution=") (show_bool p.trust_proxy_resolution) ++ resolver in
        split-line (codes "allowPrivate=") (show_bool p.allow_private) trust refl
          (show_bool-one_line p.allow_private)
        ∙ ap (λ ls. (codes "allowPrivate=" ++ show_bool p.allow_private) ∷ ls)
            (split-line (codes "trustProxyResolution=") (show_bool p.trust_proxy_resolution)
                resolver refl (show_bool-one_line p.trust_proxy_resolution)
              ∙ ap
                  (λ ls. (codes "trustProxyResolution=" ++ show_bool p.trust_proxy_resolution) ∷ ls)
                  (split-line (codes "resolver=") (resolver_identity p.resolver) nets refl h
                    ∙ ap (λ ls. (codes "resolver=" ++ resolver_identity p.resolver) ∷ ls)
                        (split-cidr_lines (sorted_nets p) (
                          all-sort_texts (net_strings resolver_identity net_string p.allowed_cidrs)
                            (all-net_strings p.allowed_cidrs)))))

    show_bool-injective : (a b : Bool) → show_bool a ≡ show_bool b → a ≡ b
    show_bool-injective true true e = refl
    show_bool-injective true false e = absurd (ground arith)
    show_bool-injective false true e = absurd (ground arith)
    show_bool-injective false false e = refl

    -- What is written determines the fields of the policy.
    pub written-injective :
        (p q : IpPolicy)
        → one_line (resolver_identity p.resolver) ≡ true
        → one_line (resolver_identity q.resolver) ≡ true
        → written resolver_identity net_string (some p)
          ≡ written resolver_identity net_string (some q)
        → (p.allow_private ≡ q.allow_private)
          × ((p.trust_proxy_resolution ≡ q.trust_proxy_resolution)
              × ((resolver_identity p.resolver ≡ resolver_identity q.resolver)
                  × (sorted_nets p ≡ sorted_nets q)))
    written-injective p q a b e =
        let same : fields p ≡ fields q =
          sym (split-written p a) ∙ ap (split_on semicolon) e ∙ split-written q b in
        ground (
          arith,
          same,
          show_bool-injective p.allow_private q.allow_private,
          show_bool-injective p.trust_proxy_resolution q.trust_proxy_resolution,
          records-injective (sorted_nets p) (sorted_nets q),
        )
