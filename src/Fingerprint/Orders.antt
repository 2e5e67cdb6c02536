-- ===== src/Fingerprint/Orders.antt =====
-- ssrf.go, fingerprint: the order of the exceptions does not matter.
use httpc.Prelude.{◌≡◌, refl, sym, ap, ◌∙◌, Option, none, some, List, ◌∷◌, ◌++◌, []}
use httpc.Prelude.Text.{Text, codes}
use httpc.Net.{IpNet}
use httpc.Policy.{IpPolicy, Lookup}
use httpc.Fingerprint.{
  net_strings, written, sort_texts, insert_text, fingerprint, line, show_bool, cidr_lines,
}
use httpc.Fingerprint.Sorted.{insert_text_comm}
use mathlib.Core.List.{foldr, Perm}
use mathlib.Core.List.Perm as Perm

module _ (resolver_identity : Option (Text → Lookup) → Text) (net_string : IpNet → Text) where
  abbrev sorted : List (Option IpNet) → List Text
  sorted ns = sort_texts (net_strings resolver_identity net_string ns)

  -- one block, put into its place
  abbrev place : Option IpNet → List Text → List Text
  place none ts = ts
  place (some n) ts = insert_text (net_string n) ts

  place_comm : (m n : Option IpNet) (ts : List Text) → place m (place n ts) ≡ place n (place m ts)
  place_comm none n ts = refl
  place_comm (some m) none ts = refl
  place_comm (some m) (some n) ts = insert_text_comm (net_string m) (net_string n) ts

  sorted-foldr : (ns : List (Option IpNet)) → sorted ns ≡ foldr place [] ns
  unfolding net_strings sort_texts
  sorted-foldr [] = refl
  sorted-foldr (none ∷ ns) = sorted-foldr ns
  sorted-foldr (some n ∷ ns) = ap (insert_text (net_string n)) (sorted-foldr ns)

  sorted-Perm : (ms ns : List (Option IpNet)) → Perm ms ns → sorted ms ≡ sorted ns
  sorted-Perm ms ns h =
      let is_set : IsSet (List Text) = hlevel in
      sorted-foldr ms ∙ Perm.foldr-eq is_set place place_comm h [] ∙ sym (sorted-foldr ns)

  -- Policies that differ only in the order of their exceptions have the same fingerprint.
  fingerprint-Perm :
      (short_digest : Text → Text) (p : IpPolicy) (nets : List (Option IpNet))
      → Perm p.allowed_cidrs nets
      → fingerprint resolver_identity net_string short_digest (some p)
        ≡ fingerprint resolver_identity net_string short_digest
            (some (record p { allowed_cidrs = nets }))
  unfolding fingerprint written
  fingerprint-Perm short_digest p nets h =
      ap
        (λ ts. short_digest (
          line (codes "allowPrivate=") (show_bool p.allow_private)
          ++ (line (codes "trustProxyResolution=") (show_bool p.trust_proxy_resolution)
              ++ (line (codes "resolver=") (resolver_identity p.resolver) ++ cidr_lines ts))))
        (sorted-Perm p.allowed_cidrs nets h)
