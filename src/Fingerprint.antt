-- ===== src/Fingerprint.antt =====
-- ssrf.go: the fingerprint of a policy, on which cached responses are keyed. It takes the identity of
-- a resolver as a parameter: Fingerprint/Identity has the source's.
pub mod Sorted
pub mod Lines
pub mod Verdicts
pub mod Orders
pub mod Identity
mod Tests
use httpc.Prelude.{
  ℕ, Bool, true, false, ◌&&◌, ◌||◌, Option, none, some, List, [], ◌∷◌, ◌++◌, ltb, ◌==◌,
  if◌then◌else◌,
}
use httpc.Prelude.Text.{Text, codes}
use httpc.Net.{IpNet}
use httpc.Policy.{IpPolicy, Lookup}

-- the order of Go's strings
unfoldable pub text_leb : Text → Text → Bool
text_leb [] t = true
text_leb (c ∷ s) [] = false
text_leb (c ∷ s) (d ∷ t) = ltb c d || (c == d && text_leb s t)

unfoldable pub insert_text : Text → List Text → List Text
insert_text s [] = s ∷ []
insert_text s (t ∷ ts) =
    let rest = insert_text s ts in if text_leb s t then s ∷ t ∷ ts else t ∷ rest

-- sort.Strings
unfoldable pub sort_texts : List Text → List Text
sort_texts [] = []
sort_texts (s ∷ ss) = insert_text s (sort_texts ss)

-- %t
abbrev pub show_bool : Bool → Text
show_bool true = codes "true"
show_bool false = codes "false"

-- `name=value;`
abbrev pub line : Text → Text → Text
line name value = name ++ (value ++ (b';' ∷ []))

unfoldable pub cidr_lines : List Text → Text
cidr_lines [] = []
cidr_lines (c ∷ cs) = line (codes "cidr=") c ++ cidr_lines cs

-- resolverIdentity, which looks at a resolver by reflection, IPNet.String, and the first 16 digits of the
-- SHA-256 in hexadecimal are parameters.
module _ (resolver_identity : Option (Text → Lookup) → Text) (net_string : IpNet → Text) where
  -- the loop over AllowedCIDRs
  unfoldable pub net_strings : List (Option IpNet) → List Text
  net_strings [] = []
  net_strings (none ∷ ns) = net_strings ns
  net_strings (some n ∷ ns) = net_string n ∷ net_strings ns

  -- what is written to the hash
  unfoldable pub written : Option IpPolicy → Text
  written none = codes "nil"
  written (some p) =
      line (codes "allowPrivate=") (show_bool p.allow_private)
      ++ (line (codes "trustProxyResolution=") (show_bool p.trust_proxy_resolution)
          ++ (line (codes "resolver=") (resolver_identity p.resolver)
              ++ cidr_lines (sort_texts (net_strings p.allowed_cidrs))))

  unfoldable pub fingerprint : (Text → Text) → Option IpPolicy → Text
  fingerprint short_digest p = short_digest (written p)
