-- ===== src/Fingerprint/Tests.antt =====
-- Fingerprints of concrete policies. A block is printed by the bytes of its address.
use httpc.Prelude.{ℕ, ◌≡◌, ◌≢◌, ◌↔◌, refl, Bool, false, Option, none, some, [], ◌∷◌}
use httpc.Prelude.Text.{Text, codes}
use httpc.Net.{IpNet}
use httpc.Policy.{IpPolicy, Lookup, default_ip_policy}
use httpc.Fingerprint.{written, net_strings, sort_texts, cidr_lines}
use httpc.Fingerprint.Identity.{Reflected, pointer, identity, is_addressable}
use httpc.Fingerprint.Identity.Apart.{identity_iff}
use httpc.Prelude.Decimal.{decimal, digits}

abbrev resolver_identity : Option (Text → Lookup) → Text
resolver_identity r = codes "default"

abbrev net_string : IpNet → Text
net_string n = n.ip

abbrev ten : Option IpNet
ten = some (record { ip = 10 ∷ 0 ∷ 0 ∷ 0 ∷ []; mask = 255 ∷ 0 ∷ 0 ∷ 0 ∷ [] })

abbrev one_nine_two : Option IpNet
one_nine_two = some (record { ip = 192 ∷ 168 ∷ 0 ∷ 0 ∷ []; mask = 255 ∷ 255 ∷ 0 ∷ 0 ∷ [] })

abbrev policy : IpPolicy
policy = record default_ip_policy { allowed_cidrs = ten ∷ one_nine_two ∷ [] }

abbrev digest : Text → Text
digest t = t

strict :
    written resolver_identity net_string (some default_ip_policy)
    ≡ codes "allowPrivate=false;trustProxyResolution=false;resolver=default;"
unfolding written net_strings sort_texts cidr_lines
strict = refl

abbrev hosted : Reflected
hosted = record {
  kind = pointer;
  type_name = codes "*main.Hosts";
  is_nil = false;
  address = 4096;
  contents = [];
}

hosted-identity : identity (some hosted) ≡ codes "*main.Hosts@4096"
unfolding identity is_addressable decimal digits
hosted-identity = refl

identity_iff_example :
    ((identity (some hosted) ≡ identity (some (record hosted { address = 8192 }))) ↔ (
      (codes "*main.Hosts" ≡ codes "*main.Hosts")
      × (◌≡◌ {A = Bool} false false)
      × (◌≡◌ {A = Bool} false false → ◌≡◌ {A = ℕ} 4096 8192)))
    × (identity (some hosted) ≢ identity none)
identity_iff_example =
    identity_iff hosted (record hosted { address = 8192 }) (unfold is_addressable in refl)
      (unfold is_addressable in refl)
