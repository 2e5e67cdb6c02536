-- ===== src/Fingerprint/Identity.antt =====
-- ssrf.go, resolverIdentity: the text that tells two resolvers apart. What package reflect says of a resolver
-- is a record; its contents, as %#v prints them, are a text in it.
pub mod Apart
use httpc.Prelude.{ℕ, Bool, true, false, Option, none, some, ◌∷◌, ◌++◌, if◌then◌else◌}
use httpc.Prelude.Text.{Text, codes}
use httpc.Prelude.Decimal.{decimal}

-- reflect.Kind
pub data ReflectKind : Type 0 where
  pointer map_kind chan func unsafe_pointer : ReflectKind
  other : ReflectKind

pub record Reflected : Type 0 where
  pub kind : ReflectKind
  pub type_name : Text  -- reflect.Type.String, which types of two packages may share
  pub is_nil : Bool
  pub address : ℕ
  pub contents : Text

-- a key of addressableKinds
unfoldable pub is_addressable : ReflectKind → Bool
is_addressable pointer = true
is_addressable map_kind = true
is_addressable chan = true
is_addressable func = true
is_addressable unsafe_pointer = true
is_addressable other = false

unfoldable pub identity : Option Reflected → Text
identity none = codes "default"
identity (some r) =
    if is_addressable r.kind
    then (if r.is_nil
        then r.type_name ++ codes "(nil)"
        else r.type_name ++ b'@' ∷ decimal r.address)
    else r.type_name ++ r.contents
