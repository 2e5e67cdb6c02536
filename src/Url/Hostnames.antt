-- ===== src/Url/Hostnames.antt =====
-- ssrf.go, ValidateURL: metadata names and numeric hosts are refused under every policy.
use httpc.Prelude.{
  ℕ, ◌≡◌, ◌∙◌, ap, ◌⊎◌, inl, inr, refl, true, Option, none, some, [], ◌∷◌, ◌++◌, all, arith,
  Option-cases,
}
use httpc.Prelude.Text.{Text, codes, text_eq, text_eq_iff, text_mem}
use httpc.Errors.{Err, blocked_by_policy, FailsWith}
use httpc.Policy.{IpPolicy}
use httpc.Url.{
  Url, Platform, metadata_hostnames, is_non_canonical, is_digit, trim_dot, host_alias, lower_host,
  validate_url,
}
use httpc.Url.Accepted.{IsAccepted-of_passed, validate_url-blocked}

module _ (platform : Platform) where
  -- What ValidateURL compares with the tables, for a host whose lower-case form is known.
  abbrev alias_of : Text → Text
  alias_of t = host_alias platform (lower_host platform t)

  metadata_cases :
      (m : Text)
      → text_mem m metadata_hostnames ≡ true
      → (m ≡ codes "metadata.google.internal") ⊎ (m ≡ codes "metadata.goog")
  metadata_cases m h = ground (
    arith,
    text_eq_iff m (codes "metadata.google.internal"),
    text_eq_iff m (codes "metadata.goog"),
  )

  metadata_alias :
      (t m : Text)
      → text_mem m metadata_hostnames ≡ true
      → (lower_host platform t ≡ m) ⊎ (lower_host platform t ≡ m ++ b'.' ∷ [])
      → text_mem (alias_of t) metadata_hostnames ≡ true
  unfolding host_alias lower_host text_eq
  metadata_alias t m known spelled = go (metadata_cases m known) spelled
    where
      go :
          (m ≡ codes "metadata.google.internal") ⊎ (m ≡ codes "metadata.goog")
          → (lower_host platform t ≡ m) ⊎ (lower_host platform t ≡ m ++ b'.' ∷ [])
          → text_mem (alias_of t) metadata_hostnames ≡ true
      go (inl a) (inl b) = rw (b, a) refl
      go (inl a) (inr b) = rw (b, a) refl
      go (inr a) (inl b) = rw (b, a) refl
      go (inr a) (inr b) = rw (b, a) refl

  refused_of_not_passed :
      (p : Option IpPolicy) (raw : Text) (u : Url)
      → platform.parse_url raw ≡ some u
      → ¬ (validate_url platform p raw ≡ none)
      → FailsWith blocked_by_policy (validate_url platform p raw)
  refused_of_not_passed p raw u parsed h = go (Option-cases (validate_url platform p raw))
    where
      go :
          (validate_url platform p raw ≡ none)
            ⊎ ((e : Err) × (validate_url platform p raw ≡ some e))
          → FailsWith blocked_by_policy (validate_url platform p raw)
      go (inl n) = absurd (h n)
      go (inr (e, s)) = rw s (validate_url-blocked platform p raw u e parsed s)

  -- A URL whose host is a cloud metadata name, in any case and with or without the trailing dot, is
  -- refused by ErrBlockedByPolicy under every policy.
  metadata_host_refused :
      (p : Option IpPolicy) (raw m : Text) (u : Url)
      → platform.parse_url raw ≡ some u
      → text_mem m metadata_hostnames ≡ true
      → (lower_host platform u.hostname ≡ m) ⊎ (lower_host platform u.hostname ≡ m ++ b'.' ∷ [])
      → FailsWith blocked_by_policy (validate_url platform p raw)
  metadata_host_refused p raw m u parsed known spelled =
      refused_of_not_passed p raw u parsed λ passed.
        let hit = metadata_alias u.hostname m known spelled in
        let miss =
          (IsAccepted-of_passed platform p raw u parsed passed).accepted_host.not_metadata in
        ground arith

  lower_digits : (t : Text) → all is_digit t ≡ true → lower_host platform t ≡ t
  unfolding lower_host
  lower_digits [] h = refl
  lower_digits (c ∷ t) h = ground (arith, lower_digits t)

  trim_digits : (t : Text) → all is_digit t ≡ true → trim_dot t ≡ t
  unfolding trim_dot
  trim_digits [] h = refl
  trim_digits (c ∷ []) h = ground arith
  trim_digits (c ∷ d ∷ t) h = ground (arith, trim_digits (d ∷ t))

  numeric_alias : (t : Text) → all is_digit t ≡ true → alias_of t ≡ t
  unfolding host_alias
  numeric_alias t h =
      ap (λ s. trim_dot (lower_host platform s)) (lower_digits t h)
      ∙ ap trim_dot (lower_digits t h)
      ∙ trim_digits t h

  numeric_non_canonical :
      (c : ℕ) (t : Text) → all is_digit (c ∷ t) ≡ true → is_non_canonical (c ∷ t) ≡ true
  unfolding is_non_canonical
  numeric_non_canonical c t h = ground arith

  -- A URL whose host is all digits, such as 2130706433 for 127.0.0.1, is refused by
  -- ErrBlockedByPolicy under every policy.
  numeric_host_refused :
      (p : Option IpPolicy) (raw : Text) (u : Url) (c : ℕ) (t : Text)
      → platform.parse_url raw ≡ some u
      → u.hostname ≡ c ∷ t
      → all is_digit (c ∷ t) ≡ true
      → FailsWith blocked_by_policy (validate_url platform p raw)
  numeric_host_refused p raw u c t parsed host digits =
      refused_of_not_passed p raw u parsed λ passed.
        let alias : alias_of u.hostname ≡ c ∷ t = rw host (numeric_alias (c ∷ t) digits) in
        let canonical =
          (IsAccepted-of_passed platform p raw u parsed passed).accepted_host.canonical in
        let non_canonical = numeric_non_canonical c t digits in ground arith
