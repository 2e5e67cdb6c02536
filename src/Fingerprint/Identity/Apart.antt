-- ===== src/Fingerprint/Identity/Apart.antt =====
-- ssrf.go, resolverIdentity: which resolvers have one identity.
use httpc.Prelude.{
  ℕ, ◌≡◌, ◌≢◌, ◌↔◌, ◌∙◌, sym, ap, refl, inl, inr, Bool, true, false, none, some, [], ◌∷◌, ◌++◌,
  length, all, any, leb, ◌==◌, length-append, arith, Bool-cases,
}
use httpc.Prelude.Text.{Text, codes}
use httpc.Prelude.Splits.{is_cons}
use httpc.Prelude.Decimal.{is_digit, decimal, decimal-digits, decimal-is_cons, decimal-injective}
use httpc.Fingerprint.Identity.{Reflected, is_addressable, identity}

abbrev at_sign : ℕ
at_sign = b'@'

abbrev has_at : Text → Bool
has_at t = any (λ c. c == at_sign) t

digits-no_at : (t : Text) → all is_digit t ≡ true → has_at t ≡ false
digits-no_at [] h = refl
digits-no_at (c ∷ t) h = ground (arith, digits-no_at t)

after_at : (ys es : Text) → has_at (ys ++ at_sign ∷ es) ≡ true
after_at [] es = refl
after_at (y ∷ ys) es = ground (arith, after_at ys es)

-- The last `@` of a text is found again.
last_at :
    (xs ys ds es : Text)
    → has_at ds ≡ false
    → has_at es ≡ false
    → xs ++ at_sign ∷ ds ≡ ys ++ at_sign ∷ es
    → (xs ≡ ys) × (ds ≡ es)
last_at [] [] ds es p q e = ground arith
last_at [] (y ∷ ys) ds es p q e = absurd (ground (arith, after_at ys es))
last_at (x ∷ xs) [] ds es p q e = absurd (ground (arith, after_at xs ds))
last_at (x ∷ xs) (y ∷ ys) ds es p q e = ground (arith, last_at xs ys ds es)

cancel_suffix : (xs ys t : Text) → xs ++ t ≡ ys ++ t → xs ≡ ys
cancel_suffix [] [] t e = refl
cancel_suffix [] (y ∷ ys) t e = absurd (omega (arith, ap length e, length-append (y ∷ ys) t))
cancel_suffix (x ∷ xs) [] t e = absurd (omega (arith, ap length e, length-append (x ∷ xs) t))
cancel_suffix (x ∷ xs) (y ∷ ys) t e = ground (arith, cancel_suffix xs ys t)

-- the last byte
abbrev last : Text → ℕ
last [] = 0
last (c ∷ []) = c
last (c ∷ d ∷ t) = last (d ∷ t)

last-append : (s : Text) (c : ℕ) (t : Text) → last (s ++ c ∷ t) ≡ last (c ∷ t)
last-append [] c t = refl
last-append (x ∷ []) c t = refl
last-append (x ∷ y ∷ s) c t = last-append (y ∷ s) c t

last-digit : (c : ℕ) (t : Text) → all is_digit (c ∷ t) ≡ true → leb (last (c ∷ t)) b'9' ≡ true
last-digit c [] h = ground arith
last-digit c (d ∷ t) h = ground (arith, last-digit d t)

last-digit_low : (c : ℕ) (t : Text) → all is_digit (c ∷ t) ≡ true → leb b'0' (last (c ∷ t)) ≡ true
last-digit_low c [] h = ground arith
last-digit_low c (d ∷ t) h = ground (arith, last-digit_low d t)

-- What stands for an instance ends in a digit.
last-decimal :
    (s t : Text)
    → is_cons t ≡ true
    → all is_digit t ≡ true
    → is_digit (last (s ++ at_sign ∷ t)) ≡ true
last-decimal s [] c h = absurd (ground arith)
last-decimal s (d ∷ t) c h =
    rw (last-append s at_sign (d ∷ t)) (ground (arith, last-digit d t, last-digit_low d t))

module _ (r : Reflected) (kind : is_addressable r.kind ≡ true) where
  identity-nil : r.is_nil ≡ true → identity (some r) ≡ r.type_name ++ codes "(nil)"
  unfolding identity
  identity-nil n = rw (kind, n)

  identity-instance :
      r.is_nil ≡ false → identity (some r) ≡ r.type_name ++ at_sign ∷ decimal r.address
  unfolding identity
  identity-instance n = rw (kind, n)

  last-nil : r.is_nil ≡ true → last (identity (some r)) ≡ b')'
  last-nil n = rw (identity-nil n) (last-append r.type_name b'(' (codes "nil)"))

  last-instance : r.is_nil ≡ false → is_digit (last (identity (some r))) ≡ true
  last-instance n = rw (identity-instance n) (
      last-decimal r.type_name (decimal r.address) (decimal-is_cons r.address)
        (decimal-digits r.address))

-- One that is nil and one that is not are told apart by the last byte.
nil_apart :
    (r s : Reflected) (p : is_addressable r.kind ≡ true) (q : is_addressable s.kind ≡ true)
    → r.is_nil ≡ true
    → s.is_nil ≡ false
    → identity (some r) ≢ identity (some s)
nil_apart r s p q n m e =
    let bracket = last-nil r p n in
    let digit = last-instance s q m in let same = ap last e in absurd (ground arith)

module _ (r s : Reflected) (p : is_addressable r.kind ≡ true)
    (q : is_addressable s.kind ≡ true) where
  abbrev IsSame : Type 0
  IsSame =
      (r.type_name ≡ s.type_name)
      × (r.is_nil ≡ s.is_nil)
      × (r.is_nil ≡ false → r.address ≡ s.address)

  same_of_identity : identity (some r) ≡ identity (some s) → IsSame
  same_of_identity e = elim (Bool-cases r.is_nil) [
    | inl n ↦ elim (Bool-cases s.is_nil) [
      | inl m ↦ (
        cancel_suffix r.type_name s.type_name (codes "(nil)")
            (sym (identity-nil r p n) ∙ e ∙ identity-nil s q m),
        n ∙ sym m,
        λ not_nil. ground arith,
      )
      | inr m ↦ absurd (nil_apart r s p q n m e)
    ]
    | inr n ↦ elim (Bool-cases s.is_nil) [
      | inl m ↦ absurd (nil_apart s r q p m n (sym e))
      | inr m ↦
          let (names, addresses) =
            last_at r.type_name s.type_name (decimal r.address) (decimal s.address)
              (digits-no_at (decimal r.address) (decimal-digits r.address))
              (digits-no_at (decimal s.address) (decimal-digits s.address))
              (sym (identity-instance r p n) ∙ e ∙ identity-instance s q m) in
          (names, n ∙ sym m, λ not_nil. decimal-injective r.address s.address addresses)
    ]
  ]

  identity_of_same : IsSame → identity (some r) ≡ identity (some s)
  identity_of_same (names, nils, addresses) = elim (Bool-cases r.is_nil) [
    | inl n ↦
        identity-nil r p n
        ∙ ap (λ t. t ++ codes "(nil)") names
        ∙ sym (identity-nil s q (sym nils ∙ n))
    | inr n ↦
        identity-instance r p n
        ∙ ap (λ t. t ++ at_sign ∷ decimal r.address) names
        ∙ ap (λ a. s.type_name ++ at_sign ∷ decimal a) (addresses n)
        ∙ sym (identity-instance s q (sym nils ∙ n))
  ]

  not_default : identity (some r) ≢ identity none
  unfolding identity
  not_default e = elim (Bool-cases r.is_nil) [
    | inl n ↦ let bracket = last-nil r p n in let same = ap last e in absurd (ground arith)
    | inr n ↦ let digit = last-instance r p n in let same = ap last e in absurd (ground arith)
  ]

-- Of resolvers whose kind has an address, two have one identity exactly if package reflect prints one name
-- for their types, and they are both nil or both not nil and at one address; and none has the identity of no resolver. What a
-- resolver at an address answers is no part of it.
pub identity_iff :
    (r s : Reflected)
    → is_addressable r.kind ≡ true
    → is_addressable s.kind ≡ true
    → ((identity (some r) ≡ identity (some s)) ↔ (
        (r.type_name ≡ s.type_name)
        × (r.is_nil ≡ s.is_nil)
        × (r.is_nil ≡ false → r.address ≡ s.address)))
      × (identity (some r) ≢ identity none)
identity_iff r s p q = ((same_of_identity r s p q, identity_of_same r s p q), not_default r s p q)
