-- ===== src/Prelude/Splits.antt =====
-- strings.Split at a byte: the parts, and texts that have only one.
use httpc.Prelude.Tests.{◌==◌}
use httpc.Prelude.Lists.{any, all}
use httpc.Prelude.Text.{Text, split_on, prepend}
use Prim.Native.Nat.{ℕ}
use mathlib.Core.Path.{◌≡◌, refl}
use mathlib.Core.Bool.{Bool, true, false, not}
use mathlib.Core.List.{List, [], ◌∷◌, ◌++◌}
use native.Mathlib.Omega.{arith}

abbrev pub is_cons {ℓ} : {A : Type ℓ} → List A → Bool
is_cons [] = false
is_cons (x ∷ xs) = true

module _ (sep : ℕ) where
  -- without the separator
  abbrev pub whole : Text → Bool
  whole t = not (any (λ c. c == sep) t)

  prepend-whole :
      (c : ℕ) (ss : List Text)
      → (c == sep) ≡ false
      → all whole ss ≡ true
      → all whole (prepend c ss) ≡ true
  prepend-whole c [] other h = ground arith
  prepend-whole c (s ∷ ss) other h = ground arith

  pub split-whole : (t : Text) → all whole (split_on sep t) ≡ true
  unfolding split_on
  split-whole [] = refl
  split-whole (c ∷ t) = ground (arith, split-whole t, prepend-whole c (split_on sep t))

  pub split-append :
      (s t : Text) → whole s ≡ true → split_on sep (s ++ sep ∷ t) ≡ s ∷ split_on sep t
  unfolding split_on
  split-append [] t w = ground arith
  split-append (c ∷ s) t w = ground (arith, split-append s t)

  pub split_whole_lem : (s : Text) → whole s ≡ true → split_on sep s ≡ s ∷ []
  unfolding split_on
  split_whole_lem [] w = refl
  split_whole_lem (c ∷ s) w = ground (arith, split_whole_lem s)

  pub split-is_cons : (t : Text) → is_cons (split_on sep t) ≡ true
  unfolding split_on
  split-is_cons [] = refl
  split-is_cons (c ∷ t) = ground (arith, split-is_cons t)
