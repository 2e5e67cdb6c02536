-- ===== src/Prelude/Decimal.antt =====
-- Decimal digits of a natural number, as %d prints them, and what can be read back from them.
use httpc.Prelude.Tests.{ltb, leb, if◌then◌else◌, Bool-cases}
use httpc.Prelude.Lists.{all}
use httpc.Prelude.Text.{Text}
use httpc.Prelude.Splits.{is_cons}
use Prim.Native.Nat.{ℕ, zero, suc, ◌+◌, ◌-◌, ◌*◌, ◌/◌, ◌%◌, ◌<◌}
use mathlib.Core.Path.{◌≡◌, refl, ◌∙◌, sym, ap}
use mathlib.Core.Logic.{inl, inr}
use mathlib.Core.Bool.{Bool, true, ◌&&◌}
use mathlib.Core.List.{[], ◌∷◌, ◌++◌}
use native.Mathlib.Omega.{arith}

-- on fuel: a number has fewer digits than the number after it is great
unfoldable pub digits : ℕ → ℕ → Text
digits zero n = []
digits (suc fuel) n =
    let rest = digits fuel (n / 10) in
    if ltb n 10 then (b'0' + n) ∷ [] else rest ++ (b'0' + n % 10) ∷ []

unfoldable pub decimal : ℕ → Text
unfolding digits
decimal n = digits (suc n) n

abbrev pub is_digit : ℕ → Bool
is_digit c = leb b'0' c && leb c b'9'

value : ℕ → Text → ℕ
value n [] = n
value n (c ∷ cs) = value (n * 10 + (c - b'0')) cs

value-append : (n : ℕ) (s t : Text) → value n (s ++ t) ≡ value (value n s) t
unfolding value
value-append n [] t = refl
value-append n (c ∷ s) t = value-append (n * 10 + (c - b'0')) s t

value-digits : (fuel n : ℕ) → n < fuel → value 0 (digits fuel n) ≡ n
unfolding digits value
value-digits zero n h = absurd (omega arith)
value-digits (suc fuel) n h = elim (Bool-cases (ltb n 10)) [
  | inl small ↦ rw small (omega arith)
  | inr big ↦
      let rest = value-digits fuel (n / 10) (ground (arith, big)) in
      rw (big, value-append 0 (digits fuel (n / 10)) ((b'0' + n % 10) ∷ []), rest) (omega arith)
]

all-append :
    (s t : Text) → all is_digit s ≡ true → all is_digit t ≡ true → all is_digit (s ++ t) ≡ true
all-append [] t a b = b
all-append (c ∷ s) t a b = ground (arith, all-append s t)

all-digits : (fuel n : ℕ) → all is_digit (digits fuel n) ≡ true
unfolding digits
all-digits zero n = refl
all-digits (suc fuel) n = elim (Bool-cases (ltb n 10)) [
  | inl small ↦ rw small (ground (arith, small))
  | inr big ↦ rw big (
      all-append (digits fuel (n / 10)) ((b'0' + n % 10) ∷ []) (all-digits fuel (n / 10))
        (ground arith))
]

append-is_cons : (s t : Text) → is_cons t ≡ true → is_cons (s ++ t) ≡ true
append-is_cons [] t h = h
append-is_cons (c ∷ s) t h = refl

pub decimal-is_cons : (n : ℕ) → is_cons (decimal n) ≡ true
unfolding decimal digits
decimal-is_cons n = elim (Bool-cases (ltb n 10)) [
  | inl small ↦ rw small
  | inr big ↦ rw big (append-is_cons (digits n (n / 10)) ((b'0' + n % 10) ∷ []) refl)
]

pub decimal-digits : (n : ℕ) → all is_digit (decimal n) ≡ true
unfolding decimal
decimal-digits n = all-digits (suc n) n

-- The number can be read back.
pub decimal-injective : (m n : ℕ) → decimal m ≡ decimal n → m ≡ n
unfolding decimal
decimal-injective m n e =
    sym (value-digits (suc m) m (omega arith))
    ∙ ap (value 0) e
    ∙ value-digits (suc n) n (omega arith)
