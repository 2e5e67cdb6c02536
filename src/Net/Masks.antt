-- ===== src/Net/Masks.antt =====
-- The masks of the CIDR blocks in ssrf.go, on one byte: each value is checked.
use Prim.Native.Nat.{bit_and}
use httpc.Prelude.{
  ℕ, zero, suc, ◌<◌, ◌≤◌, ◌≡◌, ◌⊎◌, inl, inr, refl, if◌then◌else◌, Bool, true, false, ◌&&◌, arith,
  leb, ◌==◌, ==_iff, not,
}

-- The test on a number and on each one under it.
down_from : (ℕ → Bool) → ℕ → Bool
down_from test zero = test zero
down_from test (suc n) = if test (suc n) then down_from test n else false

zero_under : (x : ℕ) → x ≤ 0 → x ≡ 0
zero_under x le = omega arith

top_or_under : (x n : ℕ) → x ≤ suc n → (x ≡ suc n) ⊎ (x ≤ n)
top_or_under x n le = omega arith

tested : (test : ℕ → Bool) (n : ℕ) → down_from test n ≡ true → (x : ℕ) → x ≤ n → test x ≡ true
unfolding down_from
tested test zero ok x le = rw (zero_under x le) ok
tested test (suc n) ok x le = elim (top_or_under x n le) [
  | inl e ↦ rw e (ground arith)
  | inr l ↦ tested test n (ground arith) x l
]

abbrev byte_test : (ℕ → Bool) → Bool
byte_test test = down_from test 255

tested_byte : (test : ℕ → Bool) (x : ℕ) → x < 256 → byte_test test ≡ true → test x ≡ true
tested_byte test x lt ok = tested test 255 ok x (omega arith)

abbrev same : Bool → Bool → Bool
same true b = b
same false b = not b

same_sound : (a b : Bool) → same a b ≡ true → a ≡ b
same_sound true true h = refl
same_sound true false h = cc
same_sound false true h = cc
same_sound false false h = refl

module _ (x : ℕ) (byte : x < 256) where
  pub and-255 : bit_and x 255 ≡ x
  unfolding down_from
  and-255 = (==_iff _ x).0 (tested_byte (λ y. bit_and y 255 == y) x byte refl)

  pub and-0 : bit_and x 0 ≡ 0
  unfolding down_from
  and-0 = (==_iff _ 0).0 (tested_byte (λ y. bit_and y 0 == 0) x byte refl)

  -- /12: 172.16 to 172.31
  pub and-240 : (16 == bit_and x 240) ≡ (leb 16 x && leb x 31)
  unfolding down_from
  and-240 =
      same_sound _ _
        (tested_byte (λ y. same (16 == bit_and y 240) (leb 16 y && leb y 31)) x byte refl)

  -- /4: 240 and above
  pub and-240_top : (240 == bit_and x 240) ≡ leb 240 x
  unfolding down_from
  and-240_top =
      same_sound _ _ (tested_byte (λ y. same (240 == bit_and y 240) (leb 240 y)) x byte refl)

  -- /10: 100.64 to 100.127
  pub and-192 : (64 == bit_and x 192) ≡ (leb 64 x && leb x 127)
  unfolding down_from
  and-192 =
      same_sound _ _
        (tested_byte (λ y. same (64 == bit_and y 192) (leb 64 y && leb y 127)) x byte refl)

  -- /15: 198.18 and 198.19
  pub and-254 : (18 == bit_and x 254) ≡ (leb 18 x && leb x 19)
  unfolding down_from
  and-254 =
      same_sound _ _
        (tested_byte (λ y. same (18 == bit_and y 254) (leb 18 y && leb y 19)) x byte refl)
