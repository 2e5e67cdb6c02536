-- ===== src/Retry/Backoff.antt =====
-- helpers.go, BuildNamedBackoff: how long the waits are.
use httpc.Prelude.{ℕ, ◌+◌, ◌*◌, ◌^◌, ◌≤◌, ◌<◌, ◌≡◌, refl, arith, ltb, min, if◌then◌else◌}
use native.Mathlib.Nat.{pow-le-pow_right}
use httpc.Prelude.Text.{Text, codes, text_eq}
use httpc.Prelude.Int.{ℤ, pos, ◌≤ℤ◌, ◌*ℤ◌, wrap64, wrap64-pos}
use httpc.Retry.{at_most, at_least, raw_wait, named_backoff}

-- Every wait lies between the initial and the maximal one, for every strategy and attempt, also where
-- a product overflows, provided the initial wait is not above the maximal one.
backoff_clamped :
    (strategy : Text) (initial_wait max_wait : ℤ) (attempt : ℕ)
    → initial_wait ≤ℤ max_wait
    → (initial_wait ≤ℤ named_backoff strategy initial_wait max_wait attempt)
      × (named_backoff strategy initial_wait max_wait attempt ≤ℤ max_wait)
unfolding named_backoff
backoff_clamped strategy i m attempt h = (ground arith, ground arith)

abbrev pub exponential : Text
exponential = codes "exponential"

abbrev pub linear : Text
linear = codes "linear"

pow_mono : (i j : ℕ) → i ≤ j → 2 ^ i ≤ 2 ^ j
pow_mono i j h = pow-le-pow_right (omega arith) h

mul_mono : (n a b : ℕ) → a ≤ b → n * a ≤ n * b
mul_mono n a b h = grind arith

pow_bound : (k : ℕ) → k ≤ 10 → (1 ≤ 2 ^ k) × (2 ^ k ≤ 1024)
pow_bound k h = (pow_mono 0 k (omega arith), pow_mono k 10 h)

capped : (attempt : ℕ) → (if ltb 10 attempt then 10 else attempt) ≡ min attempt 10
capped attempt = ground arith

mul_pos : (n p : ℕ) → pos n *ℤ pos p ≡ pos (n * p)
mul_pos n p = ground arith

product : (n p : ℕ) → n * p < 2 ^ 63 → p < 2 ^ 63 → wrap64 (pos n *ℤ wrap64 (pos p)) ≡ pos (n * p)
product n p h k = rw (wrap64-pos p k, mul_pos n p, wrap64-pos (n * p) h) (refl)

clamp : (n m w : ℕ) → n ≤ m → n ≤ w → at_most (pos m) (at_least (pos n) (pos w)) ≡ pos (min w m)
clamp n m w h k = ground arith

clamped :
    (strategy : Text) (n m w attempt : ℕ)
    → raw_wait strategy (pos n) attempt ≡ pos w
    → n ≤ m
    → n ≤ w
    → named_backoff strategy (pos n) (pos m) attempt ≡ pos (min w m)
unfolding named_backoff
clamped strategy n m w attempt e h k = rw e (clamp n m w h k)

raw_exponential :
    (n attempt : ℕ)
    → n * 2 ^ min attempt 10 < 2 ^ 63
    → 2 ^ min attempt 10 < 2 ^ 63
    → raw_wait exponential (pos n) attempt ≡ pos (n * 2 ^ min attempt 10)
unfolding raw_wait text_eq
raw_exponential n attempt h k = rw (capped attempt) (product n (2 ^ min attempt 10) h k)

raw_linear :
    (n attempt : ℕ)
    → n * (attempt + 1) < 2 ^ 63
    → attempt + 1 < 2 ^ 63
    → raw_wait linear (pos n) attempt ≡ pos (n * (attempt + 1))
unfolding raw_wait text_eq
raw_linear n attempt h k = product n (attempt + 1) h k

-- The exponential strategy doubles the initial wait with each attempt up to the tenth, cut at the
-- maximal wait, as long as 1024 initial waits are less than 2^63 nanoseconds (292 years).
exponential_wait :
    (n m attempt : ℕ)
    → n * 1024 < 2 ^ 63
    → n ≤ m
    → named_backoff exponential (pos n) (pos m) attempt ≡ pos (min (n * 2 ^ min attempt 10) m)
exponential_wait n m attempt h k =
    let (low, high) = pow_bound (min attempt 10) (ground arith) in
    let upper = mul_mono n (2 ^ min attempt 10) 1024 high in
    let lower = mul_mono n 1 (2 ^ min attempt 10) low in
    clamped exponential n m (n * 2 ^ min attempt 10) attempt
      (raw_exponential n attempt (omega arith) (omega arith)) k (omega arith)

-- The linear strategy waits attempt + 1 initial waits, cut at the maximal wait, as long as that product
-- is less than 2^63.
pub linear_wait :
    (n m attempt : ℕ)
    → n * (attempt + 1) < 2 ^ 63
    → attempt + 1 < 2 ^ 63
    → n ≤ m
    → named_backoff linear (pos n) (pos m) attempt ≡ pos (min (n * (attempt + 1)) m)
linear_wait n m attempt h l k =
    let lower = mul_mono n 1 (attempt + 1) (omega arith) in
    clamped linear n m (n * (attempt + 1)) attempt (raw_linear n attempt h l) k (omega arith)
