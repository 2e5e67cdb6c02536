-- ===== src/Errors.antt =====
-- Go errors, as the chain that `errors.Is` and `errors.As` walk.
-- The text of a message keeps its fixed part; the values that a format puts in are left out.
use httpc.Prelude.{String, Bool, true, false, Option, none, some, ◌≡◌, ◌⊎◌, inl, inr, refl}

-- The package's sentinels (circuitbreaker.go, client.go, compression.go, ssrf.go) and the ones of
-- the standard library that the package compares with.
pub data Sentinel : Type 0 where
  circuit_breaker_open : Sentinel
  cache_size_limit_exceeded : Sentinel
  response_body_too_large : Sentinel
  decompression_bomb_detected : Sentinel
  blocked_by_policy : Sentinel
  eof : Sentinel
  not_exist : Sentinel
  canceled : Sentinel
  deadline_exceeded : Sentinel
  conn_refused : Sentinel

pub Sentinel-discrete : Discrete Sentinel
Sentinel-discrete = hlevel

abbrev pub same_sentinel : Sentinel → Sentinel → Bool
same_sentinel circuit_breaker_open circuit_breaker_open = true
same_sentinel cache_size_limit_exceeded cache_size_limit_exceeded = true
same_sentinel response_body_too_large response_body_too_large = true
same_sentinel decompression_bomb_detected decompression_bomb_detected = true
same_sentinel blocked_by_policy blocked_by_policy = true
same_sentinel eof eof = true
same_sentinel not_exist not_exist = true
same_sentinel canceled canceled = true
same_sentinel deadline_exceeded deadline_exceeded = true
same_sentinel conn_refused conn_refused = true
same_sentinel _ _ = false

pub data Err : Type 0 where
  sentinel : Sentinel → Err
  new : String → Err  -- errors.New, or fmt.Errorf with no %w
  wrap : String → Err → Err  -- fmt.Errorf with %w
  dns : Bool → Err  -- *net.DNSError, with its IsNotFound

-- errors.Is(err, target), at a sentinel target
unfoldable pub is_err : Sentinel → Err → Bool
is_err s (sentinel t) = same_sentinel s t
is_err s (new m) = false
is_err s (wrap m e) = is_err s e
is_err s (dns b) = false

-- errors.As(err, &dnsErr) with dnsErr.IsNotFound
unfoldable pub is_dns_not_found : Err → Bool
is_dns_not_found (sentinel t) = false
is_dns_not_found (new m) = false
is_dns_not_found (wrap m e) = is_dns_not_found e
is_dns_not_found (dns b) = b

-- The error of a fallible check, where there is one, is of the given kind.
abbrev pub FailsWith : Sentinel → Option Err → Type 0
FailsWith s none = ⊥
FailsWith s (some e) = is_err s e ≡ true

-- A value or an error, where Go returns both and exactly one is meant.
pub data Result {ℓ} (A : Type ℓ) : Type ℓ where
  ok : A → Result A
  err : Err → Result A

infixl 5 ◌>>=◌
abbrev pub ◌>>=◌ {ℓ κ} : {A : Type ℓ} {B : Type κ} → Result A → (A → Result B) → Result B
ok a >>= f = f a
err e >>= f = err e

pub Result-cases {ℓ} :
    {A : Type ℓ} (r : Result A) → ((a : A) × (r ≡ ok a)) ⊎ ((e : Err) × (r ≡ err e))
Result-cases (ok a) = inl (a, refl)
Result-cases (err e) = inr (e, refl)
