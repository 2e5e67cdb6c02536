-- ===== src/Retry.antt =====
-- helpers.go, BuildStatusCodeCheckRetry and BuildNamedBackoff, and client.go,
-- wrapCheckRetryWithMetrics. retryablehttp.DefaultRetryPolicy is the parameter `default_policy`.
pub mod Decisions
pub mod Backoff
mod Tests
use httpc.Prelude.{
  ℕ, suc, ◌+◌, ◌^◌, Bool, true, false, not, ◌||◌, Option, none, some, List, [], ◌∷◌, ltb, is_none,
  if◌then◌else◌,
}
use httpc.Prelude.Text.{Text, codes, text_eq}
use httpc.Prelude.Int.{ℤ, pos, eqb_ℤ, ltb_ℤ, ◌*ℤ◌, wrap64}
use httpc.Errors.{Err, is_err, blocked_by_policy}

-- What a CheckRetry function answers: whether to retry, and an error that ends the request.
pub record Answer : Type 0 where
  pub should_retry : Bool
  pub failure : Option Err

-- A CheckRetry function sees the response, of which the status code matters here, and the error;
-- either may be nil. What it reads from the context is part of the function.
abbrev pub CheckRetry : Type 0
CheckRetry = Option ℤ → Option Err → Answer

-- the loop over the codes
unfoldable pub has_code : List ℤ → ℤ → Bool
has_code [] status = false
has_code (code ∷ codes) status = eqb_ℤ status code || has_code codes status

-- An error, or no response, goes to the default policy; else the codes decide.
unfoldable pub status_code_check_retry : CheckRetry → List ℤ → CheckRetry
status_code_check_retry default_policy status_codes none (some e) = default_policy none (some e)
status_code_check_retry default_policy status_codes (some s) (some e) =
    default_policy (some s) (some e)
status_code_check_retry default_policy status_codes none none = default_policy none none
status_code_check_retry default_policy status_codes (some s) none = record {
  should_retry = has_code status_codes s;
  failure = none;
}

-- The answer, and whether the retry counter went up.
pub record Checked : Type 0 where
  pub answer : Answer
  pub counted : Bool

abbrev pub count : Answer → Checked
count a = record { answer = a; counted = a.should_retry }

-- the function given, or the default policy where it is nil
abbrev pub or_policy : CheckRetry → Option CheckRetry → CheckRetry
or_policy default_policy none = default_policy
or_policy default_policy (some original) = original

abbrev pub is_blocked : Option Err → Bool
is_blocked none = false
is_blocked (some e) = is_err blocked_by_policy e

unfoldable pub wrap_check_retry : CheckRetry → Option CheckRetry → Option ℤ → Option Err → Checked
wrap_check_retry default_policy original resp err =
    if is_blocked err
    then record { answer = record { should_retry = false; failure = err }; counted = false }
    else count (or_policy default_policy original resp err)

-- An int64 product, and the wait before the clamps. An attempt number is not negative: a shift by a
-- negative number panics in Go, and retryablehttp counts from 0.
unfoldable pub raw_wait : Text → ℤ → ℕ → ℤ
raw_wait strategy initial_wait attempt =
    if text_eq strategy (codes "none")
    then initial_wait
    else if text_eq strategy (codes "linear")
    then wrap64 (initial_wait *ℤ wrap64 (pos (attempt + 1)))
    else if text_eq strategy (codes "exponential")
    then (let exp = if ltb 10 attempt then 10 else attempt in
        wrap64 (initial_wait *ℤ wrap64 (pos (2 ^ exp))))
    else initial_wait

abbrev pub at_least : ℤ → ℤ → ℤ
at_least low wait = if ltb_ℤ wait low then low else wait

abbrev pub at_most : ℤ → ℤ → ℤ
at_most high wait = if ltb_ℤ high wait then high else wait

unfoldable pub named_backoff : Text → ℤ → ℤ → ℕ → ℤ
named_backoff strategy initial_wait max_wait attempt =
    at_most max_wait (at_least initial_wait (raw_wait strategy initial_wait attempt))
