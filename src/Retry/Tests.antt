-- ===== src/Retry/Tests.antt =====
-- The backoff and the retry decisions on concrete attempts, and the theorems at inputs.
use httpc.Prelude.{◌≡◌, refl, none, some, List, [], ◌∷◌, arith, is_some}
use httpc.Prelude.Text.{codes, text_eq}
use httpc.Prelude.Int.{ℤ, pos, wrap64}
use httpc.Errors.{Err, sentinel, wrap, blocked_by_policy}
use httpc.Retry.{
  CheckRetry, Checked, named_backoff, raw_wait, status_code_check_retry, wrap_check_retry,
}
use httpc.Retry.Backoff.{exponential, linear, linear_wait}

waits :
    (named_backoff (codes "none") (pos 3) (pos 100) 9 ≡ pos 3)
    × (named_backoff linear (pos 3) (pos 100) 9 ≡ pos 30)
    × (named_backoff exponential (pos 3) (pos 100) 4 ≡ pos 48)
    × (named_backoff exponential (pos 3) (pos 100) 40 ≡ pos 100)
unfolding named_backoff raw_wait wrap64 text_eq
waits = (refl, refl, refl, refl)

linear_wait_example : named_backoff linear (pos 3) (pos 100) 9 ≡ pos 30
linear_wait_example = linear_wait 3 100 9 (omega arith) (omega arith) (omega arith)

-- a default policy that retries what has an error
abbrev on_error : CheckRetry
on_error resp failure = record { should_retry = is_some failure; failure = none }

abbrev busy_codes : List ℤ
busy_codes = pos 429 ∷ pos 503 ∷ []

abbrev after_503 : Checked
after_503 =
    wrap_check_retry on_error (some (status_code_check_retry on_error busy_codes)) (some (pos 503))
      none

abbrev refusal : Err
refusal = wrap "refusing to dial unresolvable address" (sentinel blocked_by_policy)
