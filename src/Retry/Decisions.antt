-- ===== src/Retry/Decisions.antt =====
-- helpers.go and client.go: which requests are tried again.
use httpc.Prelude.{
  String, ◌≡◌, ◌⊎◌, ◌↔◌, refl, inl, inr, Bool, true, false, Option, none, some, List, [], ◌∷◌,
  arith, is_some, Bool-cases,
}
use mathlib.Core.List.{Mem, mem-cons, mem-cons_of_mem, not-mem-nil}
use mathlib.Core.Logic.Or
use httpc.Prelude.Int.{ℤ, pos, negsuc, eqb_ℤ}
use httpc.Errors.{Err, wrap, is_err, blocked_by_policy}
use httpc.Prelude.Text.{Text}
use httpc.Policy.{IpPolicy}
use httpc.Url.{Platform, control}
use httpc.Url.Dialed.{control-blocked}
use httpc.Retry.{CheckRetry, has_code, status_code_check_retry, wrap_check_retry, is_blocked}

eqb_ℤ_iff : (a b : ℤ) → (eqb_ℤ a b ≡ true) ↔ (a ≡ b)
eqb_ℤ_iff (pos a) (pos b) = (ground arith, ground arith)
eqb_ℤ_iff (pos a) (negsuc b) = (ground arith, ground arith)
eqb_ℤ_iff (negsuc a) (pos b) = (ground arith, ground arith)
eqb_ℤ_iff (negsuc a) (negsuc b) = (ground arith, ground arith)

mem_of_code : (codes : List ℤ) (s : ℤ) → has_code codes s ≡ true → Mem s codes
unfolding has_code
mem_of_code [] s h = ground arith
mem_of_code (c ∷ cs) s h = elim (Bool-cases (eqb_ℤ s c)) [
  | inl e ↦ mem-cons.1 ∣ inl ((eqb_ℤ_iff s c).0 e) ∣₁
  | inr e ↦ mem-cons_of_mem c (mem_of_code cs s (ground arith))
]

test_prop : (b : Bool) → IsProp (b ≡ true)
test_prop b = hlevel

code_of_mem : (codes : List ℤ) (s : ℤ) → Mem s codes → has_code codes s ≡ true
unfolding has_code
code_of_mem [] s h = absurd (not-mem-nil h)
code_of_mem (c ∷ cs) s h =
    Or.elim (test_prop (has_code (c ∷ cs) s)) (mem-cons.0 h)
      (λ e. let same = (eqb_ℤ_iff s c).1 e in ground arith)
      (λ m. let rest = code_of_mem cs s m in ground arith)

same_code : {s t : ℤ} → some s ≡ some t → s ≡ t
same_code e = ground arith

-- What a client with the built check, wrapped by the metrics, does after an attempt: a response whose
-- attempt had no error is retried just when its status code is in the list, and with an error, or
-- without a response, the default policy decides, but an error that carries the sentinel of an
-- SSRF denial is never retried. The retry counter goes up just when there is a retry.
built_check_iff :
    (default_policy : CheckRetry) (codes : List ℤ) (resp : Option ℤ) (err : Option Err)
    → let checked =
        wrap_check_retry default_policy
          (some (status_code_check_retry default_policy codes))
          resp
          err in
      ((checked.answer.should_retry ≡ true) ↔ (
        (is_blocked err ≡ false)
        × (((err ≡ none) × (s : ℤ) × (resp ≡ some s) × Mem s codes)
            ⊎ (((is_some err ≡ true) ⊎ (resp ≡ none))
                × ((default_policy resp err).should_retry ≡ true)))))
      × (checked.counted ≡ checked.answer.should_retry)
unfolding wrap_check_retry status_code_check_retry
built_check_iff d codes none none = ((ground arith, ground arith), refl)
built_check_iff d codes none (some e) = ((ground arith, ground arith), ground arith)
built_check_iff d codes (some s) none =
    ((λ h. (refl, inl (refl, s, refl, mem_of_code codes s h)), λ h. back h.1), refl)
  where
    back :
        ((◌≡◌ {A = Option Err} none none) × (t : ℤ) × (some s ≡ some t) × Mem t codes)
          ⊎ (((is_some {A = Err} none ≡ true) ⊎ (some s ≡ none))
              × ((d (some s) none).should_retry ≡ true))
        → has_code codes s ≡ true
    back (inl (_, t, e, m)) = code_of_mem codes s (rw (same_code e) m)
    back (inr (n, _)) = ground arith
built_check_iff d codes (some s) (some e) = ((ground arith, ground arith), ground arith)

module _ (platform : Platform) (p : Option IpPolicy) where
  abbrev pub wrapped : List String → Err → Err
  wrapped [] e = e
  wrapped (m ∷ ms) e = wrap m (wrapped ms e)

  is_err-wrapped :
      (ms : List String) (e : Err)
      → is_err blocked_by_policy (wrapped ms e) ≡ is_err blocked_by_policy e
  unfolding is_err
  is_err-wrapped [] e = refl
  is_err-wrapped (m ∷ ms) e = is_err-wrapped ms e

  -- A dial that the policy refuses is not tried again, whatever the retry policy says: the error that
  -- reaches the retry layer wraps the one of ControlFunc in any number of messages.
  refused_dial_final :
      (default_policy : CheckRetry) (original : Option CheckRetry) (address : Text) (e : Err)
      (messages : List String) (resp : Option ℤ)
      → control platform p address ≡ some e
      → wrap_check_retry default_policy original resp (some (wrapped messages e)) ≡ record {
        answer = record { should_retry = false; failure = some (wrapped messages e) };
        counted = false;
      }
  unfolding wrap_check_retry
  refused_dial_final d original address e ms resp h =
      rw (is_err-wrapped ms e, control-blocked platform p address e h)
