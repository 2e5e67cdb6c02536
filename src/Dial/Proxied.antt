-- ===== src/Dial/Proxied.antt =====
-- client.go, the Proxy hook and validateProxiedTarget: a request goes through a proxy only where its
-- target was validated.
use httpc.Prelude.{
  ℕ, ◌≡◌, ◌⊎◌, ◌↔◌, refl, inl, inr, true, false, Option, none, some, arith, Option-cases,
}
use httpc.Prelude.Text.{Text}
use httpc.Errors.{Err, is_dns_not_found, ok, err}
use httpc.Policy.{IpPolicy}
use httpc.Url.{Url, Platform, lower_host, validate_url_resolved}
use httpc.VerdictCache.{TargetVerdictCache, check}
use httpc.Dial.{ProxyAnswer, excused, validate_proxied_target, proxy_hook}

module _ (platform : Platform) (policy : IpPolicy) (print_url : Url → Text) where
  -- the verdict on the target: a cached one, or that of the validation
  abbrev pub verdict : TargetVerdictCache → ℕ → Url → Option Err
  verdict cache now u =
      (check cache (lower_host platform u.hostname) now
        (validate_url_resolved platform (some policy) (print_url u))).err

  -- The verdict lets the request through: it is a success, or "no such host" under a policy that trusts
  -- the proxy to resolve.
  abbrev pub IsExcused : Option Err → Type 0
  IsExcused v =
      (v ≡ none)
      ⊎ (e : Err) × (v ≡ some e)
        × (policy.trust_proxy_resolution ≡ true)
        × (is_dns_not_found e ≡ true)

  pub excused_iff : (v : Option Err) → (excused platform policy v ≡ none) ↔ IsExcused v
  excused_iff none = (λ h. inl refl, λ h. refl)
  excused_iff (some e) = (λ h. inr (e, refl, ground arith, ground arith), ground arith)

  -- A request is marked as proxied, which frees its dial from the policy, just when the transport chose
  -- a proxy for it and the verdict on its target is a success, or is "no such host" under a policy that
  -- trusts the proxy to resolve; in every other case the hook either chose no proxy or returns an error.
  pub marked_iff :
      (cache : TargetVerdictCache) (now : ℕ) (a : ProxyAnswer) (u : Url)
      → let s = proxy_hook platform policy print_url cache now a u in
        ((s.proxied ≡ true)
          ↔ ((proxy : Text) × (a ≡ ok (some proxy)) × IsExcused (verdict cache now u)))
        × ((s.proxied ≡ false) → (s.answer ≡ ok none) ⊎ (e : Err) × (s.answer ≡ err e))
  unfolding proxy_hook validate_proxied_target
  marked_iff cache now (err e) u = ((λ h. absurd (ground arith), ground arith), λ h. inr (e, refl))
  marked_iff cache now (ok none) u = ((λ h. absurd (ground arith), ground arith), λ h. inl refl)
  marked_iff cache now (ok (some proxy)) u =
      let iff = excused_iff (verdict cache now u) in
      elim (Option-cases (excused platform policy (verdict cache now u))) [
        | inl e ↦ ((λ h. (proxy, refl, iff.0 e), λ h. ground arith), λ h. absurd (ground arith))
        | inr (f, e) ↦ (
          (λ h. absurd (ground arith), λ (_, _, h). let g = iff.1 h in absurd (ground arith)),
          λ h. inr (f, ground arith),
        )
      ]
