-- ===== src/Assembly/Redirects.antt =====
-- client.go, newRetryClient: the redirects that a client follows.
use httpc.Prelude.{
  ℕ, zero, suc, ◌-◌, ◌≡◌, refl, none, some, List, [], ◌∷◌, take, leb, is_none, arith, if◌then◌else◌,
  Bool-cases, inl, inr,
}
use httpc.Prelude.Text.{Text}
use httpc.Prelude.Int.{ℤ, pos, negsuc, leb_ℤ, ltb_ℤ, pos_part}
use httpc.Policy.{IpPolicy}
use httpc.Url.{validate_url}
use httpc.Assembly.{Host, check_redirect, redirect_limit}

redirect_limit-leb :
    (n : ℤ) (via : ℕ)
    → leb_ℤ (redirect_limit n) (pos via) ≡ leb (if ltb_ℤ (pos 0) n then pos_part n else 10) via
redirect_limit-leb (pos n) via = ground arith
redirect_limit-leb (negsuc n) via = ground arith

take_nil : (n : ℕ) → take {A = Text} n [] ≡ []
take_nil zero = refl
take_nil (suc n) = refl

module _ (host : Host) (policy : IpPolicy) (max_redirects : ℤ) where
  -- What net/http does with CheckRedirect: it asks before each redirect, with the number of requests that it
  -- has made, and follows up to the first error.
  abbrev pub followed : ℕ → List Text → List Text
  followed via [] = []
  followed via (url ∷ urls) =
      let rest = followed (suc via) urls in
      elim (check_redirect host policy max_redirects via url) [ some e ↦ [] | none ↦ url ∷ rest ]

  -- the targets up to the first one that the policy refuses
  abbrev pub permitted : List Text → List Text
  permitted [] = []
  permitted (url ∷ urls) =
      let rest = permitted urls in
      if is_none (validate_url host.platform (some policy) url) then url ∷ rest else []

  -- the requests of a chain, the first one included
  abbrev pub limit : ℕ
  limit = if ltb_ℤ (pos 0) max_redirects then pos_part max_redirects else 10

  followed-take :
      (via : ℕ) (urls : List Text) → followed via urls ≡ take (limit - via) (permitted urls)
  unfolding check_redirect
  followed-take via [] = ground (arith, take_nil (limit - via))
  followed-take via (url ∷ urls) =
      let at_limit = redirect_limit-leb max_redirects via in
      elim (Bool-cases (leb limit via)) [
        | inl stop ↦
            let none_left : limit - via ≡ 0 = ground arith in
            rw none_left (ground (arith, at_limit, stop))
        | inr more ↦
            let some_left : limit - via ≡ suc (limit - suc via) = ground arith in
            rw some_left (
              ground (
                arith,
                at_limit,
                more,
                followed-take (suc via) urls,
                take_nil (suc (limit - suc via)),
              ))
      ]

  -- Of a chain of redirects a client follows the targets that ValidateURL passes, up to the first one that
  -- it refuses, and no more than MaxRedirects - 1 of them, or 9 where MaxRedirects is not
  -- positive: with the first request, MaxRedirects requests.
  pub followed_lem : (urls : List Text) → followed 1 urls ≡ take (limit - 1) (permitted urls)
  followed_lem urls = followed-take 1 urls
