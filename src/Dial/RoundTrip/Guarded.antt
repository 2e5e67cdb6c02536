-- ===== src/Dial/RoundTrip/Guarded.antt =====
-- client.go, markingTransport: which connections of a round trip the policy has judged.
use httpc.Prelude.{
  ◌≡◌, ◌∙◌, sym, ◌⊎◌, refl, inl, inr, Bool, true, false, ◌||◌, Option, none, some, List, [], ◌∷◌,
  All, arith, Option-cases,
}
use httpc.Prelude.Text.{Text}
use httpc.Errors.{Err, ok, err}
use httpc.Policy.{IpPolicy}
use httpc.Url.{Url, Platform}
use httpc.VerdictCache.{TargetVerdictCache}
use httpc.Dial.{
  Conn, ProxyAnswer, excused, validate_proxied_target, proxy_hook, dial_tls_context, dial_context,
}
use httpc.Dial.Judged.{IsPermittedPeer, CallsControl, dialed_permitted}
use httpc.Dial.Proxied.{verdict, IsExcused, excused_iff}
use httpc.Dial.RoundTrip.{
  Dialers, tls_dialer, Attempt, Contact, attempt, attempts, marking_round_trip,
}

choices :
    (a : ProxyAnswer)
    → ((e : Err) × (a ≡ err e)) ⊎ ((a ≡ ok none) ⊎ ((proxy : Text) × (a ≡ ok (some proxy))))
choices (err e) = inl (e, refl)
choices (ok none) = inr (inl refl)
choices (ok (some proxy)) = inr (inr (proxy, refl))

module _ (platform : Platform) (policy : IpPolicy) (print_url : Url → Text) (t : Dialers)
    (u : Url) where
  -- A contact with the target itself reached a peer that the policy permits, if it gave a connection; one
  -- with a proxy was made after a verdict on the target that lets the request through.
  abbrev pub IsGuarded : Contact → Type 0
  IsGuarded c =
      (c.proxy ≡ none
        → (conn : Conn) → c.dialed.conn ≡ some conn
        → c.dialed.failure ≡ none
        → IsPermittedPeer platform policy conn)
      × ((proxy : Text)
          → c.proxy ≡ some proxy
          → IsExcused platform policy print_url
              (verdict platform policy print_url c.verdicts c.now u))

  abbrev pub AllGuarded : List (Option Contact) → Type 0
  AllGuarded [] = Unit
  AllGuarded (none ∷ cs) = AllGuarded cs
  AllGuarded (some c ∷ cs) = IsGuarded c × AllGuarded cs

  -- Once the Proxy function has chosen a proxy, it chooses one in every later attempt.
  abbrev pub Sticks : List Attempt → Type 0
  Sticks [] = Unit
  Sticks (a ∷ rest) =
      ((proxy : Text) → a.chosen ≡ ok (some proxy) → All (λ b. (b.chosen ≡ ok none → ⊥)) rest)
      × Sticks rest

  -- What an attempt does, by the answer of the Proxy function: with an error there is no dial; ...
  attempt_err :
      (marked : Bool) (cache : TargetVerdictCache) (a : Attempt) (e : Err)
      → a.chosen ≡ err e
      → let tried = attempt platform policy print_url t u marked cache a in
        (tried.contact ≡ none) × (tried.marked ≡ marked)
  unfolding attempt proxy_hook
  attempt_err marked cache a e chosen = rw chosen (refl, ground arith)

  -- ... with no proxy the target is dialed; ...
  attempt_direct :
      (marked : Bool) (cache : TargetVerdictCache) (a : Attempt)
      → a.chosen ≡ ok none
      → let tried = attempt platform policy print_url t u marked cache a in
        (tried.contact
          ≡ some (record {
            verdicts = cache;
            now = a.now;
            proxy = none;
            dialed =
                dial_tls_context platform policy t.dial_with t.caller_dial
                  (tls_dialer t a none)
                  marked
                  (a.address none);
          }))
        × (tried.marked ≡ marked)
  unfolding attempt proxy_hook
  attempt_direct marked cache a chosen =
      let same : (marked || false) ≡ marked = ground arith in rw (chosen, same) (refl, refl)

  -- ... and with a proxy it is dialed where the verdict on the target lets the request through; ...
  attempt-excused :
      (marked : Bool) (cache : TargetVerdictCache) (a : Attempt) (proxy : Text)
      → a.chosen ≡ ok (some proxy)
      → excused platform policy (verdict platform policy print_url cache a.now u) ≡ none
      → let tried = attempt platform policy print_url t u marked cache a in
        (tried.contact
          ≡ some (record {
            verdicts = cache;
            now = a.now;
            proxy = some proxy;
            dialed =
                dial_tls_context platform policy t.dial_with t.caller_dial
                  (tls_dialer t a (some proxy))
                  true
                  (a.address (some proxy));
          }))
        × (tried.marked ≡ true)
  unfolding attempt proxy_hook validate_proxied_target
  attempt-excused marked cache a proxy chosen passed =
      let on : (marked || true) ≡ true = ground arith in (ground (arith, on), ground (arith, on))

  -- ... and is not where it does not.
  attempt_refused :
      (marked : Bool) (cache : TargetVerdictCache) (a : Attempt) (proxy : Text) (e : Err)
      → a.chosen ≡ ok (some proxy)
      → excused platform policy (verdict platform policy print_url cache a.now u) ≡ some e
      → let tried = attempt platform policy print_url t u marked cache a in
        (tried.contact ≡ none) × (tried.marked ≡ marked)
  unfolding attempt proxy_hook validate_proxied_target
  attempt_refused marked cache a proxy e chosen refused = (ground arith, ground arith)

  abbrev pub NotDirect : Attempt → Type 0
  NotDirect b = b.chosen ≡ ok none → ⊥

  no_contact :
      (c : Option Contact) (cs : List (Option Contact))
      → c ≡ none
      → AllGuarded cs
      → AllGuarded (c ∷ cs)
  no_contact c cs e h = rw e h

  one_contact :
      (c : Option Contact) (cs : List (Option Contact)) (d : Contact)
      → c ≡ some d
      → IsGuarded d
      → AllGuarded cs
      → AllGuarded (c ∷ cs)
  one_contact c cs d e g h = rw e (g, h)

  -- A dial of the target by a request that is not marked.
  direct :
      (marked : Bool) (cache : TargetVerdictCache) (a : Attempt)
      → CallsControl platform policy t.dial_with
      → (marked ≡ true → ⊥)
      → IsGuarded (record {
        verdicts = cache;
        now = a.now;
        proxy = none;
        dialed =
            dial_tls_context platform policy t.dial_with t.caller_dial
              (tls_dialer t a none)
              marked
              (a.address none);
      })
  direct true cache a calls free = absurd (free refl)
  direct false cache a calls free = (
    λ e conn h k.
        dialed_permitted platform policy t.dial_with t.caller_dial (tls_dialer t a none)
          (a.address none) conn calls h k,
    λ proxy e. absurd (ground arith),
  )

  attempts-AllGuarded :
      (marked : Bool) (cache : TargetVerdictCache) (tries : List Attempt)
      → CallsControl platform policy t.dial_with
      → Sticks tries
      → (marked ≡ true → All NotDirect tries)
      → AllGuarded (attempts platform policy print_url t u marked cache tries)
  unfolding attempts
  attempts-AllGuarded marked cache [] calls s m = tt
  attempts-AllGuarded marked cache (a ∷ rest) calls (s, ss) m =
      let tried = attempt platform policy print_url t u marked cache a in
      let later = λ (n : tried.marked ≡ true → All NotDirect rest).
        attempts-AllGuarded tried.marked tried.cache rest calls ss n in
      elim (choices a.chosen) [
        | inl (e, chosen) ↦
            let (quiet, same) = attempt_err marked cache a e chosen in
            no_contact tried.contact _ quiet (later (λ k. (m (sym same ∙ k)).1))
        | inr (inl chosen) ↦
            let (dialed, same) = attempt_direct marked cache a chosen in
            one_contact tried.contact _ _ dialed (direct marked cache a calls (λ k. (m k).0 chosen))
              (later (λ k. (m (sym same ∙ k)).1))
        | inr (inr (proxy, chosen)) ↦
            elim (Option-cases
              (excused platform policy (verdict platform policy print_url cache a.now u))) [
                | inr (e, refused) ↦
                    let (quiet, same) = attempt_refused marked cache a proxy e chosen refused in
                    no_contact tried.contact _ quiet (later (λ k. (m (sym same ∙ k)).1))
                | inl passed ↦
                    let (dialed, now_marked) = attempt-excused marked cache a proxy chosen passed in
                    one_contact tried.contact _ _ dialed
                      (
                        λ none_chosen. absurd (ground arith),
                        λ p e. (excused_iff platform policy print_url _).0 passed,
                      )
                      (later (λ k. s proxy chosen))
              ]
      ]

  -- In a round trip whose Proxy function, once it has chosen a proxy, never goes back to none: each
  -- connection to the target itself has a peer that the policy permits, and each dial of a proxy
  -- comes after a verdict on the target that is a success, or is "no such host" under a policy that
  -- trusts the proxy to resolve.
  pub marking_round_trip-AllGuarded :
      (cache : TargetVerdictCache) (tries : List Attempt)
      → CallsControl platform policy t.dial_with
      → Sticks tries
      → AllGuarded (marking_round_trip platform policy print_url t u cache tries)
  unfolding marking_round_trip
  marking_round_trip-AllGuarded cache tries calls s =
      attempts-AllGuarded false cache tries calls s (λ k. absurd (ground arith))

  -- In a transport that has no dialer of the caller's, neither DialContext nor DialTLSContext nor the deprecated
  -- ones, a Proxy function that chooses a proxy for the first attempt, where the verdict on its target lets it through, and none for
  -- the second one: the second attempt dials the target itself with a net.Dialer that has no Control hook, so
  -- nothing judges the peer.
  pub marker_sticks :
      (cache : TargetVerdictCache) (a b : Attempt) (proxy : Text)
      → a.chosen ≡ ok (some proxy)
      → IsExcused platform policy print_url (verdict platform policy print_url cache a.now u)
      → b.chosen ≡ ok none
      → t.caller_dial ≡ none
      → t.caller_dial_tls ≡ none
      → (first second : Contact) × (marking_round_trip platform policy print_url t u cache
            (a ∷ b ∷ [])
          ≡ some first ∷ some second ∷ [])
        × (second.proxy ≡ none)
        × (second.dialed ≡ t.dial_with none (b.address none))
  unfolding marking_round_trip attempts dial_tls_context dial_context
  marker_sticks cache a b proxy chosen excuse chosen' plain plain_tls =
      let first = attempt platform policy print_url t u false cache a in
      let passed = (excused_iff platform policy print_url _).1 excuse in
      let (dialed, on) = attempt-excused false cache a proxy chosen passed in
      let (dialed', _) = attempt_direct true first.cache b chosen' in
      let one : Contact = record {
        verdicts = cache;
        now = a.now;
        proxy = some proxy;
        dialed =
            dial_tls_context platform policy t.dial_with t.caller_dial (tls_dialer t a (some proxy))
              true (a.address (some proxy));
      } in
      let two : Contact = record {
        verdicts = first.cache;
        now = b.now;
        proxy = none;
        dialed =
            dial_tls_context platform policy t.dial_with t.caller_dial (tls_dialer t b none) true
              (b.address none);
      } in
      (one, two, rw (dialed, on, dialed') refl, refl, ground (arith, plain, plain_tls))
