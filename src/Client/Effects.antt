-- ===== src/Client/Effects.antt =====
-- client.go, Client.Do and handleAuthRetry: which effects a call has, how often and when.
use httpc.Prelude.{
  String, ℕ, suc, ◌+◌, ◌≤◌, ◌≡◌, ◌⊎◌, refl, inl, inr, Bool, true, false, Option, none, some, List,
  [], ◌∷◌, ◌++◌, arith, if◌then◌else◌, Option-cases,
}
use httpc.Prelude.Text.{Text}
use httpc.Errors.{Err, Result, ok, err, Result-cases}
use httpc.Breaker.{CircuitBreaker}
use httpc.Client.Phases.{awaited, before, over, phase, phase-append, conclude-IsAsked}
use httpc.Client.{
  Body, Response, Request, Returned, Backend, Client, Event, gauge_up, gauge_down, sent, sent_again,
  closed_body, panicked, run_hooks, limit_body, ask_breaker, respond, respond_again, replay,
  send_again, handle_auth_retry, authorize, conclude, send, convert, prepare, enter, validated,
  do_request,
}

abbrev pub is_up : Event → Bool
is_up gauge_up = true
is_up _ = false

abbrev pub is_down : Event → Bool
is_down gauge_down = true
is_down _ = false

abbrev pub is_sent : Event → Bool
is_sent (sent _) = true
is_sent _ = false

abbrev pub is_sent_again : Event → Bool
is_sent_again (sent_again _) = true
is_sent_again _ = false

unfoldable pub count : (Event → Bool) → List Event → ℕ
count p [] = 0
count p (e ∷ es) = let rest = count p es in if p e then suc rest else rest

pub count-append :
    (p : Event → Bool) (xs ys : List Event) → count p (xs ++ ys) ≡ count p xs + count p ys
unfolding count
count-append p [] ys = ground arith
count-append p (x ∷ xs) ys = ground (arith, count-append p xs ys)

module _ (backend : Backend) (c : Client) where
  -- A kind of event that closing a body is not, and calling http_do is or is not (n = 1, n = 0).
  module _ (p : Event → Bool) (no_close : (b : Option Body) → p (closed_body b) ≡ false)
      (no_panic : p panicked ≡ false) (n : ℕ)
      (again : (r : Request) → (if p (sent_again r) then 1 else 0) ≤ n) where
    pub quiet_respond :
        (m : String) (e : Option Err) (r : Response) → count p (respond backend c m e r).0 ≡ 0
    unfolding count respond
    quiet_respond m e r =
        let quiet = no_close (run_hooks m c.response_hooks r).0.body in ground arith

    pub quiet_respond_again : (o : Returned) → count p (respond_again backend c o).0 ≡ 0
    unfolding count
    quiet_respond_again o = elim (Option-cases o.response) [
      | inl e ↦ ground arith
      | inr (r, e) ↦
          let quiet = quiet_respond "response hook failed after auth retry" none r in ground arith
    ]

    at_most_again : (req : Request) → count p (send_again backend c req).0 ≤ n
    unfolding count
    at_most_again req =
        let quiet =
          quiet_respond_again (limit_body c.max_response_body_size (backend.http_do req)) in
        ground (arith, again req)

    at_most_retry :
        (a : Result Text) (req : Request) (r : Response)
        → count p (handle_auth_retry backend c a req r).0 ≤ n
    unfolding count handle_auth_retry
    at_most_retry (err e) req r = ground arith
    at_most_retry (ok header) req r = elim (Result-cases (replay backend c req header)) [
      | inl (a, e) ↦ ground (arith, at_most_again a, no_close r.body, no_panic)
      | inr (a, e) ↦ ground (arith, no_close r.body, no_panic)
    ]

    at_most_authorize : (req : Request) (o : Returned) → count p (authorize backend c req o).0 ≤ n
    unfolding count authorize
    at_most_authorize req o = elim (Option-cases c.on_unauthorized) [
      | inl e ↦ ground arith
      | inr (a, e) ↦ elim (Option-cases o.response) [
        | inl f ↦ ground arith
        | inr (r, f) ↦ ground (arith, at_most_retry a req r)
      ]
    ]

    pub at_most_conclude : (req : Request) (o : Returned) → count p (conclude backend c req o).0 ≤ n
    unfolding count conclude
    at_most_conclude req o = elim (Option-cases o.response) [
      | inl f ↦ ground arith
      | inr (r, f) ↦
          let quiet = quiet_respond "response hook failed" o.failure r in
          let o' = (respond backend c "response hook failed" o.failure r).1 in
          let events = (respond backend c "response hook failed" o.failure r).0 in
          let more = (authorize backend c req o').0 in
          ground (arith, at_most_authorize req o', count-append p events more)
    ]

  -- Every count of the gauge is taken back, there is at most one; retry_do is called at most once, and
  -- http_do at most as often; and all come in this order: gauge up, retry_do, http_do, gauge down.
  pub record IsTidy (es : List Event) : Type 0 where
    pub balanced : count is_up es ≡ count is_down es
    pub one_gauge : count is_up es ≤ 1
    pub sent_counted : count is_sent es ≤ count is_up es
    pub again_counted : count is_sent_again es ≤ count is_sent es
    pub ordered : (phase before es ≡ before) ⊎ (phase before es ≡ over)

  IsTidy-none : IsTidy []
  unfolding count phase
  IsTidy-none = record {
    balanced = refl;
    one_gauge = omega arith;
    sent_counted = omega arith;
    again_counted = omega arith;
    ordered = inl refl;
  }

  IsTidy-pair : IsTidy (gauge_up ∷ gauge_down ∷ [])
  unfolding count phase
  IsTidy-pair = record {
    balanced = refl;
    one_gauge = omega arith;
    sent_counted = omega arith;
    again_counted = omega arith;
    ordered = inr refl;
  }

  send-IsTidy :
      (cb : Option CircuitBreaker) (now : ℕ) (req : Request)
      → IsTidy (send backend c cb now req).events
  unfolding send count phase
  send-IsTidy cb now req =
      let o = limit_body c.max_response_body_size (backend.retry_do req) in
      let events = (conclude backend c req o).0 in
      let up = at_most_conclude is_up (λ b. refl) refl 0 (λ r. omega arith) req o in
      let down = at_most_conclude is_down (λ b. refl) refl 0 (λ r. omega arith) req o in
      let once = at_most_conclude is_sent (λ b. refl) refl 0 (λ r. omega arith) req o in
      let twice = at_most_conclude is_sent_again (λ b. refl) refl 1 (λ r. omega arith) req o in
      let end = gauge_down ∷ [] in
      record {
        balanced = ground (arith, count-append is_up events end, count-append is_down events end);
        one_gauge = ground (arith, count-append is_up events end);
        sent_counted =
            ground (arith, count-append is_up events end, count-append is_sent events end);
        again_counted =
            ground (arith, count-append is_sent events end, count-append is_sent_again events end);
        ordered =
            inr (ground (arith, conclude-IsAsked backend c req o, phase-append awaited events end));
      }

  convert-IsTidy :
      (cb : Option CircuitBreaker) (now : ℕ) (req : Request)
      → IsTidy (convert backend c cb now req).events
  unfolding convert count
  convert-IsTidy cb now req = elim (Option-cases (backend.from_request req)) [
    | inl e ↦ rw (e, convert) (send-IsTidy cb now req)
    | inr (f, e) ↦ rw (e, convert) IsTidy-pair
  ]

  prepare-IsTidy :
      (cb : Option CircuitBreaker) (now : ℕ) (req : Request)
      → IsTidy (prepare backend c cb now req).events
  unfolding prepare
  prepare-IsTidy cb now req =
      let hooked = run_hooks "request hook failed" c.request_hooks req in
      elim (Option-cases hooked.1) [
        | inl e ↦ rw (e, prepare) (convert-IsTidy cb now hooked.0)
        | inr (f, e) ↦ rw (e, prepare) IsTidy-none
      ]

  enter-IsTidy :
      (asked answered : ℕ) (req : Request) → IsTidy (enter backend c asked answered req).events
  unfolding enter
  enter-IsTidy asked answered req =
      let admitted = ask_breaker c.circuit_breaker req.url.hostname asked in
      elim (Option-cases admitted.1) [
        | inl e ↦ rw (e, enter) (prepare-IsTidy admitted.0 answered req)
        | inr (f, e) ↦ rw (e, enter) IsTidy-none
      ]

  -- In every call of Do, on every path, one that panics included: the gauge of concurrent requests that is
  -- counted up is counted down again, at most once; the retrying client is called at most once, and only
  -- between these two; and the second attempt after a 401 is made at most once, only after the call of the
  -- retrying client, and before the gauge is counted down.
  pub do_request-IsTidy :
      (asked answered : ℕ) (req : Option Request)
      → IsTidy (do_request backend c asked answered req).events
  unfolding do_request
  do_request-IsTidy asked answered none = IsTidy-none
  do_request-IsTidy asked answered (some req) = elim (Option-cases (validated backend c req)) [
    | inl e ↦ rw (e, do_request) (enter-IsTidy asked answered req)
    | inr (f, e) ↦ rw (e, do_request) IsTidy-none
  ]
