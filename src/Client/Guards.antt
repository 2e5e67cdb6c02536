-- ===== src/Client/Guards.antt =====
-- client.go, Client.Do and handleAuthRetry: what a request has to pass, and what comes back.
use httpc.Prelude.{ℕ, ◌≡◌, ◌↔◌, refl, Option, none, some, [], ◌∷◌, arith}
use httpc.Errors.{Err}
use httpc.Breaker.{CircuitBreaker}
use httpc.Client.{
  Request, Backend, Client, gauge_down, run_hooks, limit_body, ask_breaker, conclude, send, convert,
  prepare, enter, validated, do_request,
}
use httpc.Client.Effects.{count, is_sent, count-append, at_most_conclude}

module _ (backend : Backend) (c : Client) where
  -- the request as the hooks leave it, and the first failure of one
  abbrev pub hooked : Request → Request × Option Err
  hooked req = run_hooks "request hook failed" c.request_hooks req

  pub record IsCleared (asked : ℕ) (req : Request) : Type 0 where
    pub url_allowed : validated backend c req ≡ none
    pub admitted : (ask_breaker c.circuit_breaker req.url.hostname asked).1 ≡ none
    pub hooks_pass : (hooked req).1 ≡ none
    pub convertible : backend.from_request (hooked req).0 ≡ none

  sent_once :
      (cb : Option CircuitBreaker) (now : ℕ) (req : Request)
      → count is_sent (send backend c cb now req).events ≡ 1
  unfolding send count
  sent_once cb now req =
      let o = limit_body c.max_response_body_size (backend.retry_do req) in
      let events = (conclude backend c req o).0 in
      let quiet = at_most_conclude backend c is_sent (λ b. refl) refl 0 (λ r. omega arith) req o in
      ground (arith, count-append is_sent events (gauge_down ∷ []))

  -- The retrying client is called just when the URL passes the SSRF policy, the circuit breaker
  -- admits the host, every request hook succeeds, and the request, as the hooks leave it, can be
  -- converted.
  pub sent_iff :
      (asked answered : ℕ) (req : Request)
      → (count is_sent (do_request backend c asked answered (some req)).events ≡ 1)
        ↔ IsCleared asked req
  unfolding do_request enter prepare convert count
  sent_iff asked answered req =
      let cb = (ask_breaker c.circuit_breaker req.url.hostname asked).0 in
      let once = sent_once cb answered (hooked req).0 in
      (
        λ h. record {
          url_allowed = ground arith;
          admitted = ground arith;
          hooks_pass = ground arith;
          convertible = ground arith;
        },
        ground arith,
      )
