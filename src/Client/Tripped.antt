-- ===== src/Client/Tripped.antt =====
-- client.go, Client.Do, with circuitbreaker.go: calls one after the other, to a host that fails.
use httpc.Prelude.{
  ℕ, ◌+◌, ◌-◌, ◌≤◌, ◌<◌, ◌≡◌, ◌∙◌, ap, refl, false, none, some, List, [], ◌∷◌, min, length, ltb,
  All, arith, Bool-cases, inl, inr,
}
use httpc.Prelude.Text.{Text}
use httpc.Prelude.Int.{pos}
use httpc.Prelude.Dict.{lookup}
use httpc.Breaker.{
  Config, CircuitBreaker, HostBreaker, closed, open_state, allow, allow_switch, failure_switch,
}
use httpc.Breaker.Steps.{Op, try, fail, step, run, config-step}
use httpc.Breaker.Invariant.{at_least_one}
use httpc.Breaker.Runs.{own_op, lookup-fail, failure_counts}
use httpc.Client.{
  Request, Backend, Client, Done, limit_body, ask_breaker, enter, validated, do_request,
}
use httpc.Client.Effects.{count, is_sent}
use httpc.Client.Guards.{hooked, IsCleared, sent_iff}
use httpc.Client.Recorded.{judged, cleared_told}

-- A call of Do, with the times at which the breaker is asked and told the result.
pub record Call : Type 0 where
  pub asked : ℕ
  pub answered : ℕ
  pub request : Request

failure_opens :
    (c : Config) (hb : HostBreaker) (now : ℕ)
    → hb.state ≡ closed
    → ltb (hb.failures + 1) (at_least_one c.max_failures) ≡ false
    → (failure_switch c hb now hb.state).hb.last_state_change ≡ now
unfolding failure_switch
failure_opens c hb now shut reached = ground arith

module _ (backend : Backend) where
  abbrev pub done : Client → Call → Done
  done c call = do_request backend c call.asked call.answered (some call.request)

  -- the client as a call leaves it
  abbrev pub after : Client → Call → Client
  after c call = record c { circuit_breaker = (done c call).circuit_breaker }

  -- How often the retrying client is called, in calls of Do one after the other.
  abbrev pub total_sent : Client → List Call → ℕ
  total_sent c [] = 0
  total_sent c (call ∷ calls) = count is_sent (done c call).events + total_sent (after c call) calls

  -- A call to the host, in the time from `start` on and before the timeout, that would be sent but for the
  -- breaker, and whose attempt fails.
  pub record IsFailing (c : Client) (host : Text) (start timeout : ℕ) (call : Call) : Type 0 where
    pub url_allowed : validated backend c call.request ≡ none
    pub hooks_pass : (hooked backend c call.request).1 ≡ none
    pub convertible : backend.from_request (hooked backend c call.request).0 ≡ none
    pub asks_host : call.request.url.hostname ≡ host
    pub tells_host : (hooked backend c call.request).0.url.hostname ≡ host
    pub fails :
        judged
          (limit_body c.max_response_body_size (backend.retry_do (hooked backend c call.request).0))
        ≡ some fail
    pub late : start ≤ call.answered
    pub early : call.asked < start + timeout

  module _ (c : Client) (cb : CircuitBreaker) (host : Text) (hb : HostBreaker) (start timeout : ℕ)
      (call : Call) (has : c.circuit_breaker ≡ some cb) (known : lookup host cb.breakers ≡ some hb)
      (failing : IsFailing c host start timeout call) where
    asking :
        (allow cb call.request.url.hostname call.asked).1
        ≡ (allow_switch cb.config hb call.asked hb.state).err
    unfolding step
    asking =
        let op : Op = record { kind = try; host = call.request.url.hostname; now = call.asked } in
        (own_op cb op host hb known failing.asks_host refl).1

    -- Where the breaker is closed the call is sent, and its failure is counted.
    sent_closed :
        hb.state ≡ closed
        → (count is_sent (done c call).events ≡ 1)
          × ((cb' : CircuitBreaker) × ((done c call).circuit_breaker ≡ some cb')
              × (cb'.config ≡ cb.config)
              × (lookup host cb'.breakers
                  ≡ some (failure_switch cb.config hb call.answered hb.state).hb))
    unfolding allow_switch run ask_breaker
    sent_closed shut =
        let cleared : IsCleared backend c call.asked call.request = record {
          url_allowed = failing.url_allowed;
          admitted = rw has (asking ∙ rw shut);
          hooks_pass = failing.hooks_pass;
          convertible = failing.convertible;
        } in
        let asked_op : Op = record {
          kind = try;
          host = call.request.url.hostname;
          now = call.asked;
        } in
        let asked_cb : CircuitBreaker = (step cb asked_op).0 in
        let told_op : Op = record { kind = fail; host = host; now = call.answered } in
        let told_last : CircuitBreaker = (step asked_cb told_op).0 in
        let still : lookup host asked_cb.breakers ≡ some hb =
          (own_op cb asked_op host hb known failing.asks_host refl).0 ∙ rw shut in
        (
          (sent_iff backend c call.asked call.answered call.request).1 cleared,
          (
            told_last,
            cleared_told backend c cb has call.asked call.answered call.request cleared
                ∙ rw (failing.fails, failing.tells_host),
            config-step asked_cb told_op ∙ config-step cb asked_op,
            lookup-fail asked_cb host call.answered hb still ∙ rw (config-step cb asked_op),
          ),
        )

    -- Where it is open, and the timeout is not over, the call is refused, and nothing changes.
    refused_open :
        hb.state ≡ open_state
        → cb.config.open_timeout ≡ pos timeout
        → start ≤ hb.last_state_change
        → (count is_sent (done c call).events ≡ 0)
          × ((cb' : CircuitBreaker) × ((done c call).circuit_breaker ≡ some cb')
              × (cb'.config ≡ cb.config)
              × (lookup host cb'.breakers ≡ some hb))
    unfolding do_request enter ask_breaker allow_switch count step
    refused_open opened waits since =
        let asked_op : Op = record {
          kind = try;
          host = call.request.url.hostname;
          now = call.asked;
        } in
        let own = own_op cb asked_op host hb known failing.asks_host refl in
        let soon = failing.early in
        let allowed = failing.url_allowed in
        (
          ground (arith, asking),
          (
            (step cb asked_op).0,
            ground (arith, asking),
            config-step cb asked_op,
            ground (arith, own),
          ),
        )

  -- A call leaves the client as it is, but for its breaker.
  still-IsFailing :
      (c : Client) (host : Text) (start timeout : ℕ) (last : Call) (calls : List Call)
      → All (IsFailing c host start timeout) calls
      → All (IsFailing (after c last) host start timeout) calls
  still-IsFailing c host start timeout last [] h = tt
  still-IsFailing c host start timeout last (call ∷ calls) (h, hs) = (
    record {
      url_allowed = h.url_allowed;
      hooks_pass = h.hooks_pass;
      convertible = h.convertible;
      asks_host = h.asks_host;
      tells_host = h.tells_host;
      fails = h.fails;
      late = h.late;
      early = h.early;
    },
    still-IsFailing c host start timeout last calls hs,
  )

  -- Once the breaker of the host is open, nothing is sent before the timeout.
  none_sent :
      (c : Client) (cb : CircuitBreaker) (host : Text) (hb : HostBreaker) (start timeout : ℕ)
      (calls : List Call)
      → c.circuit_breaker ≡ some cb
      → lookup host cb.breakers ≡ some hb
      → All (IsFailing c host start timeout) calls
      → hb.state ≡ open_state
      → cb.config.open_timeout ≡ pos timeout
      → start ≤ hb.last_state_change
      → total_sent c calls ≡ 0
  none_sent c cb host hb start timeout [] has known failing opened waits since = refl
  none_sent c cb host hb start timeout (call ∷ calls) has known failing opened waits since =
      let (quiet, (cb', has', config', known')) =
        refused_open c cb host hb start timeout call has known failing.0 opened waits since in
      omega (
        arith,
        quiet,
        none_sent (after c call) cb' host hb start timeout calls has' known'
            (still-IsFailing c host start timeout call calls failing.1) opened
            (ap (λ x. x.open_timeout) config' ∙ waits) since,
      )

  -- A host that fails is left alone: in calls one after the other to a host whose breaker is closed, each of
  -- which would be sent but for the breaker, fails, and is answered from `start` on and asks before the
  -- timeout from `start` is over, the retrying client is called until the failures that were counted
  -- before and those of the calls reach `MaxFailures` (1, where it is smaller), and not again.
  pub total_sent_lem :
      (c : Client) (cb : CircuitBreaker) (host : Text) (hb : HostBreaker) (start timeout : ℕ)
      (calls : List Call)
      → c.circuit_breaker ≡ some cb
      → lookup host cb.breakers ≡ some hb
      → All (IsFailing c host start timeout) calls
      → hb.state ≡ closed
      → cb.config.open_timeout ≡ pos timeout
      → hb.failures < at_least_one cb.config.max_failures
      → total_sent c calls ≡ min (length calls) (at_least_one cb.config.max_failures - hb.failures)
  total_sent_lem c cb host hb start timeout [] has known failing shut waits below = omega arith
  total_sent_lem c cb host hb start timeout (call ∷ calls) has known failing shut waits below =
      let (once, (cb', has', config', known')) =
        sent_closed c cb host hb start timeout call has known failing.0 shut in
      let hb' = (failure_switch cb.config hb call.answered hb.state).hb in
      let counts = failure_counts cb.config hb call.answered shut in
      let waits' = ap (λ x. x.open_timeout) config' ∙ waits in
      let limit = at_least_one cb.config.max_failures in
      let limits : at_least_one cb'.config.max_failures ≡ limit =
        ap (λ x. at_least_one x.max_failures) config' in
      elim (Bool-cases (ltb (hb.failures + 1) limit)) [
        | inl more ↦
            let below' : hb'.failures < at_least_one cb'.config.max_failures =
              ground (arith, counts.1, more, limits) in
            let rest =
              total_sent_lem (after c call) cb' host hb' start timeout calls has' known'
                (still-IsFailing c host start timeout call calls failing.1) (counts.0 ∙ rw more)
                waits' below' in
            ground (arith, once, rest, counts.1, limits, more)
        | inr reached ↦
            let quiet =
              none_sent (after c call) cb' host hb' start timeout calls has' known'
                (still-IsFailing c host start timeout call calls failing.1) (counts.0 ∙ rw reached)
                waits'
                (rw (failure_opens cb.config hb call.answered shut reached) failing.0.late) in
            ground (arith, once, quiet, reached)
      ]
