-- ===== src/Client/Recorded.antt =====
-- client.go, Client.Do: what a call tells the circuit breaker.
use httpc.Prelude.{
  ℕ, ◌≡◌, inl, inr, Option, none, some, List, [], ◌∷◌, arith, is_none, if◌then◌else◌, Option-cases,
}
use httpc.Prelude.Text.{Text}
use httpc.Prelude.Int.{pos, leb_ℤ}
use httpc.Breaker.{CircuitBreaker, allow}
use httpc.Breaker.Steps.{Op, Kind, try, succeed, fail, run, step}
use httpc.Client.{
  Request, Returned, Backend, Client, limit_body, ask_breaker, record_result, send, convert,
  prepare, enter, validated, do_request,
}
use httpc.Client.Guards.{hooked, IsCleared}

-- What an attempt says of its host: nothing where there is neither a response nor an error.
abbrev pub judged : Returned → Option Kind
judged o = elim o.failure [
  | some e ↦ some fail
  | none ↦ elim o.response [
    | none ↦ none
    | some r ↦ some (if leb_ℤ (pos 500) r.status then fail else succeed)
  ]
]

abbrev pub told : Option Kind → Text → ℕ → List Op
told none host now = []
told (some k) host now = record { kind = k; host = host; now = now } ∷ []

abbrev pub asked_op : Request → ℕ → Op
asked_op req now = record { kind = try; host = req.url.hostname; now = now }

record_result-run :
    (cb : CircuitBreaker) (host : Text) (now : ℕ) (o : Returned)
    → record_result (some cb) host now o ≡ some (run cb (told (judged o) host now))
unfolding record_result run step
record_result-run cb host now o = ground arith

module _ (backend : Backend) (c : Client) (cb : CircuitBreaker)
    (has : c.circuit_breaker ≡ some cb) where
  abbrev pub cleared_ops : ℕ → ℕ → Request → List Op
  cleared_ops asked answered req =
      let req' = (hooked backend c req).0 in
      let o = limit_body c.max_response_body_size (backend.retry_do req') in
      asked_op req asked ∷ told (judged o) req'.url.hostname answered

  -- A request that is cleared asks the breaker once for its host, and tells it then, for the host that
  -- the request has after the hooks, whether the attempt failed: an error or a status from 500 on is a
  -- failure, any other response a success, and nothing is told of a missing response.
  pub cleared_told :
      (asked answered : ℕ) (req : Request)
      → IsCleared backend c asked req
      → (do_request backend c asked answered (some req)).circuit_breaker
        ≡ some (run cb (cleared_ops asked answered req))
  unfolding do_request enter prepare convert send ask_breaker run step
  cleared_told asked answered req h =
      let o = limit_body c.max_response_body_size (backend.retry_do (hooked backend c req).0) in
      let after = (allow cb req.url.hostname asked).0 in
      ground (arith, record_result-run after (hooked backend c req).0.url.hostname answered o)

  -- A request that is not sent tells the breaker no result: where the URL is refused the breaker is as
  -- it was, and otherwise it was asked for admission and nothing else.
  uncleared_told :
      (asked answered : ℕ) (req : Request)
      → ¬ IsCleared backend c asked req
      → ((do_request backend c asked answered (some req)).circuit_breaker
          ≡ some
              (if is_none (validated backend c req) then run cb (asked_op req asked ∷ []) else cb))
  unfolding do_request enter prepare convert ask_breaker run step
  uncleared_told asked answered req h = elim (Option-cases (validated backend c req)) [
    | inr (f, e) ↦ ground arith
    | inl e ↦ elim (Option-cases (allow cb req.url.hostname asked).1) [
      | inr (f, e1) ↦ ground arith
      | inl e1 ↦ elim (Option-cases (hooked backend c req).1) [
        | inr (f, e2) ↦ ground arith
        | inl e2 ↦ elim (Option-cases (backend.from_request (hooked backend c req).0)) [
          | inr (f, e3) ↦ ground arith
          | inl e3 ↦ absurd (
              h (record {
                url_allowed = e;
                admitted = rw (has, ask_breaker) e1;
                hooks_pass = e2;
                convertible = e3;
              }))
        ]
      ]
    ]
  ]
