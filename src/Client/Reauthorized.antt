-- ===== src/Client/Reauthorized.antt =====
-- client.go, Client.Do and handleAuthRetry: when a request is made a second time.
use httpc.Prelude.{
  ℕ, String, ◌≡◌, ◌↔◌, refl, inl, inr, true, false, Option, none, some, List, [], ◌∷◌, ◌++◌,
  is_some, arith, Option-cases,
}
use httpc.Prelude.Text.{Text, text_eq}
use httpc.Errors.{Err, ok, Result-cases}
use httpc.Breaker.{CircuitBreaker}
use httpc.Client.{
  Response, Request, Returned, Backend, Client, Event, gauge_up, gauge_down, sent, sent_again,
  closed_body, panicked, respond_again, run_hooks, limit_body, ask_breaker, respond, replay,
  send_again, handle_auth_retry, authorize, conclude, send, convert, prepare, enter, do_request,
  is_unauthorized,
}
use httpc.Client.Effects.{count, count-append, is_sent_again, quiet_respond, quiet_respond_again}
use httpc.Client.Guards.{IsCleared, hooked}

-- the requests of the calls of http_do
unfoldable pub resent : List Event → List Request
resent [] = []
resent (e ∷ es) =
    let rest = resent es in
    elim e [
      | gauge_up ↦ rest
      | gauge_down ↦ rest
      | sent req ↦ rest
      | sent_again req ↦ req ∷ rest
      | closed_body b ↦ rest
      | panicked ↦ rest
    ]

resent-append : (xs ys : List Event) → resent (xs ++ ys) ≡ resent xs ++ resent ys
unfolding resent
resent-append [] ys = refl
resent-append (x ∷ xs) ys = ground (arith, resent-append xs ys)

module _ (backend : Backend) (c : Client) where
  abbrev responded : Response → Response × Option Err
  responded r = run_hooks "response hook failed" c.response_hooks r

  -- The first attempt of the request gave a response without an error; the response hooks pass, and leave
  -- the status 401; and OnUnauthorized offers a header, with which the request can be made again.
  pub record IsReauthorized (req : Request) (o : Returned) : Type 0 where
    pub no_error : o.failure ≡ none
    pub response : Response
    pub arrived : o.response ≡ some response
    pub hooks_pass : (responded response).1 ≡ none
    pub unauthorized : is_unauthorized backend c (responded response).0 ≡ true
    pub header : Text
    pub offered : c.on_unauthorized ≡ some (ok header)
    pub not_empty : text_eq header [] ≡ false
    pub has_body : is_some (responded response).0.body ≡ true
    pub has_header : req.has_header ≡ true
    pub again : Request
    pub replayed : replay backend c req header ≡ ok again

  resent-respond :
      (m : String) (e : Option Err) (r : Response) → resent (respond backend c m e r).0 ≡ []
  unfolding resent respond
  resent-respond m e r = ground arith

  resent-send_again : (req : Request) → resent (send_again backend c req).0 ≡ req ∷ []
  unfolding resent
  resent-send_again req =
      let o = limit_body c.max_response_body_size (backend.http_do req) in
      elim (Option-cases o.response) [
        | inl e ↦ ground arith
        | inr (r, e) ↦ ground (arith, resent-respond "response hook failed after auth retry" none r)
      ]

  -- The second attempt is the one call of http_do, and its outcome is that of Do.
  conclude_again :
      (req : Request) (o : Returned) (h : IsReauthorized req o)
      → (resent (conclude backend c req o).0 ≡ h.again ∷ [])
        × ((conclude backend c req o).1
            ≡ (respond_again backend c
                (limit_body c.max_response_body_size (backend.http_do h.again))).1)
  unfolding conclude respond authorize handle_auth_retry resent
  conclude_again req o h =
      let one = resent-send_again h.again in
      let a = h.no_error in
      let b = h.arrived in
      let d = h.hooks_pass in
      let e = h.unauthorized in
      let f = h.offered in
      let g = h.not_empty in
      let i = h.replayed in
      let j = h.has_body in let k = h.has_header in (ground arith, ground arith)

  abbrev again_in : List Event → ℕ
  again_in es = count is_sent_again es

  one_again : (req : Request) → again_in (send_again backend c req).0 ≡ 1
  unfolding count
  one_again req =
      let quiet =
        quiet_respond_again backend c is_sent_again (λ b. refl) refl 1 (λ r. omega arith)
          (limit_body c.max_response_body_size (backend.http_do req)) in
      ground arith

  sound :
      (req : Request) (o : Returned)
      → IsReauthorized req o
      → again_in (conclude backend c req o).0 ≡ 1
  unfolding conclude respond authorize handle_auth_retry count
  sound req o h =
      let one = one_again h.again in
      let a = h.no_error in
      let b = h.arrived in
      let d = h.hooks_pass in
      let e = h.unauthorized in
      let f = h.offered in
      let g = h.not_empty in
      let i = h.replayed in let j = h.has_body in let k = h.has_header in ground arith

  abbrev quiet :
      (r : Response) (e : Option Err)
      → again_in (respond backend c "response hook failed" e r).0 ≡ 0
  quiet r e =
      quiet_respond backend c is_sent_again (λ b. refl) refl 1 (λ r. omega arith)
        "response hook failed" e r

  complete :
      (req : Request) (o : Returned)
      → again_in (conclude backend c req o).0 ≡ 1
      → IsReauthorized req o
  unfolding conclude respond authorize handle_auth_retry count
  complete req o h = elim (Option-cases o.response) [
    | inl e ↦ absurd (ground arith)
    | inr (r, e) ↦ elim (Option-cases (responded r).1) [
      | inr (f, e1) ↦ absurd (ground arith)
      | inl e1 ↦ elim (Option-cases c.on_unauthorized) [
        | inl e2 ↦ absurd (ground arith)
        | inr (a, e2) ↦ elim (Result-cases a) [
          | inr (f, e3) ↦ absurd (ground arith)
          | inl (header, e3) ↦ elim (Result-cases (replay backend c req header)) [
            | inr (f, e4) ↦ absurd (ground arith)
            | inl (again, e4) ↦ record {
              no_error = ground arith;
              response = r;
              arrived = e;
              hooks_pass = e1;
              unauthorized = ground arith;
              header = header;
              offered = rw (← e3) e2;
              not_empty = ground arith;
              has_body = ground arith;
              has_header = ground arith;
              again = again;
              replayed = e4;
            }
          ]
        ]
      ]
    ]
  ]

  again_send :
      (cb : Option CircuitBreaker) (now : ℕ) (req : Request)
      → again_in (send backend c cb now req).events
        ≡ again_in
            (conclude backend c req (limit_body c.max_response_body_size (backend.retry_do req))).0
  unfolding send count
  again_send cb now req =
      let o = limit_body c.max_response_body_size (backend.retry_do req) in
      let events = (conclude backend c req o).0 in
      ground (arith, count-append is_sent_again events (gauge_down ∷ []))

  sent_send :
      (cb : Option CircuitBreaker) (now : ℕ) (req : Request)
      (h : IsReauthorized req (limit_body c.max_response_body_size (backend.retry_do req)))
      → (resent (send backend c cb now req).events ≡ h.again ∷ [])
        × ((send backend c cb now req).returned
            ≡ (respond_again backend c
                (limit_body c.max_response_body_size (backend.http_do h.again))).1)
  unfolding send resent
  sent_send cb now req h =
      let o = limit_body c.max_response_body_size (backend.retry_do req) in
      let events = (conclude backend c req o).0 in
      let (one, outcome) = conclude_again req o h in
      (ground (arith, one, resent-append events (gauge_down ∷ [])), outcome)

  replay-header :
      (req : Request) (header : Text) (again : Request)
      → replay backend c req header ≡ ok again
      → (again.authorization ≡ some header) × (again.url ≡ req.url)
  unfolding replay
  replay-header req header again h = elim (Option-cases req.get_body) [
    | inl e ↦ (ground arith, ground arith)
    | inr (a, e) ↦ elim (Result-cases a) [
      | inl (b, f) ↦ (ground arith, ground arith)
      | inr (f, g) ↦ absurd (ground arith)
    ]
  ]

  -- The second attempt is made just when the request was cleared for the first, that gave a response
  -- without an error, the response hooks pass and leave the status 401 and a body, OnUnauthorized gives
  -- a header that is not empty, the map Header of the request is not nil, and the body can be
  -- replayed. Then exactly one request is sent again: it carries that header, and goes to the URL of the
  -- first; and Do returns its outcome, as the limit and the response hooks leave it.
  pub IsReauthorized-iff :
      (asked answered : ℕ) (req : Request)
      → let req' = (hooked backend c req).0 in
        let o = limit_body c.max_response_body_size (backend.retry_do req') in
        ((count is_sent_again (do_request backend c asked answered (some req)).events ≡ 1)
          ↔ (IsCleared backend c asked req × IsReauthorized req' o))
        × (IsCleared backend c asked req
            → (h : IsReauthorized req' o)
            → let done = do_request backend c asked answered (some req) in
              (resent done.events ≡ h.again ∷ [])
              × (h.again.authorization ≡ some h.header)
              × (h.again.url ≡ req'.url)
              × (done.returned
                  ≡ (respond_again backend c
                      (limit_body c.max_response_body_size (backend.http_do h.again))).1))
  unfolding do_request enter prepare convert count
  IsReauthorized-iff asked answered req =
      let req' = (hooked backend c req).0 in
      let o = limit_body c.max_response_body_size (backend.retry_do req') in
      let cb = (ask_breaker c.circuit_breaker req.url.hostname asked).0 in
      let same = again_send cb answered req' in
      (
        (
          λ h. (
            record {
              url_allowed = ground arith;
              admitted = ground arith;
              hooks_pass = ground arith;
              convertible = ground arith;
            },
            complete req' o (ground arith),
          ),
          λ (cleared, h).
              let one = sound req' o h in
              let a = cleared.url_allowed in
              let b = cleared.admitted in
              let d = cleared.hooks_pass in let e = cleared.convertible in ground arith,
        ),
        λ cleared h.
            let (sent_one, outcome) = sent_send cb answered req' h in
            let (carries, same_url) = replay-header req' h.header h.again h.replayed in
            let a = cleared.url_allowed in
            let b = cleared.admitted in
            let d = cleared.hooks_pass in
            let e = cleared.convertible in (ground arith, carries, same_url, ground arith),
      )
