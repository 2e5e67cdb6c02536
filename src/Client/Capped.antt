-- ===== src/Client/Capped.antt =====
-- client.go, Client.Do and handleAuthRetry: the bodies they hand out are limited.
use httpc.Prelude.{
  ℕ, String, ◌≡◌, refl, inl, inr, Bool, true, false, Option, none, some, arith, Option-cases,
}
use httpc.Prelude.Text.{Text}
use httpc.Prelude.Int.{ℤ, pos, ltb_ℤ, eqb_ℤ}
use httpc.Errors.{Err, Result, ok, err, Result-cases}
use httpc.Client.{
  Body, stream, limited_body, Response, Request, Returned, Backend, Client, run_hooks, limit_body,
  respond, replay, send_again, handle_auth_retry, authorize, conclude, send, convert, prepare,
  enter, do_request,
}

-- a body that is there is a limitedReadCloser with this limit
abbrev pub body_capped : ℤ → Option Body → Bool
body_capped limit none = true
body_capped limit (some (stream n)) = false
body_capped limit (some (limited_body b l)) = eqb_ℤ l limit

-- a response that comes without an error has such a body
abbrev pub result_capped : ℤ → Returned → Bool
result_capped limit o = elim o.failure [
  | some e ↦ true
  | none ↦ elim o.response [ none ↦ true | some r ↦ body_capped limit r.body ]
]

limit_body-capped :
    (limit : ℤ) (o : Returned)
    → ltb_ℤ (pos 0) limit ≡ true
    → result_capped limit (limit_body limit o) ≡ true
unfolding limit_body
limit_body-capped limit o h = ground arith

module _ (backend : Backend) (c : Client) (positive : ltb_ℤ (pos 0) c.max_response_body_size ≡ true)
    (keep : (message : String) (r : Response)
      → (run_hooks message c.response_hooks r).0.body ≡ r.body) where
  abbrev limit : ℤ
  limit = c.max_response_body_size

  respond-capped :
      (m : String) (e : Option Err) (r : Response)
      → result_capped limit (record { response = some r; failure = e }) ≡ true
      → result_capped limit (respond backend c m e r).1 ≡ true
  unfolding respond
  respond-capped m e r h = ground (arith, keep m r)

  again-capped : (req : Request) → result_capped limit (send_again backend c req).1 ≡ true
  unfolding limit_body
  again-capped req =
      let o = limit_body c.max_response_body_size (backend.http_do req) in
      let capped = limit_body-capped limit (backend.http_do req) positive in
      elim (Option-cases o.response) [
        | inl e ↦ ground arith
        | inr (r, e) ↦ ground (arith, respond-capped "response hook failed after auth retry" none r)
      ]

  retry-capped :
      (a : Result Text) (req : Request) (r : Response)
      → body_capped limit r.body ≡ true
      → result_capped limit (handle_auth_retry backend c a req r).1 ≡ true
  unfolding handle_auth_retry
  retry-capped (err e) req r h = refl
  retry-capped (ok header) req r h = elim (Result-cases (replay backend c req header)) [
    | inl (a, e) ↦ ground (arith, again-capped a)
    | inr (a, e) ↦ ground arith
  ]

  authorize-capped :
      (req : Request) (o : Returned)
      → result_capped limit o ≡ true
      → result_capped limit (authorize backend c req o).1 ≡ true
  unfolding authorize
  authorize-capped req o h = elim (Option-cases o.response) [
    | inl e ↦ ground arith
    | inr (r, e) ↦ elim (Option-cases c.on_unauthorized) [
      | inl f ↦ ground arith
      | inr (a, f) ↦ ground (arith, retry-capped a req r)
    ]
  ]

  conclude-capped :
      (req : Request) (o : Returned)
      → result_capped limit o ≡ true
      → result_capped limit (conclude backend c req o).1 ≡ true
  unfolding conclude
  conclude-capped req o h = elim (Option-cases o.response) [
    | inl e ↦ ground arith
    | inr (r, e) ↦
        let o' = (respond backend c "response hook failed" o.failure r).1 in
        ground (arith, respond-capped "response hook failed" o.failure r, authorize-capped req o')
  ]

  -- With a positive MaxResponseBodySize, and response hooks that leave the body of a response as it is, a
  -- response that Do returns without an error, from the first attempt or from the one after a 401,
  -- has no body, or one that is wrapped in a limitedReadCloser with that limit.
  pub do_request-capped :
      (asked answered : ℕ) (req : Option Request)
      → result_capped limit (do_request backend c asked answered req).returned ≡ true
  unfolding do_request enter prepare convert send
  do_request-capped asked answered none = refl
  do_request-capped asked answered (some req) =
      let req' = (run_hooks "request hook failed" c.request_hooks req).0 in
      let o = backend.retry_do req' in
      let capped = limit_body-capped limit o positive in
      ground (arith, conclude-capped req' (limit_body limit o))
