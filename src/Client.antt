-- ===== src/Client.antt =====
-- client.go, Client.Do and handleAuthRetry. What they call outside the package (retryablehttp, the
-- caller's hooks) is a parameter; what they do to the world is the list of events.
pub mod Guards
pub mod Phases
pub mod Effects
pub mod Reauthorized
pub mod Recorded
pub mod Capped
pub mod Tripped
mod Tests
use httpc.Prelude.{
  ℕ, String, Bool, true, false, ◌&&◌, ◌||◌, Option, none, some, List, [], ◌∷◌, ◌++◌, is_none,
  if◌then◌else◌,
}
use httpc.Prelude.Text.{Text, text_eq}
use httpc.Prelude.Int.{ℤ, pos, eqb_ℤ, leb_ℤ, ltb_ℤ}
use httpc.Errors.{Err, new, wrap, Result, ok, err}
use httpc.Breaker.{CircuitBreaker, allow, record_success, record_failure}
use httpc.Policy.{IpPolicy}
use httpc.Url.{Url, Platform, validate_url}

-- A body, by its identity, or one wrapped in a limitedReadCloser that has read nothing yet.
pub data Body : Type 0 where
  stream : ℕ → Body
  limited_body : Body → ℤ → Body

pub record Response : Type 0 where
  pub status : ℤ
  pub body : Option Body

-- A request with a URL: a nil request, and one whose URL is nil, is `none` where a request is optional.
-- A hook that took the URL away would make Do panic, and is left out.
pub record Request : Type 0 where
  pub url : Url
  pub has_header : Bool  -- the map Header is not nil
  pub authorization : Option Text
  pub body : Option Body
  pub get_body : Option (Result (Option Body))

pub record Returned : Type 0 where
  pub response : Option Response
  pub failure : Option Err

-- The code outside the package: URL.String, retryablehttp.FromRequest (an error, or none), the Do of
-- the retrying client, and the one of the http.Client that handleAuthRetry uses.
pub record Backend : Type 0 where
  pub platform : Platform
  pub print_url : Url → Text
  pub from_request : Request → Option Err
  pub retry_do : Request → Returned
  pub http_do : Request → Returned

-- A hook may change what it is given, and may fail.
abbrev pub RequestHook : Type 0
RequestHook = Request → Request × Option Err

abbrev pub ResponseHook : Type 0
ResponseHook = Response → Response × Option Err

pub record Client : Type 0 where
  pub policy : IpPolicy
  pub circuit_breaker : Option CircuitBreaker
  pub request_hooks : List RequestHook
  pub response_hooks : List ResponseHook
  pub on_unauthorized : Option (Result Text)
  pub max_response_body_size : ℤ

pub data Event : Type 0 where
  gauge_up gauge_down : Event  -- Increment- and DecrementConcurrentRequests
  sent sent_again : Request → Event  -- a call of retry_do, of http_do
  closed_body : Option Body → Event
  panicked : Event

-- What a call of Do leaves: the breaker, the events in order, the results.
pub record Done : Type 0 where
  pub circuit_breaker : Option CircuitBreaker
  pub events : List Event
  pub returned : Returned

abbrev pub failing : Err → Returned
failing e = record { response = none; failure = some e }

-- Nothing is returned by a panic, which only the deferred functions survive.
abbrev pub nothing : Returned
nothing = record { response = none; failure = none }

abbrev pub stopped : Option CircuitBreaker → List Event → Err → Done
stopped cb events e = record { circuit_breaker = cb; events = events; returned = failing e }

-- the loop over the hooks: the value as the hooks leave it, and the first failure
unfoldable pub run_hooks {ℓ} :
    {A : Type ℓ} → String → List (A → A × Option Err) → A → A × Option Err
run_hooks message [] a = (a, none)
run_hooks message (hook ∷ hooks) a =
    let (a', e) = hook a in
    let rest = run_hooks message hooks a' in
    elim e [ none ↦ rest | some e ↦ (a', some (wrap message e)) ]

-- the block under "Enforce MaxResponseBodySize"
abbrev pub limit_response : ℤ → Response → Response
limit_response limit r = elim r.body [
  | none ↦ r
  | some b ↦ if ltb_ℤ (pos 0) limit then record r { body = some (limited_body b limit) } else r
]

unfoldable pub limit_body : ℤ → Returned → Returned
limit_body limit o = elim o.failure [
  | some e ↦ o
  | none ↦ elim o.response [
    | none ↦ o
    | some r ↦ record o { response = some (limit_response limit r) }
  ]
]

-- the block under "Check circuit breaker"
unfoldable pub ask_breaker : Option CircuitBreaker → Text → ℕ → Option CircuitBreaker × Option Err
ask_breaker none host now = (none, none)
ask_breaker (some cb) host now = let (cb', e) = allow cb host now in (some cb', e)

-- the block under "Record circuit breaker result"
unfoldable pub record_result : Option CircuitBreaker → Text → ℕ → Returned → Option CircuitBreaker
record_result none host now o = none
record_result (some cb) host now o = elim o.failure [
  | some e ↦ some (record_failure cb host now)
  | none ↦ elim o.response [
    | none ↦ some cb
    | some r ↦
        if leb_ℤ (pos 500) r.status
        then some (record_failure cb host now)
        else some (record_success cb host now)
  ]
]

module _ (backend : Backend) (c : Client) where
  -- events and results
  abbrev pub Effects : Type 0
  Effects = List Event × Returned

  -- the loop over the response hooks, which closes the body where one fails
  unfoldable pub respond : String → Option Err → Response → Effects
  respond message failure r =
      let (r', hook_err) = run_hooks message c.response_hooks r in
      elim hook_err [
        | none ↦ ([], record { response = some r'; failure = failure })
        | some e ↦ (closed_body r'.body ∷ [], failing e)
      ]

  abbrev pub respond_again : Returned → Effects
  respond_again o = elim o.failure [
    | some e ↦ ([], o)
    | none ↦ elim o.response [
      | none ↦ ([], o)
      | some r ↦ respond "response hook failed after auth retry" none r
    ]
  ]

  -- the request of the second attempt, or the error of GetBody
  unfoldable pub replay : Request → Text → Result Request
  replay req header = elim req.get_body [
    | none ↦ ok (record req { authorization = some header })
    | some (ok body) ↦ ok (record req { authorization = some header; body = body })
    | some (err e) ↦ err (wrap "failed to replay request body for auth retry" e)
  ]

  abbrev pub send_again : Request → Effects
  send_again req =
      let (events, o) = respond_again (limit_body c.max_response_body_size (backend.http_do req)) in
      (sent_again req ∷ events, o)

  -- from the clone of the request on
  abbrev pub reauthorize : Text → Request → Body → Effects
  reauthorize header req b =
      if req.has_header
      then elim (replay req header) [
        | err e ↦ (closed_body (some b) ∷ [], failing e)
        | ok again ↦ let (events, o) = send_again again in (closed_body (some b) ∷ events, o)
      ]
      else (closed_body (some b) ∷ panicked ∷ [], nothing)  -- Set on a nil Header

  unfoldable pub handle_auth_retry : Result Text → Request → Response → Effects
  handle_auth_retry (err e) req resp401 =
      ([], record { response = some resp401; failure = some (wrap "OnUnauthorized hook failed" e) })
  handle_auth_retry (ok header) req resp401 =
      if text_eq header []
      then ([], record { response = some resp401; failure = none })
      else elim resp401.body [
        | none ↦ (panicked ∷ [], nothing)  -- io.Copy from a nil Body
        | some b ↦ reauthorize header req b
      ]

  abbrev pub is_unauthorized : Response → Bool
  is_unauthorized r = eqb_ℤ r.status (pos 401)

  -- the block under "Handle 401 Unauthorized"
  unfoldable pub authorize : Request → Returned → Effects
  authorize req o = elim o.failure [
    | some e ↦ ([], o)
    | none ↦ elim o.response [
      | none ↦ ([], o)
      | some r ↦ elim c.on_unauthorized [
        | none ↦ ([], o)
        | some answer ↦ if is_unauthorized r then handle_auth_retry answer req r else ([], o)
      ]
    ]
  ]

  -- the response hooks and what follows them
  unfoldable pub conclude : Request → Returned → Effects
  conclude req o = elim o.response [
    | none ↦ ([], o)
    | some r ↦
        let (events, o') = respond "response hook failed" o.failure r in
        elim o'.response [
          | none ↦ (events, o')
          | some r' ↦ let (more, last) = authorize req o' in (events ++ more, last)
        ]
  ]

  -- from the call of retry_do on
  unfoldable pub send : Option CircuitBreaker → ℕ → Request → Done
  send cb now req =
      let o = limit_body c.max_response_body_size (backend.retry_do req) in
      let (events, last) = conclude req o in
      record {
        circuit_breaker = record_result cb req.url.hostname now o;
        events = gauge_up ∷ sent req ∷ (events ++ (gauge_down ∷ []));
        returned = last;
      }

  -- after the request hooks
  unfoldable pub convert : Option CircuitBreaker → ℕ → Request → Done
  convert cb now req = elim (backend.from_request req) [
    | some e ↦ stopped cb (gauge_up ∷ gauge_down ∷ []) (wrap "failed to create retryable request" e)
    | none ↦ send cb now req
  ]

  -- after the circuit breaker
  unfoldable pub prepare : Option CircuitBreaker → ℕ → Request → Done
  prepare cb now req =
      let (req', hook_err) = run_hooks "request hook failed" c.request_hooks req in
      elim hook_err [ some e ↦ stopped cb [] e | none ↦ convert cb now req' ]

  -- after ValidateURL
  unfoldable pub enter : ℕ → ℕ → Request → Done
  enter asked answered req =
      let (cb, refusal) = ask_breaker c.circuit_breaker req.url.hostname asked in
      elim refusal [ some e ↦ stopped cb [] e | none ↦ prepare cb answered req ]

  abbrev pub validated : Request → Option Err
  validated req = validate_url backend.platform (some c.policy) (backend.print_url req.url)

  -- Client.Do; the times are those at which the breaker is asked and told the result.
  unfoldable pub do_request : ℕ → ℕ → Option Request → Done
  do_request asked answered none =
      stopped c.circuit_breaker [] (new "request or request URL is nil")
  do_request asked answered (some req) = elim (validated req) [
    | some e ↦ stopped c.circuit_breaker [] e
    | none ↦ enter asked answered req
  ]
