-- ===== src/Metrics/Recorded.antt =====
-- metrics_transport.go, RoundTrip: what the collector is told of a request.
use httpc.Prelude.{◌≡◌, refl, ap, ◌∙◌, Bool, Option, List, [], ◌∷◌, ◌++◌, arith}
use httpc.Prelude.Int.{ℤ}
use httpc.Errors.{Err}
use httpc.Metrics.{
  Labels, extract_metric_labels, Request, Response, Event, request_size, response_size,
  request_duration, requests_total, errors_total, status_of, metrics_round_trip, request_sizes,
  response_sizes, errors,
}

-- The events but the sizes
abbrev pub outcomes : List Event → List Event
outcomes [] = []
outcomes (request_size m l n ∷ es) = outcomes es
outcomes (response_size m l n ∷ es) = outcomes es
outcomes (request_duration m l s t ∷ es) = request_duration m l s t ∷ outcomes es
outcomes (requests_total m l s ∷ es) = requests_total m l s ∷ outcomes es
outcomes (errors_total m l t ∷ es) = errors_total m l t ∷ outcomes es

outcomes-append : (xs ys : List Event) → outcomes (xs ++ ys) ≡ outcomes xs ++ outcomes ys
outcomes-append [] ys = refl
outcomes-append (request_size m l n ∷ xs) ys = outcomes-append xs ys
outcomes-append (response_size m l n ∷ xs) ys = outcomes-append xs ys
outcomes-append (request_duration m l s t ∷ xs) ys =
    ap (λ es. request_duration m l s t ∷ es) (outcomes-append xs ys)
outcomes-append (requests_total m l s ∷ xs) ys =
    ap (λ es. requests_total m l s ∷ es) (outcomes-append xs ys)
outcomes-append (errors_total m l t ∷ xs) ys =
    ap (λ es. errors_total m l t ∷ es) (outcomes-append xs ys)

-- What the transport below gives is passed on.
module _ (net_timeout : Err → Bool) (op_error : Err → Option Err) (is_dns : Err → Bool)
    (base : Request → Option Response × Option Err) (elapsed : ℤ) (req : Request) where
  abbrev run : List Event × (Option Response × Option Err)
  run = metrics_round_trip net_timeout op_error is_dns base elapsed req

  abbrev labels : Labels
  labels = extract_metric_labels req.url

  -- The transport gives what the one below it gives, and of each request the collector is told, under one
  -- method, host and template: once the duration, and once the status, -1 where there is no response; then,
  -- just where there is an error, once its category.
  recorded_lem :
      (run.1 ≡ base req)
      × (outcomes run.0
          ≡ request_duration req.method labels (status_of (base req).0) elapsed
            ∷ requests_total req.method labels (status_of (base req).0)
            ∷ errors net_timeout op_error is_dns req labels (base req).1)
  unfolding metrics_round_trip
  recorded_lem =
      let (resp, failure) = base req in
      let told =
        request_duration req.method labels (status_of resp) elapsed
        ∷ requests_total req.method labels (status_of resp)
        ∷ errors net_timeout op_error is_dns req labels failure in
      let no_request : outcomes (request_sizes req labels) ≡ [] = ground arith in
      let no_response : outcomes (response_sizes req labels resp) ≡ [] = ground arith in
      let none_failed : outcomes told ≡ told = ground arith in
      (
        refl,
        outcomes-append (request_sizes req labels) (response_sizes req labels resp ++ told)
            ∙ ap (λ es. es ++ outcomes (response_sizes req labels resp ++ told)) no_request
            ∙ outcomes-append (response_sizes req labels resp) told
            ∙ ap (λ es. es ++ outcomes told) no_response
            ∙ none_failed,
      )
