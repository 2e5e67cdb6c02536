-- ===== src/Client/Tests.antt =====
-- Do on concrete requests, and the theorems at inputs.
use httpc.Prelude.{
  ℕ, ◌+◌, ◌≤◌, ◌<◌, ◌≡◌, ◌↔◌, refl, true, none, some, [], ◌∷◌, arith, if◌then◌else◌,
}
use httpc.Prelude.Text.{codes, text_eq, split_on}
use httpc.Prelude.Dict.{lookup}
use httpc.Prelude.Int.{ℤ, pos}
use httpc.Errors.{new, ok}
use httpc.Policy.{default_ip_policy}
use httpc.Url.{
  validate_url, validate_parts, validate_host, lower_host, host_alias, strip_zone, is_non_canonical,
  trim_dot,
}
use httpc.Url.Samples.{small, url_of}
use httpc.Breaker.{
  CircuitBreaker, new_circuit_breaker, allow, get_or_create, allow_slow, allow_switch, fresh,
}
use httpc.Client.{
  respond_again, stream, limited_body, Request, Returned, Backend, Client, do_request, enter,
  prepare, convert, send, ask_breaker, run_hooks, limit_body, conclude, respond, authorize,
  handle_auth_retry, replay, RequestHook, validated,
}
use httpc.Client.Effects.{is_sent_again, count, is_sent, IsTidy, do_request-IsTidy}
use httpc.Client.Guards.{hooked, IsCleared, sent_iff}
use httpc.Client.Reauthorized.{resent, IsReauthorized, IsReauthorized-iff}
use httpc.Client.Tripped.{Call, IsFailing, total_sent, total_sent_lem}
use httpc.Client.Capped.{result_capped, do_request-capped}

abbrev answer : ℤ → Returned
answer status = record {
  response = some (record { status = status; body = some (stream 1) });
  failure = none;
}

-- A server that wants the credential "b": without it, 401.
abbrev authorized : Request → Returned
authorized req = elim req.authorization [
  | none ↦ answer (pos 401)
  | some h ↦ if text_eq h (codes "b") then answer (pos 200) else answer (pos 500)
]

abbrev backend : Backend
backend = record {
  platform = small;
  print_url = λ u. u.hostname;
  from_request = λ req. none;
  retry_do = authorized;
  http_do = authorized;
}

abbrev breaker : CircuitBreaker
breaker = new_circuit_breaker none

abbrev client : Client
client = record {
  policy = default_ip_policy;
  circuit_breaker = some breaker;
  request_hooks = [];
  response_hooks = [];
  on_unauthorized = some (ok (codes "b"));
  max_response_body_size = pos 100;
}

abbrev failing_hook : RequestHook
failing_hook req = (req, some (new "no"))

abbrev hooked_client : Client
hooked_client = record client { request_hooks = failing_hook ∷ [] }

abbrev request : Request
request = record {
  url = url_of (codes "a.example");
  has_header = true;
  authorization = none;
  body = none;
  get_body = none;
}

url_passes : validated backend client request ≡ none
unfolding validate_url validate_parts validate_host lower_host host_alias strip_zone
    is_non_canonical text_eq split_on trim_dot
url_passes = refl

cleared : IsCleared backend client 5 request
unfolding ask_breaker allow allow_slow get_or_create allow_switch new_circuit_breaker run_hooks
    lookup
cleared = record {
  url_allowed = url_passes;
  admitted = refl;
  hooks_pass = refl;
  convertible = refl;
}

-- After a 401 the request is made again with the new credential, and the body is limited.
reauthorized : (do_request backend client 5 6 (some request)).returned ≡ record {
  response = some (record { status = pos 200; body = some (limited_body (stream 1) (pos 100)) });
  failure = none;
}
unfolding do_request enter prepare convert send conclude respond authorize handle_auth_retry replay
    limit_body ask_breaker allow allow_slow get_or_create allow_switch new_circuit_breaker run_hooks
    text_eq lookup validate_url validate_parts validate_host lower_host host_alias strip_zone
    is_non_canonical split_on trim_dot
reauthorized = refl

do_request-IsTidy_example :
    IsTidy backend client (do_request backend client 5 6 (some request)).events
do_request-IsTidy_example = do_request-IsTidy backend client 5 6 (some request)

sent_iff_example :
    (count is_sent (do_request backend client 5 6 (some request)).events ≡ 1)
    ↔ IsCleared backend client 5 request
sent_iff_example = sent_iff backend client 5 6 request

hook_fails : ¬ IsCleared backend hooked_client 5 request
unfolding run_hooks
hook_fails h = let passed = h.hooks_pass in absurd (ground arith)

do_request-capped_example :
    result_capped (pos 100) (do_request backend client 5 6 (some request)).returned ≡ true
unfolding run_hooks
do_request-capped_example = do_request-capped backend client refl (λ m r. refl) 5 6 (some request)

abbrev first_try : Returned
first_try = limit_body (pos 100) (authorized (hooked backend client request).0)

IsReauthorized-iff_example :
    ((count is_sent_again (do_request backend client 5 6 (some request)).events ≡ 1) ↔ (
      IsCleared backend client 5 request
      × IsReauthorized backend client (hooked backend client request).0 first_try))
    × (IsCleared backend client 5 request
        → (h : IsReauthorized backend client (hooked backend client request).0 first_try)
        → (resent (do_request backend client 5 6 (some request)).events ≡ h.again ∷ [])
          × (h.again.authorization ≡ some h.header)
          × (h.again.url ≡ (hooked backend client request).0.url)
          × ((do_request backend client 5 6 (some request)).returned
              ≡ (respond_again backend client (limit_body (pos 100) (authorized h.again))).1))
IsReauthorized-iff_example = IsReauthorized-iff backend client 5 6 request

-- A host that is down, behind a breaker that opens at the second failure.
abbrev down : Backend
down = record backend { retry_do = λ req. answer (pos 503) }

abbrev two_strikes : Client
two_strikes = record client {
  circuit_breaker = some (record {
    config = record {
      max_failures = pos 2;
      open_timeout = pos 100;
      half_open_max_requests = pos 1;
    };
    breakers = (codes "a.example", fresh 0) ∷ [];
    reported = [];
  });
}

abbrev call_at : ℕ → Call
call_at t = record { asked = t; answered = t + 1; request = request }

call_fails :
    (t : ℕ) → 10 ≤ t → t < 110 → IsFailing down two_strikes (codes "a.example") 10 100 (call_at t)
unfolding run_hooks limit_body
call_fails t late early = record {
  url_allowed = url_passes;
  hooks_pass = refl;
  convertible = refl;
  asks_host = refl;
  tells_host = refl;
  fails = refl;
  late = omega arith;
  early = omega arith;
}

total_sent_lem_example :
    total_sent down two_strikes (call_at 10 ∷ call_at 20 ∷ call_at 30 ∷ call_at 40 ∷ []) ≡ 2
total_sent_lem_example =
    total_sent_lem down two_strikes _ (codes "a.example") (fresh 0) 10 100
      (call_at 10 ∷ call_at 20 ∷ call_at 30 ∷ call_at 40 ∷ []) refl (unfold lookup text_eq in refl)
      (
        call_fails 10 (omega arith) (omega arith),
        (
          call_fails 20 (omega arith) (omega arith),
          (
            call_fails 30 (omega arith) (omega arith),
            (call_fails 40 (omega arith) (omega arith), tt),
          ),
        ),
      )
      refl refl (omega arith)
