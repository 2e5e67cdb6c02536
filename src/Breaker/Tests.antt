-- ===== src/Breaker/Tests.antt =====
-- The breaker on concrete hosts: runs of the operations, and the theorems at inputs.
use httpc.Prelude.{ℕ, ◌≤◌, ◌≡◌, refl, some, List, [], ◌∷◌, ◌++◌, arith, inr}
use httpc.Prelude.Text.{Text, codes, text_eq}
use httpc.Prelude.Int.{pos}
use httpc.Prelude.Dict.{lookup, insert}
use httpc.Errors.{sentinel, circuit_breaker_open}
use httpc.Breaker.{
  Config, HostBreaker, closed, open_state, half_open, CircuitBreaker, fresh, new_circuit_breaker,
  get_or_create, allow, allow_slow, record_success, record_failure, allow_switch, failure_switch,
  success_switch, get_state,
}
use httpc.Breaker.Steps.{try, succeed, Op, step, run}
use httpc.Breaker.Invariant.{AllConsistent, at_least_one, reachable-AllConsistent}
use httpc.Breaker.Runs.{failures_at, half_open_stuck, admitted, half_open_bound}

abbrev host_a : Text
host_a = codes "a.example"

abbrev host_b : Text
host_b = codes "b.example"

abbrev two_failures : Config
two_failures = record {
  max_failures = pos 2;
  open_timeout = pos 10;
  half_open_max_requests = pos 1;
}

abbrev at : HostBreaker → CircuitBreaker
at hb = record { config = two_failures; breakers = (host_a, hb) ∷ []; reported = [] }

abbrev opened : HostBreaker
opened = record (fresh 0) { state = open_state; failures = 2; last_state_change = 100 }

abbrev probing : HostBreaker
probing = record opened { state = half_open; last_state_change = 110; half_open_allowed = 1 }

abbrev op_a : ℕ → Op
op_a t = record { kind = try; host = host_a; now = t }

abbrev life : List Op
life =
    op_a 1 ∷ failures_at host_a (2 ∷ 3 ∷ [])
    ++ op_a 9 ∷ op_a 13 ∷ op_a 14 ∷ record { kind = succeed; host = host_a; now = 20 } ∷ []

life_closes : get_state (run (new_circuit_breaker (some two_failures)) life) host_a ≡ closed
unfolding run step get_state new_circuit_breaker get_or_create allow allow_slow record_success
    record_failure allow_switch failure_switch success_switch lookup insert text_eq
life_closes = refl

life_admits : admitted (new_circuit_breaker (some two_failures)) host_a life ≡ 2
unfolding admitted step new_circuit_breaker get_or_create allow allow_slow record_success
    record_failure allow_switch failure_switch success_switch lookup insert text_eq
life_admits = refl

reachable-AllConsistent_example : AllConsistent (run (new_circuit_breaker (some two_failures)) life)
reachable-AllConsistent_example = reachable-AllConsistent (some two_failures) life

half_open_stuck_example :
    (lookup host_a (run (at probing) (op_a 500 ∷ [])).breakers ≡ some probing)
    × ((allow (run (at probing) (op_a 500 ∷ [])) host_a 900).1
        ≡ some (sentinel circuit_breaker_open))
half_open_stuck_example =
    half_open_stuck (at probing) host_a probing (op_a 500 ∷ []) 900 (unfold lookup text_eq in refl)
      refl (omega arith) (inr (refl, refl), tt)

half_open_bound_example :
    admitted (at opened) host_a (op_a 110 ∷ op_a 111 ∷ [])
    ≤ at_least_one two_failures.half_open_max_requests
half_open_bound_example =
    half_open_bound (at opened) host_a opened (op_a 110 ∷ op_a 111 ∷ [])
      (unfold lookup text_eq in refl) refl (inr (refl, refl), (inr (refl, refl), tt))
