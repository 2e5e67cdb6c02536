-- ===== src/Breaker/Invariant.antt =====
-- circuitbreaker.go: what holds of every host's breaker between two operations.
use httpc.Prelude.{
  ℕ, ◌≤◌, ◌<◌, max, ◌≡◌, Option, none, some, List, [], ◌∷◌, arith, inl, inr, Option-cases,
}
use httpc.Prelude.Text.{Text}
use httpc.Prelude.Int.{ℤ, pos_part}
use httpc.Prelude.Dict.{lookup}
use httpc.Breaker.{
  Config, HostBreaker, closed, open_state, half_open, CircuitBreaker, fresh, allow_switch,
  success_switch, failure_switch, new_circuit_breaker,
}
use httpc.Breaker.Steps.{
  Op, Kind, try, succeed, fail, step, run, outcome, current, lookup-step, config-step,
}

-- A limit of the configuration, where one request at least passes.
abbrev pub at_least_one : ℤ → ℕ
at_least_one z = max 1 (pos_part z)

pub record IsConsistent (c : Config) (hb : HostBreaker) : Type 0 where
  pub closed_below : hb.state ≡ closed → hb.failures < at_least_one c.max_failures
  pub closed_idle : hb.state ≡ closed → (hb.half_open_allowed ≡ 0) × (hb.half_open_success ≡ 0)
  pub open_idle : hb.state ≡ open_state → (hb.half_open_allowed ≡ 0) × (hb.half_open_success ≡ 0)
  pub half_open_started : hb.state ≡ half_open → 1 ≤ hb.half_open_allowed
  pub half_open_capped :
      hb.state ≡ half_open → hb.half_open_allowed ≤ at_least_one c.half_open_max_requests
  pub half_open_waits :
      hb.state ≡ half_open → hb.half_open_success < at_least_one c.half_open_max_requests

fresh-IsConsistent : (c : Config) (now : ℕ) → IsConsistent c (fresh now)
fresh-IsConsistent c now = ground arith

module _ (c : Config) (hb : HostBreaker) (now : ℕ) (h : IsConsistent c hb) where
  allow_switch-IsConsistent : IsConsistent c (allow_switch c hb now hb.state).hb
  unfolding allow_switch
  allow_switch-IsConsistent = ground arith

  success_switch-IsConsistent : IsConsistent c (success_switch c hb now hb.state).hb
  unfolding success_switch
  success_switch-IsConsistent = ground arith

  failure_switch-IsConsistent : IsConsistent c (failure_switch c hb now hb.state).hb
  unfolding failure_switch
  failure_switch-IsConsistent = ground arith

pub record AllConsistent (cb : CircuitBreaker) : Type 0 where
  pub at :
      (host : Text) (hb : HostBreaker)
      → lookup host cb.breakers ≡ some hb
      → IsConsistent cb.config hb

current-IsConsistent :
    (cb : CircuitBreaker) (host : Text) (now : ℕ)
    → AllConsistent cb
    → IsConsistent cb.config (current cb host now)
current-IsConsistent cb host now h = elim (Option-cases (lookup host cb.breakers)) [
  | inl e ↦ rw (e, current) (fresh-IsConsistent cb.config now)
  | inr (hb, e) ↦ rw (e, current) (h.at host hb e)
]

outcome-IsConsistent :
    (cb : CircuitBreaker) (op : Op) → AllConsistent cb → IsConsistent cb.config (outcome cb op).hb
outcome-IsConsistent cb op h = by_kind op.kind
  where
    now_consistent : IsConsistent cb.config (current cb op.host op.now)
    now_consistent = current-IsConsistent cb op.host op.now h

    by_kind : (k : Kind) → IsConsistent cb.config (outcome cb (record op { kind = k })).hb
    by_kind try = allow_switch-IsConsistent cb.config _ op.now now_consistent
    by_kind succeed = success_switch-IsConsistent cb.config _ op.now now_consistent
    by_kind fail = failure_switch-IsConsistent cb.config _ op.now now_consistent

step-AllConsistent :
    (cb : CircuitBreaker) (op : Op) → AllConsistent cb → AllConsistent (step cb op).0
step-AllConsistent cb op h = record {
  at = λ j hb found.
      rw config-step (ground (arith, lookup-step cb op j, outcome-IsConsistent cb op h, h.at j hb));
}

run-AllConsistent :
    (cb : CircuitBreaker) (ops : List Op) → AllConsistent cb → AllConsistent (run cb ops)
unfolding run
run-AllConsistent cb [] h = h
run-AllConsistent cb (op ∷ ops) h =
    run-AllConsistent (step cb op).0 ops (step-AllConsistent cb op h)

new-AllConsistent : (c : Option Config) → AllConsistent (new_circuit_breaker c)
unfolding new_circuit_breaker lookup
new-AllConsistent none = record { at = λ host hb e. cc }
new-AllConsistent (some c) = record { at = λ host hb e. cc }

-- In every state that operations at any times and on any hosts reach from a new breaker, each
-- host's breaker is consistent with the configuration: a closed one has fewer failures than the
-- limit, closed and open ones have no half-open counts, and a half-open one has let through at
-- least one request and at most the half-open limit (1, where the limit is below 1).
pub reachable-AllConsistent :
    (c : Option Config) (ops : List Op) → AllConsistent (run (new_circuit_breaker c) ops)
reachable-AllConsistent c ops = run-AllConsistent (new_circuit_breaker c) ops (new-AllConsistent c)
