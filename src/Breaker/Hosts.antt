-- ===== src/Breaker/Hosts.antt =====
-- circuitbreaker.go: hosts do not affect one another, and the state metric follows the state.
use httpc.Prelude.{ℕ, ◌≡◌, ◌≢◌, ◌∙◌, refl, Option, none, some, List, [], ◌∷◌, arith, if◌then◌else◌}
use httpc.Prelude.Text.{Text, text_eq, text_eq_iff}
use httpc.Prelude.Dict.{lookup, insert, lookup-insert}
use httpc.Breaker.{
  Config, HostBreaker, State, Report, CircuitBreaker, Outcome, fresh, commit, get_or_create,
  allow_switch, success_switch, failure_switch, allow_slow, record_success, record_failure,
  new_circuit_breaker,
}
use httpc.Breaker.Steps.{
  allow-eq-allow_slow, first_of_create, Kind, try, succeed, fail, Op, step, run, current, switch,
  lookup-step,
}

-- Every operation of the sequence is on another host.
abbrev pub Elsewhere : Text → List Op → Type 0
Elsewhere host [] = Unit
Elsewhere host (op ∷ ops) = (op.host ≢ host) × Elsewhere host ops

lookup-step_elsewhere :
    (cb : CircuitBreaker) (op : Op) (host : Text)
    → op.host ≢ host
    → lookup host (step cb op).0.breakers ≡ lookup host cb.breakers
lookup-step_elsewhere cb op host h =
    ground (arith, lookup-step cb op host, text_eq_iff op.host host)

-- Operations on other hosts, at any times, leave a host's breaker as it is.
lookup-run-Elsewhere :
    (cb : CircuitBreaker) (ops : List Op) (host : Text)
    → Elsewhere host ops
    → lookup host (run cb ops).breakers ≡ lookup host cb.breakers
unfolding run
lookup-run-Elsewhere cb [] host h = refl
lookup-run-Elsewhere cb (op ∷ ops) host h =
    lookup-run-Elsewhere (step cb op).0 ops host h.1 ∙ lookup-step_elsewhere cb op host h.0

-- The state that the metrics collector was last given for the host.
abbrev pub last_report : Text → List Report → Option State
last_report host [] = none
last_report host (r ∷ rs) = if text_eq r.host host then some r.state else last_report host rs

abbrev pub state_of : Option HostBreaker → Option State
state_of none = none
state_of (some hb) = some hb.state

pub record Reported (cb : CircuitBreaker) : Type 0 where
  pub at : (host : Text) → last_report host cb.reported ≡ state_of (lookup host cb.breakers)

-- The state after a switch is the one that it reports, or where it reports none the old one.
abbrev pub ReportsChange : HostBreaker → Outcome → Type 0
ReportsChange hb o = o.hb.state ≡ (elim o.changed [ none ↦ hb.state | some s ↦ s ])

module _ (c : Config) (hb : HostBreaker) (now : ℕ) where
  allow_switch-ReportsChange : ReportsChange hb (allow_switch c hb now hb.state)
  unfolding allow_switch
  allow_switch-ReportsChange = ground arith

  success_switch-ReportsChange : ReportsChange hb (success_switch c hb now hb.state)
  unfolding success_switch
  success_switch-ReportsChange = ground arith

  failure_switch-ReportsChange : ReportsChange hb (failure_switch c hb now hb.state)
  unfolding failure_switch
  failure_switch-ReportsChange = ground arith

-- Every switch reports the change that it makes.
pub switch-ReportsChange :
    (k : Kind) (c : Config) (hb : HostBreaker) (now : ℕ) → ReportsChange hb (switch k c hb now)
switch-ReportsChange try c hb now = allow_switch-ReportsChange c hb now
switch-ReportsChange succeed c hb now = success_switch-ReportsChange c hb now
switch-ReportsChange fail c hb now = failure_switch-ReportsChange c hb now

reported-commit :
    (cb : CircuitBreaker) (host j : Text) (now : ℕ) (o : Outcome)
    → ReportsChange (current cb host now) o
    → last_report j cb.reported ≡ state_of (lookup j cb.breakers)
    → last_report j (commit (get_or_create cb host now).1 host o).0.reported
      ≡ state_of (lookup j (commit (get_or_create cb host now).1 host o).0.breakers)
unfolding get_or_create
reported-commit cb host j now o change before = ground (
  arith,
  text_eq_iff host j,
  lookup-insert host j o.hb cb.breakers,
  lookup-insert host j o.hb (insert host (fresh now) cb.breakers),
  lookup-insert host j (fresh now) cb.breakers,
)

step-Reported : (cb : CircuitBreaker) (op : Op) → Reported cb → Reported (step cb op).0
unfolding step allow_slow record_success record_failure
step-Reported cb op h = by_kind op.kind
  where
    before : HostBreaker
    before = current cb op.host op.now

    by_kind : (k : Kind) → Reported (step cb (record op { kind = k })).0
    by_kind try = record {
      at = λ j.
          rw (allow-eq-allow_slow, first_of_create cb op.host op.now)
            (reported-commit cb op.host j op.now (allow_switch cb.config before op.now before.state)
              (allow_switch-ReportsChange cb.config before op.now) (h.at j));
    }
    by_kind succeed = record {
      at = λ j. rw (first_of_create cb op.host op.now) (
          reported-commit cb op.host j op.now (success_switch cb.config before op.now before.state)
            (success_switch-ReportsChange cb.config before op.now) (h.at j));
    }
    by_kind fail = record {
      at = λ j. rw (first_of_create cb op.host op.now) (
          reported-commit cb op.host j op.now (failure_switch cb.config before op.now before.state)
            (failure_switch-ReportsChange cb.config before op.now) (h.at j));
    }

run-Reported : (cb : CircuitBreaker) (ops : List Op) → Reported cb → Reported (run cb ops)
unfolding run
run-Reported cb [] h = h
run-Reported cb (op ∷ ops) h = run-Reported (step cb op).0 ops (step-Reported cb op h)

-- After any operations on a new breaker, the state that the metrics collector was last given for a
-- host is the state of its breaker, and it was given none exactly where the host has no breaker.
reachable-Reported :
    (c : Option Config) (ops : List Op) → Reported (run (new_circuit_breaker c) ops)
unfolding new_circuit_breaker lookup
reachable-Reported none ops =
    run-Reported (new_circuit_breaker none) ops (record { at = λ host. refl })
reachable-Reported (some c) ops =
    run-Reported (new_circuit_breaker (some c)) ops (record { at = λ host. refl })
