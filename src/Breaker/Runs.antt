-- ===== src/Breaker/Runs.antt =====
-- circuitbreaker.go: what a host sees over a run of operations, on all hosts interleaved.
use httpc.Prelude.{
  ℕ, suc, ◌+◌, ◌-◌, ◌≤◌, ◌<◌, ◌≡◌, ◌≢◌, ◌∙◌, ap, refl, Bool, true, false, some, List, [], ◌∷◌,
  arith, length, ltb, All, is_none, ◌&&◌, if◌then◌else◌, inl, inr, ◌⊎◌, Bool-cases,
}
use httpc.Prelude.Text.{Text, text_eq, text_eq_iff, text_eq_refl}
use httpc.Prelude.Int.{pos, pos_part, ◌≤ℤ◌}
use httpc.Prelude.Dict.{lookup}
use httpc.Errors.{sentinel, circuit_breaker_open}
use httpc.Breaker.{
  Config, HostBreaker, State, closed, open_state, half_open, CircuitBreaker, allow, get_state,
  allow_switch, success_switch, failure_switch,
}
use httpc.Breaker.Steps.{
  Kind, try, succeed, fail, Op, step, run, outcome, current, lookup-step, err-step, config-step,
}
use httpc.Breaker.Invariant.{at_least_one}

-- The operation's outcome, where its host has a breaker.
outcome_of_known :
    (cb : CircuitBreaker) (op : Op) (hb : HostBreaker)
    → lookup op.host cb.breakers ≡ some hb
    → current cb op.host op.now ≡ hb
outcome_of_known cb op hb e = rw (e, current)

-- `recordFailure` on one host, at each of the times.
abbrev pub failures_at : Text → List ℕ → List Op
failures_at host [] = []
failures_at host (t ∷ ts) = record { kind = fail; host = host; now = t } ∷ failures_at host ts

pub failure_counts :
    (c : Config) (hb : HostBreaker) (now : ℕ)
    → hb.state ≡ closed
    → let hb' = (failure_switch c hb now hb.state).hb in
      (hb'.state
        ≡ (if ltb (hb.failures + 1) (at_least_one c.max_failures) then closed else open_state))
      × (hb'.failures ≡ hb.failures + 1)
unfolding failure_switch
failure_counts c hb now e = ground arith

failure_in_open :
    (c : Config) (hb : HostBreaker) (now : ℕ)
    → hb.state ≡ open_state
    → (failure_switch c hb now hb.state).hb ≡ hb
unfolding failure_switch
failure_in_open c hb now e = ground arith

lookup-step_own :
    (cb : CircuitBreaker) (op : Op)
    → lookup op.host (step cb op).0.breakers ≡ some (outcome cb op).hb
lookup-step_own cb op = lookup-step cb op op.host ∙ (rw (text_eq_refl op.host))

pub lookup-fail :
    (cb : CircuitBreaker) (host : Text) (now : ℕ) (hb : HostBreaker)
    → lookup host cb.breakers ≡ some hb
    → lookup host (step cb (record { kind = fail; host = host; now = now })).0.breakers
      ≡ some (failure_switch cb.config hb now hb.state).hb
lookup-fail cb host now hb e =
    let op : Op = record { kind = fail; host = host; now = now } in
    lookup-step_own cb op
    ∙ ap (λ (b : HostBreaker). some (failure_switch cb.config b now b.state).hb)
        (outcome_of_known cb op hb e)

failures_keep_open :
    (cb : CircuitBreaker) (host : Text) (hb : HostBreaker) (ts : List ℕ)
    → lookup host cb.breakers ≡ some hb
    → hb.state ≡ open_state
    → get_state (run cb (failures_at host ts)) host ≡ open_state
unfolding run get_state
failures_keep_open cb host hb [] e o = rw (e, get_state) o
failures_keep_open cb host hb (t ∷ ts) e o =
    failures_keep_open (step cb (record { kind = fail; host = host; now = t })).0 host hb ts
      (lookup-fail cb host t hb e ∙ ap some (failure_in_open cb.config hb t o)) o

-- Consecutive failures open a closed breaker at exactly the limit: after the failures that it has
-- counted and those at the times `ts`, all on this host, it is closed if they are fewer than
-- `max_failures` (than 1, where that is smaller), and open otherwise.
failures_threshold :
    (cb : CircuitBreaker) (host : Text) (hb : HostBreaker) (ts : List ℕ)
    → lookup host cb.breakers ≡ some hb
    → hb.state ≡ closed
    → hb.failures < at_least_one cb.config.max_failures
    → get_state (run cb (failures_at host ts)) host ≡ (
        if ltb (hb.failures + length ts) (at_least_one cb.config.max_failures)
        then closed
        else open_state)
unfolding run get_state
failures_threshold cb host hb [] e s h = rw (e, get_state) (ground arith)
failures_threshold cb host hb (t ∷ ts) e s h =
    let cb' : CircuitBreaker = (step cb (record { kind = fail; host = host; now = t })).0 in
    let hb' : HostBreaker = (failure_switch cb.config hb t hb.state).hb in
    let counts = failure_counts cb.config hb t s in
    let found = lookup-fail cb host t hb e in
    elim (Bool-cases (ltb (hb.failures + 1) (at_least_one cb.config.max_failures))) [
      | inl below ↦ ground (
        arith,
        config-step cb (record { kind = fail; host = host; now = t }),
        failures_threshold cb' host hb' ts found (counts.0 ∙ rw below),
        counts.1,
      )
      | inr reached ↦
          ground (arith, failures_keep_open cb' host hb' ts found (counts.0 ∙ rw reached))
    ]

-- What an operation does to a host's breaker and, for `allow`, the error that it returns.
pub own_op :
    (cb : CircuitBreaker) (op : Op) (host : Text) (hb : HostBreaker)
    → lookup host cb.breakers ≡ some hb
    → op.host ≡ host
    → op.kind ≡ try
    → (lookup host (step cb op).0.breakers ≡ some (allow_switch cb.config hb op.now hb.state).hb)
      × ((step cb op).1 ≡ (allow_switch cb.config hb op.now hb.state).err)
own_op cb op host hb e h k =
    let found : lookup op.host cb.breakers ≡ some hb = rw h e in
    let cur = outcome_of_known cb op hb found in
    ground (arith, lookup-step cb op host, text_eq_iff op.host host, err-step cb op, cur)

other_op :
    (cb : CircuitBreaker) (op : Op) (host : Text)
    → op.host ≢ host
    → lookup host (step cb op).0.breakers ≡ lookup host cb.breakers
other_op cb op host h = ground (arith, lookup-step cb op host, text_eq_iff op.host host)

-- No result of the host is recorded: its own operations are all `allow`.
abbrev pub Unrecorded : Text → List Op → Type 0
Unrecorded host [] = Unit
Unrecorded host (op ∷ ops) =
    ((op.host ≢ host) ⊎ ((op.host ≡ host) × (op.kind ≡ try))) × Unrecorded host ops

abbrev is_try : Kind → Bool
is_try try = true
is_try succeed = false
is_try fail = false

-- How many `allow` calls of the host return nil in a run.
unfoldable pub admitted : CircuitBreaker → Text → List Op → ℕ
admitted cb host [] = 0
admitted cb host (op ∷ ops) =
    let rest = admitted (step cb op).0 host ops in
    if is_try op.kind && text_eq op.host host && is_none (step cb op).1 then suc rest else rest

-- Once a half-open breaker has let through as many requests as the limit, it refuses every request
-- of its host, at any time, for as long as no result of that host is recorded, whatever happens on
-- other hosts: its breaker stays as it is.
pub half_open_stuck :
    (cb : CircuitBreaker) (host : Text) (hb : HostBreaker) (ops : List Op) (now : ℕ)
    → lookup host cb.breakers ≡ some hb
    → hb.state ≡ half_open
    → cb.config.half_open_max_requests ≤ℤ pos hb.half_open_allowed
    → Unrecorded host ops
    → (lookup host (run cb ops).breakers ≡ some hb)
      × ((allow (run cb ops) host now).1 ≡ some (sentinel circuit_breaker_open))
unfolding run step allow_switch
half_open_stuck cb host hb [] now e s full u = (
  e,
  ground (arith, own_op cb (record { kind = try; host = host; now = now }) host hb e refl refl),
)
half_open_stuck cb host hb (op ∷ ops) now e s full (inl other, u) =
    half_open_stuck (step cb op).0 host hb ops now (other_op cb op host other ∙ e) s
      (rw config-step full) u
half_open_stuck cb host hb (op ∷ ops) now e s full (inr (own, kind), u) =
    half_open_stuck (step cb op).0 host hb ops now
      ((own_op cb op host hb e own kind).0 ∙ ground arith) s (rw config-step full) u

-- Before the timeout no operation changes an open breaker.
open_kept :
    (cb : CircuitBreaker) (op : Op) (host : Text) (hb : HostBreaker) (timeout : ℕ)
    → lookup host cb.breakers ≡ some hb
    → hb.state ≡ open_state
    → cb.config.open_timeout ≡ pos timeout
    → op.now < hb.last_state_change + timeout
    → lookup host (step cb op).0.breakers ≡ some hb
unfolding allow_switch success_switch failure_switch
open_kept cb op host hb timeout e s t before = elim (Bool-cases (text_eq op.host host)) [
  | inl same ↦
      let own = (text_eq_iff op.host host).0 same in
      let cur = outcome_of_known cb op hb (rw own e) in ground (arith, lookup-step cb op host, cur)
  | inr differs ↦ ground (arith, lookup-step cb op host)
]

-- An open breaker refuses every request, and stays as it is, until the timeout has passed since it
-- opened: whatever results are recorded and whatever happens on other hosts before then.
open_holds :
    (cb : CircuitBreaker) (host : Text) (hb : HostBreaker) (timeout : ℕ) (ops : List Op) (now : ℕ)
    → lookup host cb.breakers ≡ some hb
    → hb.state ≡ open_state
    → cb.config.open_timeout ≡ pos timeout
    → All (λ op. op.now < hb.last_state_change + timeout) ops
    → now < hb.last_state_change + timeout
    → (lookup host (run cb ops).breakers ≡ some hb)
      × ((allow (run cb ops) host now).1 ≡ some (sentinel circuit_breaker_open))
unfolding run step allow_switch
open_holds cb host hb timeout [] now e s t early soon = (
  e,
  ground (arith, own_op cb (record { kind = try; host = host; now = now }) host hb e refl refl),
)
open_holds cb host hb timeout (op ∷ ops) now e s t early soon =
    open_holds (step cb op).0 host hb timeout ops now
      (open_kept cb op host hb timeout e s t early.0) s (rw config-step t) early.1 soon

abbrev budget : Config → HostBreaker → State → ℕ
budget c hb closed = 0
budget c hb open_state = at_least_one c.half_open_max_requests
budget c hb half_open = pos_part c.half_open_max_requests - hb.half_open_allowed

abbrev is_open_like : State → Bool
is_open_like closed = false
is_open_like open_state = true
is_open_like half_open = true

-- An `allow` of the host that is admitted uses up one of the budget.
budget-own :
    (c : Config) (hb : HostBreaker) (now : ℕ)
    → is_open_like hb.state ≡ true
    → let o = allow_switch c hb now hb.state in
      (is_open_like o.hb.state ≡ true)
      × (budget c o.hb o.hb.state + (if is_none o.err then 1 else 0) ≤ budget c hb hb.state)
unfolding allow_switch
budget-own c hb now s = ground arith

admitted-le-budget :
    (cb : CircuitBreaker) (host : Text) (hb : HostBreaker) (ops : List Op)
    → lookup host cb.breakers ≡ some hb
    → is_open_like hb.state ≡ true
    → Unrecorded host ops
    → admitted cb host ops ≤ budget cb.config hb hb.state
unfolding admitted
admitted-le-budget cb host hb [] e s u = omega arith
admitted-le-budget cb host hb (op ∷ ops) e s (inl other, u) = ground (
  arith,
  text_eq_iff op.host host,
  config-step cb op,
  admitted-le-budget (step cb op).0 host hb ops (other_op cb op host other ∙ e) s u,
)
admitted-le-budget cb host hb (op ∷ ops) e s (inr (own, kind), u) =
    let o = allow_switch cb.config hb op.now hb.state in
    let b = budget-own cb.config hb op.now s in
    let (found, err) = own_op cb op host hb e own kind in
    ground (
      arith,
      config-step cb op,
      err,
      b,
      admitted-le-budget (step cb op).0 host o.hb ops found b.0 u,
    )

-- From an open breaker, as long as no result of the host is recorded, at most
-- `half_open_max_requests` requests of the host are let through (1, where that is below 1),
-- whatever the times and whatever happens on other hosts.
pub half_open_bound :
    (cb : CircuitBreaker) (host : Text) (hb : HostBreaker) (ops : List Op)
    → lookup host cb.breakers ≡ some hb
    → hb.state ≡ open_state
    → Unrecorded host ops
    → admitted cb host ops ≤ at_least_one cb.config.half_open_max_requests
half_open_bound cb host hb ops e s u = ground (arith, admitted-le-budget cb host hb ops e (rw s) u)
