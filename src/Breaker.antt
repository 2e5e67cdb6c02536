-- ===== src/Breaker.antt =====
-- circuitbreaker.go: the circuit breaker of each host. An operation is one critical section of the
-- breaker's mutex, with one reading of the clock (`now`, in nanoseconds); the calls of
-- `metrics.SetCircuitBreakerState` are recorded in `reported`, the latest first. The integers of the
-- configuration may be negative; the counters of a host start at 0 and are only incremented or reset. In
-- Breaker/Interleaved the reports, which the source makes after it has left the lock, are steps of their own.
pub mod Steps
pub mod Invariant
pub mod Hosts
pub mod Runs
pub mod Interleaved
mod Tests
use httpc.Prelude.{
  ℕ, ◌+◌, Bool, true, false, Option, none, some, List, [], ◌∷◌, is_none, if◌then◌else◌,
}
use httpc.Prelude.Text.{Text}
use httpc.Prelude.Int.{ℤ, pos, sub_ℕ, leb_ℤ}
use httpc.Prelude.Dict.{Dict, lookup, insert}
use httpc.Errors.{Err, sentinel, circuit_breaker_open}
use httpc.Defaults.{
  default_circuit_breaker_max_failures, default_circuit_breaker_open_timeout,
  default_circuit_breaker_half_open_requests,
}

pub data State : Type 0 where
  closed open_state half_open : State

pub record Config : Type 0 where
  pub max_failures : ℤ
  pub open_timeout : ℤ
  pub half_open_max_requests : ℤ

-- DefaultCircuitBreakerConfig
abbrev pub default_config : Config
default_config = record {
  max_failures = default_circuit_breaker_max_failures;
  open_timeout = default_circuit_breaker_open_timeout;
  half_open_max_requests = default_circuit_breaker_half_open_requests;
}

pub record HostBreaker : Type 0 where
  pub state : State
  pub failures : ℕ
  pub last_state_change : ℕ
  pub half_open_success : ℕ
  pub half_open_allowed : ℕ

pub record Report : Type 0 where
  pub host : Text
  pub state : State

pub record CircuitBreaker : Type 0 where
  pub config : Config
  pub breakers : Dict HostBreaker
  pub reported : List Report

-- A nil configuration takes the defaults.
unfoldable pub new_circuit_breaker : Option Config → CircuitBreaker
new_circuit_breaker none = record { config = default_config; breakers = []; reported = [] }
new_circuit_breaker (some c) = record { config = c; breakers = []; reported = [] }

-- metrics.SetCircuitBreakerState
abbrev pub set_state_metric : CircuitBreaker → Text → State → CircuitBreaker
set_state_metric cb host s = record cb {
  reported = record { host = host; state = s } ∷ cb.reported;
}

-- The breaker that getOrCreateBreaker allocates.
abbrev pub fresh : ℕ → HostBreaker
fresh now = record {
  state = closed;
  failures = 0;
  last_state_change = now;
  half_open_success = 0;
  half_open_allowed = 0;
}

-- The pointer that getOrCreateBreaker returns is the map's own: a write through it is `store`.
unfoldable pub get_or_create : CircuitBreaker → Text → ℕ → HostBreaker × CircuitBreaker
get_or_create cb host now = elim (lookup host cb.breakers) [
  | some hb ↦ (hb, cb)
  | none ↦ (
    fresh now,
    set_state_metric (record cb { breakers = insert host (fresh now) cb.breakers }) host closed,
  )
]

abbrev pub store : CircuitBreaker → Text → HostBreaker → CircuitBreaker
store cb host hb = record cb { breakers = insert host hb cb.breakers }

-- What the switch of an operation does to its host: the new fields, the state to report
-- (`stateChanged` with `newState`), and the error.
pub record Outcome : Type 0 where
  pub hb : HostBreaker
  pub changed : Option State
  pub err : Option Err

abbrev pub report : CircuitBreaker → Text → Option State → CircuitBreaker
report cb host none = cb
report cb host (some s) = set_state_metric cb host s

abbrev pub commit : CircuitBreaker → Text → Outcome → CircuitBreaker × Option Err
commit cb host o = (report (store cb host o.hb) host o.changed, o.err)

abbrev pub unchanged : HostBreaker → Outcome
unchanged hb = record { hb = hb; changed = none; err = none }

abbrev pub refuse : HostBreaker → Outcome
refuse hb = record { hb = hb; changed = none; err = some (sentinel circuit_breaker_open) }

-- the switch of `allow`
unfoldable pub allow_switch : Config → HostBreaker → ℕ → State → Outcome
allow_switch c hb now open_state =
    if leb_ℤ c.open_timeout (sub_ℕ now hb.last_state_change)
    then record {
      hb = record hb { state = half_open; last_state_change = now; half_open_allowed = 1 };
      changed = some half_open;
      err = none;
    }
    else refuse hb
allow_switch c hb now half_open =
    if leb_ℤ c.half_open_max_requests (pos hb.half_open_allowed)
    then refuse hb
    else unchanged (record hb { half_open_allowed = hb.half_open_allowed + 1 })
allow_switch c hb now closed = unchanged hb

abbrev is_closed : State → Bool
is_closed closed = true
is_closed _ = false

-- `exists && hb.state == StateClosed`
abbrev pub on_fast_path : Option HostBreaker → Bool
on_fast_path none = false
on_fast_path (some hb) = is_closed hb.state

unfoldable pub allow_slow : CircuitBreaker → Text → ℕ → CircuitBreaker × Option Err
allow_slow cb host now =
    let (hb, cb') = get_or_create cb host now in
    commit cb' host (allow_switch cb.config hb now hb.state)

unfoldable pub allow : CircuitBreaker → Text → ℕ → CircuitBreaker × Option Err
allow cb host now =
    if on_fast_path (lookup host cb.breakers) then (cb, none) else allow_slow cb host now

-- the switch of `recordSuccess`
unfoldable pub success_switch : Config → HostBreaker → ℕ → State → Outcome
success_switch c hb now half_open =
    let n = hb.half_open_success + 1 in
    if leb_ℤ c.half_open_max_requests (pos n)
    then record {
      hb = record {
        state = closed;
        failures = 0;
        last_state_change = now;
        half_open_success = 0;
        half_open_allowed = 0;
      };
      changed = some closed;
      err = none;
    }
    else unchanged (record hb { half_open_success = n })
success_switch c hb now closed = unchanged (record hb { failures = 0 })
success_switch c hb now open_state = unchanged hb

unfoldable pub record_success : CircuitBreaker → Text → ℕ → CircuitBreaker
record_success cb host now =
    let (hb, cb') = get_or_create cb host now in
    (commit cb' host (success_switch cb.config hb now hb.state)).0

-- the switch of `recordFailure`
unfoldable pub failure_switch : Config → HostBreaker → ℕ → State → Outcome
failure_switch c hb now half_open = record {
  hb = record hb {
    state = open_state;
    last_state_change = now;
    half_open_success = 0;
    half_open_allowed = 0;
  };
  changed = some open_state;
  err = none;
}
failure_switch c hb now closed =
    let n = hb.failures + 1 in
    if leb_ℤ c.max_failures (pos n)
    then record {
      hb = record hb { failures = n; state = open_state; last_state_change = now };
      changed = some open_state;
      err = none;
    }
    else unchanged (record hb { failures = n })
failure_switch c hb now open_state = unchanged hb

unfoldable pub record_failure : CircuitBreaker → Text → ℕ → CircuitBreaker
record_failure cb host now =
    let (hb, cb') = get_or_create cb host now in
    (commit cb' host (failure_switch cb.config hb now hb.state)).0

unfoldable pub get_state : CircuitBreaker → Text → State
get_state cb host = elim (lookup host cb.breakers) [ none ↦ closed | some hb ↦ hb.state ]
