-- ===== src/Breaker/Interleaved.antt =====
-- circuitbreaker.go between its locks. A call of `allow` takes the read lock and, off the fast path, the
-- write lock; a call that changes a state tells the metrics collector only after Unlock. Each of these
-- is an action of its own here, and goroutines interleave them in any order.
pub mod Linear
pub mod Told
mod Tests
use httpc.Prelude.{
  ℕ, zero, suc, ◌+◌, Bool, true, false, Option, none, some, List, [], ◌∷◌, ◌++◌, if◌then◌else◌,
}
use httpc.Prelude.Text.{Text}
use httpc.Prelude.Dict.{lookup}
use httpc.Errors.{Err}
use httpc.Breaker.{
  CircuitBreaker, HostBreaker, Outcome, Report, State, get_or_create, on_fast_path,
  set_state_metric, store,
}
use httpc.Breaker.Steps.{Kind, try, Op, switch}

-- The breaker, with what the collector was told, and the calls of SetCircuitBreakerState that are
-- still to come: their goroutines have left the lock.
pub record Machine : Type 0 where
  pub cb : CircuitBreaker
  pub in_flight : List Report

pub data Action : Type 0 where
  peek : Text → ℕ → Action  -- the section of `allow` under the read lock
  enter : Op → Action  -- the section of an operation under the write lock
  tell : ℕ → Action  -- the call that stands at this place among those to come

abbrev pub launch : Text → Option State → List Report → List Report
launch host none rs = rs
launch host (some s) rs = record { host = host; state = s } ∷ rs

-- A call at its place, and the others.
unfoldable pub pick : ℕ → List Report → Option (Report × List Report)
pick i [] = none
pick zero (r ∷ rs) = some (r, rs)
pick (suc i) (r ∷ rs) = elim (pick i rs) [ none ↦ none | some (x, rest) ↦ some (x, r ∷ rest) ]

-- The section under the write lock: getOrCreateBreaker reports a new host from inside the lock.
unfoldable pub locked : Machine → Op → Machine × Option Err
locked m op =
    let (hb, cb) = get_or_create m.cb op.host op.now in
    let o = switch op.kind m.cb.config hb op.now in
    (record { cb = store cb op.host o.hb; in_flight = launch op.host o.changed m.in_flight }, o.err)

unfoldable pub deliver : Machine → Option (Report × List Report) → Machine
deliver m none = m
deliver m (some (r, rest)) = record { cb = set_state_metric m.cb r.host r.state; in_flight = rest }

-- An action, and the result of the call that it decides, if it decides one: a nil on the fast path,
-- what the switch returns in a section under the write lock.
unfoldable pub act : Machine → Action → Machine × List (Option Err)
act m (peek host now) = if on_fast_path (lookup host m.cb.breakers) then (m, none ∷ []) else (m, [])
act m (enter op) = let (m', e) = locked m op in (m', e ∷ [])
act m (tell i) = (deliver m (pick i m.in_flight), [])

unfoldable pub play : Machine → List Action → Machine
play m [] = m
play m (a ∷ rest) = play (act m a).0 rest

unfoldable pub results : Machine → List Action → List (Option Err)
results m [] = []
results m (a ∷ rest) = (act m a).1 ++ results (act m a).0 rest
