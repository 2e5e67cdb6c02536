-- ===== src/Breaker/Steps.antt =====
-- circuitbreaker.go as a machine: one operation on one host at one instant, and sequences of these,
-- which are what goroutines make of the breaker's mutex.
use httpc.Prelude.{
  ℕ, ◌≡◌, refl, Option, none, some, List, [], ◌∷◌, arith, if◌then◌else◌, Option-cases, inl, inr,
}
use httpc.Prelude.Text.{Text, text_eq}
use httpc.Prelude.Dict.{lookup, insert, lookup-insert, insert-lookup}
use httpc.Errors.{Err}
use httpc.Breaker.{
  Config, HostBreaker, CircuitBreaker, Outcome, fresh, commit, get_or_create, allow_switch,
  success_switch, failure_switch, allow_slow, allow, record_success, record_failure,
}

pub data Kind : Type 0 where
  try succeed fail : Kind

pub record Op : Type 0 where
  pub kind : Kind
  pub host : Text
  pub now : ℕ

abbrev dispatch : Kind → CircuitBreaker → Text → ℕ → CircuitBreaker × Option Err
dispatch try cb host now = allow cb host now
dispatch succeed cb host now = (record_success cb host now, none)
dispatch fail cb host now = (record_failure cb host now, none)

unfoldable pub step : CircuitBreaker → Op → CircuitBreaker × Option Err
step cb op = dispatch op.kind cb op.host op.now

unfoldable pub run : CircuitBreaker → List Op → CircuitBreaker
run cb [] = cb
run cb (op ∷ ops) = run (step cb op).0 ops

-- The fast path of `allow` does what the slow path does.
pub allow-eq-allow_slow :
    (cb : CircuitBreaker) (host : Text) (now : ℕ) → allow cb host now ≡ allow_slow cb host now
unfolding allow allow_slow get_or_create allow_switch
allow-eq-allow_slow cb host now = elim (Option-cases (lookup host cb.breakers)) [
  | inl e ↦ rw e
  | inr (hb, e) ↦ ground (arith, insert-lookup host hb cb.breakers)
]

-- The breaker that an operation on the host works on.
abbrev pub current : CircuitBreaker → Text → ℕ → HostBreaker
current cb host now = elim (lookup host cb.breakers) [ some hb ↦ hb | none ↦ fresh now ]

abbrev pub switch : Kind → Config → HostBreaker → ℕ → Outcome
switch try c hb now = allow_switch c hb now hb.state
switch succeed c hb now = success_switch c hb now hb.state
switch fail c hb now = failure_switch c hb now hb.state

abbrev pub outcome : CircuitBreaker → Op → Outcome
outcome cb op = switch op.kind cb.config (current cb op.host op.now) op.now

commit_after_create :
    (cb : CircuitBreaker) (host j : Text) (now : ℕ) (o : Outcome)
    → lookup j (commit (get_or_create cb host now).1 host o).0.breakers
      ≡ (if text_eq host j then some o.hb else lookup j cb.breakers)
unfolding get_or_create
commit_after_create cb host j now o = ground (
  arith,
  lookup-insert host j o.hb cb.breakers,
  lookup-insert host j o.hb (insert host (fresh now) cb.breakers),
  lookup-insert host j (fresh now) cb.breakers,
)

pub first_of_create :
    (cb : CircuitBreaker) (host : Text) (now : ℕ)
    → (get_or_create cb host now).0 ≡ current cb host now
unfolding get_or_create
first_of_create cb host now = ground arith

commit_err : (cb : CircuitBreaker) (host : Text) (o : Outcome) → (commit cb host o).1 ≡ o.err
commit_err cb host o = refl

lookup-dispatch :
    (k : Kind) (cb : CircuitBreaker) (host : Text) (now : ℕ) (j : Text)
    → lookup j (dispatch k cb host now).0.breakers ≡ (
        if text_eq host j
        then some (switch k cb.config (current cb host now) now).hb
        else lookup j cb.breakers)
unfolding allow_slow record_success record_failure
lookup-dispatch try cb host now j =
    rw (allow-eq-allow_slow, first_of_create cb host now)
      (commit_after_create cb host j now (switch try cb.config (current cb host now) now))
lookup-dispatch succeed cb host now j =
    rw (first_of_create cb host now)
      (commit_after_create cb host j now (switch succeed cb.config (current cb host now) now))
lookup-dispatch fail cb host now j =
    rw (first_of_create cb host now)
      (commit_after_create cb host j now (switch fail cb.config (current cb host now) now))

-- An operation gives its host the outcome of its switch, and leaves every other host's breaker.
pub lookup-step :
    (cb : CircuitBreaker) (op : Op) (j : Text)
    → lookup j (step cb op).0.breakers
      ≡ (if text_eq op.host j then some (outcome cb op).hb else lookup j cb.breakers)
unfolding step
lookup-step cb op j = lookup-dispatch op.kind cb op.host op.now j

dispatch_err :
    (k : Kind) (cb : CircuitBreaker) (host : Text) (now : ℕ)
    → (dispatch k cb host now).1 ≡ (switch k cb.config (current cb host now) now).err
unfolding allow_slow success_switch failure_switch
dispatch_err try cb host now = rw (allow-eq-allow_slow, first_of_create cb host now)
dispatch_err succeed cb host now = ground arith
dispatch_err fail cb host now = ground arith

-- The error of an operation is that of its switch.
pub err-step : (cb : CircuitBreaker) (op : Op) → (step cb op).1 ≡ (outcome cb op).err
unfolding step
err-step cb op = dispatch_err op.kind cb op.host op.now

config_of_commit :
    (cb : CircuitBreaker) (host : Text) (now : ℕ) (o : Outcome)
    → (commit (get_or_create cb host now).1 host o).0.config ≡ cb.config
unfolding get_or_create
config_of_commit cb host now o = ground arith

config-dispatch :
    (k : Kind) (cb : CircuitBreaker) (host : Text) (now : ℕ)
    → (dispatch k cb host now).0.config ≡ cb.config
unfolding allow_slow record_success record_failure
config-dispatch try cb host now =
    rw allow-eq-allow_slow
      (config_of_commit cb host now (switch try cb.config (get_or_create cb host now).0 now))
config-dispatch succeed cb host now =
    config_of_commit cb host now (switch succeed cb.config (get_or_create cb host now).0 now)
config-dispatch fail cb host now =
    config_of_commit cb host now (switch fail cb.config (get_or_create cb host now).0 now)

pub config-step : (cb : CircuitBreaker) (op : Op) → (step cb op).0.config ≡ cb.config
unfolding step
config-step cb op = config-dispatch op.kind cb op.host op.now
