-- ===== src/Breaker/Interleaved/Told.antt =====
-- circuitbreaker.go: the state that the metrics collector is left with, where goroutines interleave.
use httpc.Prelude.{
  ℕ, zero, suc, ◌+◌, ◌≡◌, ◌∙◌, ap, refl, true, Option, none, some, List, [], ◌∷◌, ◌++◌, arith,
  length, Bool-cases, inl, inr,
}
use mathlib.Core.Path.{subst}
use httpc.Prelude.Text.{Text, text_eq_iff, text_eq_refl}
use httpc.Prelude.Int.{pos, leb_ℤ, sub_ℕ}
use httpc.Prelude.Dict.{lookup, insert, lookup-insert}
use httpc.Breaker.{
  on_fast_path, Config, CircuitBreaker, HostBreaker, Outcome, Report, closed, open_state, half_open,
  fresh, get_or_create, new_circuit_breaker, store, get_state, allow_switch, failure_switch,
}
use httpc.Breaker.Steps.{try, fail, Op, switch, current, first_of_create}
use httpc.Breaker.Hosts.{last_report, state_of, ReportsChange, switch-ReportsChange}
use httpc.Breaker.Interleaved.{
  Machine, Action, peek, enter, tell, launch, pick, locked, deliver, act, play,
}
use httpc.Breaker.Interleaved.Linear.{reports}

-- Every call of the collector is the oldest of those that are still to come: goroutines make their
-- calls in the order in which they left the lock.
abbrev pub InOrder : Machine → List Action → Type 0
InOrder m [] = Unit
InOrder m (tell i ∷ rest) = (suc i ≡ length m.in_flight) × InOrder (act m (tell i)).0 rest
InOrder m (a ∷ rest) = InOrder (act m a).0 rest

last_report-append :
    (j : Text) (xs ys : List Report)
    → last_report j (xs ++ ys)
      ≡ (elim (last_report j xs) [ some s ↦ some s | none ↦ last_report j ys ])
last_report-append j [] ys = refl
last_report-append j (x ∷ xs) ys = ground (arith, last_report-append j xs ys)

-- For each host, the newest report, told or to come, is of the state of its breaker.
record Accurate (m : Machine) : Type 0 where
  at : (host : Text) → last_report host (reports m) ≡ state_of (lookup host m.cb.breakers)

store-Accurate :
    (cb : CircuitBreaker) (fl : List Report) (host j : Text) (now : ℕ) (o : Outcome)
    → ReportsChange (current cb host now) o
    → last_report j (fl ++ cb.reported) ≡ state_of (lookup j cb.breakers)
    → let c = (get_or_create cb host now).1 in
      last_report j (launch host o.changed fl ++ c.reported)
      ≡ state_of (lookup j (store c host o.hb).breakers)
unfolding get_or_create
store-Accurate cb fl host j now o change before = ground (
  arith,
  text_eq_iff host j,
  last_report-append j fl cb.reported,
  last_report-append j fl (record { host = host; state = closed } ∷ cb.reported),
  lookup-insert host j o.hb cb.breakers,
  lookup-insert host j o.hb (insert host (fresh now) cb.breakers),
  lookup-insert host j (fresh now) cb.breakers,
)

pick_last :
    (i : ℕ) (rs past : List Report)
    → suc i ≡ length rs
    → (x : Report) × (rest : List Report) × (pick i rs ≡ some (x, rest))
      × (rest ++ (x ∷ past) ≡ rs ++ past)
unfolding pick
pick_last i [] past h = absurd (omega arith)
pick_last zero (r ∷ []) past h = (r, [], refl, refl)
pick_last zero (r ∷ s ∷ rs) past h = absurd (omega arith)
pick_last (suc i) (r ∷ rs) past h =
    let (x, rest, e, same) = pick_last i rs past (omega arith) in
    (x, r ∷ rest, rw e, ap (λ l. r ∷ l) same)

locked-Accurate : (m : Machine) (op : Op) → Accurate m → Accurate (locked m op).0
unfolding locked
locked-Accurate m op h = record {
  at = λ j. rw (first_of_create m.cb op.host op.now) (
      store-Accurate m.cb m.in_flight op.host j op.now
        (switch op.kind m.cb.config (current m.cb op.host op.now) op.now)
        (switch-ReportsChange op.kind m.cb.config (current m.cb op.host op.now) op.now) (h.at j));
}

deliver-Accurate :
    (m : Machine) (i : ℕ)
    → suc i ≡ length m.in_flight
    → Accurate m
    → Accurate (deliver m (pick i m.in_flight))
unfolding deliver
deliver-Accurate m i last h =
    let (x, rest, e, same) = pick_last i m.in_flight m.cb.reported last in
    rw e (record { at = λ j. rw same (h.at j) })

play-Accurate :
    (m : Machine) (actions : List Action)
    → InOrder m actions
    → Accurate m
    → Accurate (play m actions)
unfolding play act
play-Accurate m [] o h = h
play-Accurate m (peek host now ∷ rest) o h =
    elim (Bool-cases (on_fast_path (lookup host m.cb.breakers))) [
      | inl fast ↦ rw fast (play-Accurate m rest (rw fast at o) h)
      | inr slow ↦ rw slow (play-Accurate m rest (rw slow at o) h)
    ]
play-Accurate m (enter op ∷ rest) o h =
    play-Accurate (locked m op).0 rest o (locked-Accurate m op h)
play-Accurate m (tell i ∷ rest) o h =
    play-Accurate (deliver m (pick i m.in_flight)) rest o.1 (deliver-Accurate m i o.0 h)

start-Accurate :
    (c : Option Config) → Accurate (record { cb = new_circuit_breaker c; in_flight = [] })
unfolding new_circuit_breaker lookup
start-Accurate none = record { at = λ host. refl }
start-Accurate (some c) = record { at = λ host. refl }

-- If goroutines call the metrics collector in the order in which they left the lock, then, whatever
-- else interleaves, once no call is to come the collector was last given, for each host, the state of
-- its breaker, and none exactly where the host has no breaker.
pub InOrder-told :
    (c : Option Config) (actions : List Action) (host : Text)
    → let m : Machine = record { cb = new_circuit_breaker c; in_flight = [] } in
      InOrder m actions
      → (play m actions).in_flight ≡ []
      → last_report host (play m actions).cb.reported
        ≡ state_of (lookup host (play m actions).cb.breakers)
InOrder-told c actions host o done =
    let m : Machine = record { cb = new_circuit_breaker c; in_flight = [] } in
    let told_all = (play-Accurate m actions o (start-Accurate c)).at host in
    subst
      (λ fl.
        last_report host (fl ++ (play m actions).cb.reported)
        ≡ state_of (lookup host (play m actions).cb.breakers))
      done told_all

-- A section under the write lock, on a host that has a breaker.
locked_known :
    (m : Machine) (op : Op) (hb : HostBreaker)
    → lookup op.host m.cb.breakers ≡ some hb
    → let o = switch op.kind m.cb.config hb op.now in
      (locked m op).0
      ≡ record { cb = store m.cb op.host o.hb; in_flight = launch op.host o.changed m.in_flight }
unfolding locked get_or_create
locked_known m op hb has = ground arith

get_state_known :
    (cb : CircuitBreaker) (host : Text) (hb : HostBreaker)
    → lookup host cb.breakers ≡ some hb
    → get_state cb host ≡ hb.state
unfolding get_state
get_state_known cb host hb has = rw (has, get_state)

-- In another order the collector may be left with a state that the breaker has not: a failure opens a
-- closed breaker, and after the timeout a request makes it half-open; where the second goroutine calls
-- the collector before the first, no call is to come, the breaker is half-open, and the collector was
-- last told that it is open.
pub stale_told :
    (cb : CircuitBreaker) (host : Text) (hb : HostBreaker) (t t' : ℕ)
    → lookup host cb.breakers ≡ some hb
    → hb.state ≡ closed
    → leb_ℤ cb.config.max_failures (pos (hb.failures + 1)) ≡ true
    → leb_ℤ cb.config.open_timeout (sub_ℕ t' t) ≡ true
    → let m =
        play
          (record { cb = cb; in_flight = [] })
          (enter (record { kind = fail; host = host; now = t })
            ∷ enter (record { kind = try; host = host; now = t' })
            ∷ tell 0
            ∷ tell 0
            ∷ []) in
      (m.in_flight ≡ [])
      × (get_state m.cb host ≡ half_open)
      × (last_report host m.cb.reported ≡ some open_state)
unfolding play act deliver pick failure_switch allow_switch
stale_told cb host hb t t' has shut full waited =
    let m : Machine = record { cb = cb; in_flight = [] } in
    let failed : Op = record { kind = fail; host = host; now = t } in
    let tried : Op = record { kind = try; host = host; now = t' } in
    let hb₁ : HostBreaker = record hb {
      failures = hb.failures + 1;
      state = open_state;
      last_state_change = t;
    } in
    let hb₂ : HostBreaker = record hb₁ {
      state = half_open;
      last_state_change = t';
      half_open_allowed = 1;
    } in
    let m₁ : Machine = record {
      cb = store cb host hb₁;
      in_flight = record { host = host; state = open_state } ∷ [];
    } in
    let m₂ : Machine = record {
      cb = store m₁.cb host hb₂;
      in_flight = record { host = host; state = half_open } ∷ m₁.in_flight;
    } in
    let opens : (locked m failed).0 ≡ m₁ = locked_known m failed hb has ∙ rw (shut, full) in
    let has₁ : lookup host m₁.cb.breakers ≡ some hb₁ =
      lookup-insert host host hb₁ cb.breakers ∙ rw (text_eq_refl host) in
    let probes : (locked m₁ tried).0 ≡ m₂ = locked_known m₁ tried hb₁ has₁ ∙ rw waited in
    let has₂ : lookup host m₂.cb.breakers ≡ some hb₂ =
      lookup-insert host host hb₂ m₁.cb.breakers ∙ rw (text_eq_refl host) in
    rw (opens, probes) (refl, get_state_known _ host hb₂ has₂, rw (text_eq_refl host))
