-- ===== src/Breaker/Interleaved/Tests.antt =====
-- Goroutines that interleave on one breaker, at concrete inputs.
use httpc.Prelude.{◌≡◌, refl, some, List, [], ◌∷◌}
use mathlib.Core.List.{Perm}
use httpc.Prelude.Text.{Text, codes, text_eq}
use httpc.Prelude.Int.{pos}
use httpc.Prelude.Dict.{lookup, insert}
use httpc.Breaker.{
  Config, CircuitBreaker, half_open, open_state, fresh, new_circuit_breaker, get_or_create,
  get_state, allow_switch, failure_switch,
}
use httpc.Breaker.Steps.{try, fail, run}
use httpc.Breaker.Hosts.{last_report, state_of}
use httpc.Breaker.Interleaved.{Action, peek, enter, tell, locked, act, play, pick, deliver, results}
use httpc.Breaker.Interleaved.Linear.{serial, errors, reports, play-run}
use httpc.Breaker.Interleaved.Told.{InOrder-told, stale_told}

abbrev host : Text
host = codes "a.example"

abbrev one_failure : Config
one_failure = record { max_failures = pos 1; open_timeout = pos 10; half_open_max_requests = pos 1 }

abbrev shut : CircuitBreaker
shut = record { config = one_failure; breakers = (host, fresh 0) ∷ []; reported = [] }

-- Two requests; the first fails while the second waits for the lock.
abbrev crossing : List Action
crossing =
    peek host 5
    ∷ enter (record { kind = fail; host = host; now = 20 })
    ∷ peek host 25
    ∷ enter (record { kind = try; host = host; now = 30 })
    ∷ tell 1
    ∷ tell 0
    ∷ []

abbrev first_ever : List Action
first_ever =
    peek host 1
    ∷ enter (record { kind = try; host = host; now = 2 })
    ∷ enter (record { kind = fail; host = host; now = 3 })
    ∷ tell 0
    ∷ []

crossing_state :
    get_state (play (record { cb = shut; in_flight = [] }) crossing).cb host ≡ half_open
unfolding act locked get_or_create lookup insert text_eq pick deliver play allow_switch
    failure_switch get_state
crossing_state = refl

play-run_example :
    (results (record { cb = shut; in_flight = [] }) crossing
      ≡ errors shut (serial (record { cb = shut; in_flight = [] }) crossing))
    × ((play (record { cb = shut; in_flight = [] }) crossing).cb.breakers
        ≡ (run shut (serial (record { cb = shut; in_flight = [] }) crossing)).breakers)
    × Perm
        (reports (play (record { cb = shut; in_flight = [] }) crossing))
        (run shut (serial (record { cb = shut; in_flight = [] }) crossing)).reported
play-run_example = play-run shut crossing

InOrder-told_example :
    let m =
      play (record { cb = new_circuit_breaker (some one_failure); in_flight = [] }) first_ever in
    last_report host m.cb.reported ≡ state_of (lookup host m.cb.breakers)
unfolding new_circuit_breaker act locked get_or_create lookup insert text_eq pick deliver play
    allow_switch failure_switch
InOrder-told_example = InOrder-told (some one_failure) first_ever host (refl, tt) refl

stale_told_example :
    let m =
      play
        (record { cb = shut; in_flight = [] })
        (enter (record { kind = fail; host = host; now = 20 })
          ∷ enter (record { kind = try; host = host; now = 30 })
          ∷ tell 0
          ∷ tell 0
          ∷ []) in
    (m.in_flight ≡ [])
    × (get_state m.cb host ≡ half_open)
    × (last_report host m.cb.reported ≡ some open_state)
stale_told_example =
    stale_told shut host (fresh 0) 20 30 (unfold lookup text_eq in refl) refl refl refl
