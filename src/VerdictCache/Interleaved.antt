-- ===== src/VerdictCache/Interleaved.antt =====
-- client.go, targetVerdictCache.check, as goroutines interleave it: the Load, the return of `validate`, and the
-- section under the `admit` lock are moves of their own. An eviction deletes entry by entry while others
-- load: a Load meanwhile finds what was there before, or misses it.
pub mod Served
use httpc.Prelude.{ℕ, zero, suc, Bool, Option, none, some, List, [], ◌∷◌, if◌then◌else◌}
use httpc.Prelude.Text.{Text}
use httpc.Prelude.Dict.{lookup}
use httpc.Errors.{Err}
use httpc.VerdictCache.{
  TargetVerdictCache, Verdict, Call, empty, admit, fresh_verdict, is_transient,
}

-- A call whose `validate` runs.
pub record Asked : Type 0 where
  pub host : Text
  pub now : ℕ

-- The cache, the calls whose `validate` runs, those that wait for the lock, and all calls so far whose
-- `validate` has returned.
pub record Sharing : Type 0 where
  pub cache : TargetVerdictCache
  pub validating : List Asked
  pub admitting : List Call
  pub validated : List Call

abbrev pub unused : Sharing
unused = record { cache = empty; validating = []; admitting = []; validated = [] }

pub data Move : Type 0 where
  look : Text → ℕ → Bool → Move  -- a call begins: its Load, which sees the entry or misses it
  finish : ℕ → Option Err → Move  -- the `validate` of the call at this place returns
  enroll : ℕ → Move  -- the section under the lock of the call at this place

-- The element at a place, and the others.
unfoldable pub take_out {ℓ} : {A : Type ℓ} → ℕ → List A → Option (A × List A)
take_out i [] = none
take_out zero (x ∷ xs) = some (x, xs)
take_out (suc i) (x ∷ xs) = elim (take_out i xs) [ none ↦ none | some (y, ys) ↦ some (y, x ∷ ys) ]

-- The cache after a move, and what the call returns, if it returns.
abbrev pub Moved : Type 0
Moved = Sharing × Option (Option Err)

unfoldable pub load : Sharing → Text → ℕ → Option Verdict → Moved
load s host now (some v) = (s, some v.err)
load s host now none =
    (record s { validating = record { host = host; now = now } ∷ s.validating }, none)

unfoldable pub returned : Sharing → Option Err → Option (Asked × List Asked) → Moved
returned s outcome none = (s, none)
returned s outcome (some (a, rest)) =
    let c : Call = record { host = a.host; now = a.now; outcome = outcome } in
    let s' = record s { validating = rest; validated = c ∷ s.validated } in
    if is_transient outcome
    then (s', some outcome)
    else (record s' { admitting = c ∷ s.admitting }, none)

unfoldable pub enrolled : Sharing → Option (Call × List Call) → Moved
enrolled s none = (s, none)
enrolled s (some (c, rest)) =
    (record s { cache = admit s.cache c.host c.now c.outcome; admitting = rest }, some c.outcome)

unfoldable pub move : Sharing → Move → Moved
move s (look host now seen) =
    load s host now (if seen then fresh_verdict now (lookup host s.cache.entries) else none)
move s (finish i outcome) = returned s outcome (take_out i s.validating)
move s (enroll i) = enrolled s (take_out i s.admitting)

unfoldable pub moves : Sharing → List Move → Sharing
moves s [] = s
moves s (m ∷ rest) = moves (move s m).0 rest
