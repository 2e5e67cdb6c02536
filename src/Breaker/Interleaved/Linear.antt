-- ===== src/Breaker/Interleaved/Linear.antt =====
-- circuitbreaker.go: however the sections of goroutines interleave, the breaker is as if its operations had
-- been made one after the other.
use httpc.Prelude.{
  ℕ, zero, suc, ◌≡◌, ◌∙◌, sym, ap, refl, true, Option, none, some, List, [], ◌∷◌, ◌++◌, arith,
  if◌then◌else◌, Bool-cases, Option-cases, inl, inr,
}
use mathlib.Core.Path.{subst}
use mathlib.Core.List.{Perm, perm_middle}
use mathlib.Core.List.Perm as Perm
use httpc.Prelude.Text.{Text}
use httpc.Prelude.Dict.{Dict, lookup}
use httpc.Errors.{Err}
use httpc.Breaker.{
  CircuitBreaker, HostBreaker, Outcome, Report, State, closed, get_or_create, on_fast_path, store,
  commit, allow, allow_slow, record_success, record_failure,
}
use httpc.Breaker.Steps.{
  Kind, try, succeed, fail, Op, switch, step, run, current, allow-eq-allow_slow, first_of_create,
  err-step,
}
use httpc.Breaker.Interleaved.{
  Machine, Action, peek, enter, tell, launch, pick, locked, deliver, act, play, results,
}

-- The operations in the order of the sections that decide them: a call of `allow` that takes the fast
-- path at its look under the read lock, any other operation at its section under the write lock.
abbrev decided : Machine → Action → List Op
decided m (peek host now) =
    if on_fast_path (lookup host m.cb.breakers)
    then record { kind = try; host = host; now = now } ∷ []
    else []
decided m (enter op) = op ∷ []
decided m (tell i) = []

abbrev pub serial : Machine → List Action → List Op
serial m [] = []
serial m (a ∷ rest) = decided m a ++ serial (act m a).0 rest

-- The errors that the operations return, one after the other.
abbrev pub errors : CircuitBreaker → List Op → List (Option Err)
errors cb [] = []
errors cb (op ∷ ops) = (step cb op).1 ∷ errors (step cb op).0 ops

-- What the collector is told, or will be.
abbrev pub reports : Machine → List Report
reports m = m.in_flight ++ m.cb.reported

-- An operation, sequential, is the switch of its kind.
step-commit :
    (k : Kind) (cb : CircuitBreaker) (host : Text) (now : ℕ)
    → let c = get_or_create cb host now in
      (step cb (record { kind = k; host = host; now = now })).0
      ≡ (commit c.1 host (switch k cb.config c.0 now)).0
unfolding step allow_slow record_success record_failure
step-commit try cb host now = rw allow-eq-allow_slow
step-commit succeed cb host now = refl
step-commit fail cb host now = refl

-- The report of a new host, from inside the lock.
abbrev created : Dict HostBreaker → Text → List Report
created b host = elim (lookup host b) [
  | some hb ↦ []
  | none ↦ record { host = host; state = closed } ∷ []
]

commit-reported :
    (cb : CircuitBreaker) (host : Text) (now : ℕ) (o : Outcome)
    → (commit (get_or_create cb host now).1 host o).0.reported
      ≡ launch host o.changed (created cb.breakers host ++ cb.reported)
unfolding get_or_create
commit-reported cb host now o = ground arith

create-reported :
    (cb : CircuitBreaker) (host : Text) (now : ℕ)
    → (get_or_create cb host now).1.reported ≡ created cb.breakers host ++ cb.reported
unfolding get_or_create
create-reported cb host now = ground arith

created-Perm :
    (b : Dict HostBreaker) (host : Text) (fl past rs : List Report)
    → Perm (fl ++ past) rs
    → Perm (fl ++ (created b host ++ past)) (created b host ++ rs)
created-Perm b host fl past rs h =
    elim (lookup host b)
      as (λ l.
        let new : List Report = elim l [
          | some hb ↦ []
          | none ↦ record { host = host; state = closed } ∷ []
        ] in
        Perm (fl ++ (new ++ past)) (new ++ rs)) [
          | some hb ↦ h
          | none ↦ Perm.trans (perm_middle fl past) (Perm.cons _ h)
        ]

launch-Perm :
    (host : Text) (o : Option State) (fl past rs : List Report)
    → Perm (fl ++ past) rs
    → Perm (launch host o fl ++ past) (launch host o rs)
launch-Perm host none fl past rs h = h
launch-Perm host (some s) fl past rs h = Perm.cons _ h

abbrev with_reported : CircuitBreaker → List Report → CircuitBreaker
with_reported cb rs = record cb { reported = rs }

-- A sequential breaker that agrees with a machine, but for when the collector is told.
record Agrees (s : CircuitBreaker) (m : Machine) : Type 0 where
  same : s ≡ with_reported m.cb s.reported
  accounted : Perm (reports m) s.reported

module _ (cb : CircuitBreaker) (rs : List Report) (host : Text) (now : ℕ) where
  created_same : (get_or_create (with_reported cb rs) host now).0 ≡ (get_or_create cb host now).0
  unfolding get_or_create
  created_same = ground arith

  commit_same :
      (o : Outcome)
      → let s = (commit (get_or_create (with_reported cb rs) host now).1 host o).0 in
        s ≡ with_reported (store (get_or_create cb host now).1 host o.hb) s.reported
  unfolding get_or_create
  commit_same o = ground arith

locked_same :
    (m : Machine) (op : Op) (rs : List Report)
    → Perm (reports m) rs
    → ((step (with_reported m.cb rs) op).1 ≡ (locked m op).1)
      × Agrees (step (with_reported m.cb rs) op).0 (locked m op).0
unfolding locked
locked_same m op rs h =
    let s = with_reported m.cb rs in
    let hb = (get_or_create m.cb op.host op.now).0 in
    let o = switch op.kind m.cb.config hb op.now in
    let found : current s op.host op.now ≡ hb =
      sym (first_of_create s op.host op.now) ∙ created_same m.cb rs op.host op.now in
    (
      err-step s op ∙ ap (λ b. (switch op.kind m.cb.config b op.now).err) found,
      rw (step-commit op.kind s op.host op.now, created_same m.cb rs op.host op.now)
          (record {
            same = commit_same m.cb rs op.host op.now o;
            accounted =
                rw (commit-reported s op.host op.now o, create-reported m.cb op.host op.now)
                  (launch-Perm op.host o.changed m.in_flight _ _
                    (created-Perm m.cb.breakers op.host m.in_flight m.cb.reported rs h));
          }),
    )

pick-Perm :
    (i : ℕ) (rs : List Report) (x : Report) (rest : List Report)
    → pick i rs ≡ some (x, rest)
    → Perm rs (x ∷ rest)
unfolding pick
pick-Perm i [] x rest e = cc
pick-Perm zero (r ∷ rs) x rest e =
    let first : r ∷ rs ≡ x ∷ rest = ground arith in rw first (Perm.refl (x ∷ rest))
pick-Perm (suc i) (r ∷ rs) x rest e = elim (Option-cases (pick i rs)) [
  | inl n ↦ ground (arith, n)
  | inr ((y, ys), p) ↦
      let later : x ∷ rest ≡ y ∷ r ∷ ys = ground arith in
      rw later (Perm.trans (Perm.cons r (pick-Perm i rs y ys p)) (Perm.swap y r ys))
]

deliver-Perm : (m : Machine) (i : ℕ) → Perm (reports (deliver m (pick i m.in_flight))) (reports m)
unfolding deliver
deliver-Perm m i = elim (Option-cases (pick i m.in_flight)) [
  | inl e ↦ rw e (Perm.refl (reports m))
  | inr ((x, rest), e) ↦ rw e (
      Perm.trans (perm_middle rest m.cb.reported)
        (Perm.append_right m.cb.reported (Perm.symm (pick-Perm i m.in_flight x rest e))))
]

told_same :
    (m : Machine) (p : Option (Report × List Report)) (rs : List Report)
    → with_reported (deliver m p).cb rs ≡ with_reported m.cb rs
unfolding deliver
told_same m none rs = refl
told_same m (some (r, rest)) rs = refl

step_fast :
    (cb : CircuitBreaker) (host : Text) (now : ℕ)
    → on_fast_path (lookup host cb.breakers) ≡ true
    → step cb (record { kind = try; host = host; now = now }) ≡ (cb, none)
unfolding step allow
step_fast cb host now fast = rw fast

-- One action: the operation that it decides, if any, gives the same errors and an agreeing breaker.
act_same :
    (m : Machine) (a : Action) (rs : List Report)
    → Perm (reports m) rs
    → let s = with_reported m.cb rs in
      (errors s (decided m a) ≡ (act m a).1) × Agrees (run s (decided m a)) (act m a).0
unfolding act run
act_same m (peek host now) rs h = elim (Bool-cases (on_fast_path (lookup host m.cb.breakers))) [
  | inl fast ↦
      let ran = step_fast (with_reported m.cb rs) host now fast in
      rw fast (
        ap (λ r. r.1 ∷ []) ran,
        subst (λ s. Agrees s m) (sym (ap (λ r. r.0) ran)) (record { same = refl; accounted = h }),
      )
  | inr slow ↦ rw slow (refl, record { same = refl; accounted = h })
]
act_same m (enter op) rs h = let (e, agrees) = locked_same m op rs h in (ap (λ x. x ∷ []) e, agrees)
act_same m (tell i) rs h = (
  refl,
  record {
    same = sym (told_same m (pick i m.in_flight) rs);
    accounted = Perm.trans (deliver-Perm m i) h;
  },
)

run-append : (s : CircuitBreaker) (xs ys : List Op) → run s (xs ++ ys) ≡ run (run s xs) ys
unfolding run
run-append s [] ys = refl
run-append s (x ∷ xs) ys = run-append (step s x).0 xs ys

errors-append :
    (s : CircuitBreaker) (xs ys : List Op)
    → errors s (xs ++ ys) ≡ errors s xs ++ errors (run s xs) ys
unfolding run
errors-append s [] ys = refl
errors-append s (x ∷ xs) ys = ap (λ es. (step s x).1 ∷ es) (errors-append (step s x).0 xs ys)

play_same :
    (m : Machine) (actions : List Action) (rs : List Report)
    → Perm (reports m) rs
    → let s = with_reported m.cb rs in
      (errors s (serial m actions) ≡ results m actions)
      × Agrees (run s (serial m actions)) (play m actions)
unfolding play results
play_same m [] rs h = (refl, unfold run in record { same = refl; accounted = h })
play_same m (a ∷ rest) rs h =
    let s = with_reported m.cb rs in
    let (e, agrees) = act_same m a rs h in
    let s' = run s (decided m a) in
    let later = play_same (act m a).0 rest s'.reported agrees.accounted in
    let tail = serial (act m a).0 rest in
    let (e', agrees') =
      subst
        (λ x.
          (errors x tail ≡ results (act m a).0 rest) × Agrees (run x tail) (play (act m a).0 rest))
        (sym agrees.same) later in
    rw (errors-append s (decided m a) tail, run-append s (decided m a) tail, e)
      (ap (λ es. (act m a).1 ++ es) e', agrees')

-- Whatever the order in which goroutines take the locks of a breaker, and whenever each of them tells the
-- metrics collector: the calls return the errors, and each host has the breaker, of the same
-- operations made one after the other, an `allow` on the fast path at its look under the read lock and
-- any other operation at its section under the write lock; and what the collector was told, with the calls that
-- are still to come, are the reports of that run, each once, in some order.
pub play-run :
    (cb : CircuitBreaker) (actions : List Action)
    → let m : Machine = record { cb = cb; in_flight = [] } in
      let s = run cb (serial m actions) in
      (results m actions ≡ errors cb (serial m actions))
      × ((play m actions).cb.breakers ≡ s.breakers)
      × Perm (reports (play m actions)) s.reported
play-run cb actions =
    let (e, agrees) =
      play_same (record { cb = cb; in_flight = [] }) actions cb.reported (Perm.refl cb.reported) in
    (sym e, ap (λ c. c.breakers) (sym agrees.same), agrees.accounted)
