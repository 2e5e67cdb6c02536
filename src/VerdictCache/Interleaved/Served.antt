-- ===== src/VerdictCache/Interleaved/Served.antt =====
-- client.go, targetVerdictCache: what the cache promises whatever the order of the moves of goroutines.
use mathlib.Core.List.{Memᴰ}
use httpc.Prelude.{
  ℕ, zero, suc, ◌≡◌, inl, inr, refl, true, false, Option, none, some, List, [], ◌∷◌, All, arith,
  Bool-cases,
}
use httpc.Prelude.Text.{Text}
use httpc.Errors.{Err}
use httpc.VerdictCache.{TargetVerdictCache, Verdict, Call, is_transient, check}
use httpc.VerdictCache.Bounds.{IsBounded, admit-IsBounded}
use httpc.VerdictCache.Verdicts.{AllJustified, AllJustified-later, admit-AllJustified}
use httpc.VerdictCache.Interleaved.{
  Asked, Sharing, unused, Move, look, finish, enroll, take_out, load, returned, enrolled, move,
  moves,
}

-- What a call that waits for the lock is: one whose `validate` returned a success or a denial.
abbrev IsDecided : List Call → Call → Type 0
IsDecided validated c = Memᴰ c validated × (is_transient c.outcome ≡ false)

record IsSound (s : Sharing) : Type 0 where
  bounded : IsBounded s.cache
  justified : AllJustified s.validated s.cache.entries
  decided : All (IsDecided s.validated) s.admitting

module _ {ℓ κ} {A : Type ℓ} (P : A → Type κ) where
  abbrev AllTaken : Option (A × List A) → Type κ
  AllTaken none = Unit
  AllTaken (some (x, rest)) = P x × All P rest

  take_out-AllTaken : (i : ℕ) (xs : List A) → All P xs → AllTaken (take_out i xs)
  unfolding take_out
  take_out-AllTaken i [] h = tt
  take_out-AllTaken zero (x ∷ xs) h = h
  take_out-AllTaken (suc i) (x ∷ xs) h = behind (take_out i xs) (take_out-AllTaken i xs h.1)
    where
      behind :
          (o : Option (A × List A))
          → AllTaken o
          → AllTaken (elim o [ none ↦ none | some (y, ys) ↦ some (y, x ∷ ys) ])
      behind none t = tt
      behind (some (y, ys)) t = (t.0, (h.0, t.1))

later :
    (c : Call) (validated pending : List Call)
    → All (IsDecided validated) pending
    → All (IsDecided (c ∷ validated)) pending
later c validated [] h = tt
later c validated (p ∷ ps) h = ((Memᴰ.tail h.0.0, h.0.1), later c validated ps h.1)

load-IsSound :
    (s : Sharing) (host : Text) (now : ℕ) (found : Option Verdict)
    → IsSound s
    → IsSound (load s host now found).0
unfolding load
load-IsSound s host now none h = record {
  bounded = h.bounded;
  justified = h.justified;
  decided = h.decided;
}
load-IsSound s host now (some v) h = h

returned-IsSound :
    (s : Sharing) (outcome : Option Err) (taken : Option (Asked × List Asked))
    → IsSound s
    → IsSound (returned s outcome taken).0
unfolding returned
returned-IsSound s outcome none h = h
returned-IsSound s outcome (some (a, rest)) h =
    let c : Call = record { host = a.host; now = a.now; outcome = outcome } in
    let justified = AllJustified-later c s.validated s.cache.entries h.justified in
    let decided = later c s.validated s.admitting h.decided in
    elim (Bool-cases (is_transient outcome)) [
      | inl t ↦ rw t (record { bounded = h.bounded; justified = justified; decided = decided })
      | inr d ↦ rw d (record {
        bounded = h.bounded;
        justified = justified;
        decided = ((Memᴰ.head refl, d), decided);
      })
    ]

enrolled-IsSound :
    (s : Sharing) (taken : Option (Call × List Call))
    → IsSound s
    → AllTaken (IsDecided s.validated) taken
    → IsSound (enrolled s taken).0
unfolding enrolled
enrolled-IsSound s none h t = h
enrolled-IsSound s (some (c, rest)) h t = record {
  bounded = admit-IsBounded s.cache c.host c.now c.outcome h.bounded;
  justified = admit-AllJustified c s.validated s.cache t.0.0 t.0.1 h.justified;
  decided = t.1;
}

move-IsSound : (s : Sharing) (m : Move) → IsSound s → IsSound (move s m).0
unfolding move
move-IsSound s (look host now seen) h = load-IsSound s host now _ h
move-IsSound s (finish i outcome) h = returned-IsSound s outcome _ h
move-IsSound s (enroll i) h =
    enrolled-IsSound s _ h (take_out-AllTaken (IsDecided s.validated) i s.admitting h.decided)

moves-IsSound : (s : Sharing) (ms : List Move) → IsSound s → IsSound (moves s ms)
unfolding moves
moves-IsSound s [] h = h
moves-IsSound s (m ∷ rest) h = moves-IsSound (move s m).0 rest (move-IsSound s m h)

unused-IsSound : IsSound unused
unused-IsSound = record {
  bounded = record { counted = refl; capped = omega arith };
  justified = tt;
  decided = tt;
}

-- However calls of `check` interleave, for whatever hosts, times and verdicts, the cache has at most 1024
-- entries, and its size counter is their number.
pub moves-IsBounded : (ms : List Move) → IsBounded (moves unused ms).cache
moves-IsBounded ms = (moves-IsSound unused ms unused-IsSound).bounded

-- A call that no other interleaves with is the whole `check`.
moves-check :
    (c : TargetVerdictCache) (host : Text) (now : ℕ) (outcome : Option Err)
    → let alone : Sharing = record { cache = c; validating = []; admitting = []; validated = [] } in
      (moves alone (look host now true ∷ finish 0 outcome ∷ enroll 0 ∷ [])).cache
      ≡ (check c host now outcome).cache
unfolding moves move load returned enrolled take_out check
moves-check c host now outcome = ground arith
