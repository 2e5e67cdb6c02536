-- ===== src/VerdictCache/Bounds.antt =====
-- client.go, targetVerdictCache: the cap on the number of entries.
use httpc.Prelude.{ℕ, ◌+◌, ◌-◌, ◌≤◌, ◌<◌, ◌≡◌, Option, List, [], ◌∷◌, length, arith}
use httpc.Prelude.Text.{Text}
use httpc.Prelude.Dict.{Dict, length-insert}
use httpc.Errors.{Err}
use httpc.VerdictCache.{
  Verdict, TargetVerdictCache, empty, drop_expired, evict_if_full, admit, verdict_ttl,
  max_proxied_target_entries,
}

-- The size is the number of entries, and that is at most the cap.
pub record IsBounded (c : TargetVerdictCache) : Type 0 where
  pub counted : c.size ≡ length c.entries
  pub capped : c.size ≤ max_proxied_target_entries

drop_expired-counted :
    (now : ℕ) (m : Dict Verdict) (size : ℕ)
    → length m ≤ size
    → ((drop_expired now m size).size + length m ≡ size + length (drop_expired now m size).entries)
      × (length (drop_expired now m size).entries ≤ length m)
unfolding drop_expired
drop_expired-counted now [] size h = omega arith
drop_expired-counted now ((host, v) ∷ m) size h =
    ground (arith, drop_expired-counted now m size, drop_expired-counted now m (size - 1))

evict_if_full-room :
    (c : TargetVerdictCache) (now : ℕ)
    → IsBounded c
    → ((evict_if_full c now).size ≡ length (evict_if_full c now).entries)
      × ((evict_if_full c now).size < max_proxied_target_entries)
unfolding evict_if_full
evict_if_full-room c now h = ground (arith, drop_expired-counted now c.entries c.size)

pub admit-IsBounded :
    (c : TargetVerdictCache) (host : Text) (now : ℕ) (err : Option Err)
    → IsBounded c
    → IsBounded (admit c host now err)
unfolding admit
admit-IsBounded c host now err h = ground (
  arith,
  evict_if_full-room c now h,
  length-insert host (record { err = err; expires = now + verdict_ttl err })
      (evict_if_full c now).entries,
)

-- One call of `check` that came to its critical section.
pub record Admission : Type 0 where
  pub host : Text
  pub now : ℕ
  pub err : Option Err

unfoldable admit_all : TargetVerdictCache → List Admission → TargetVerdictCache
admit_all c [] = c
admit_all c (a ∷ rest) = admit_all (admit c a.host a.now a.err) rest

admit_all-IsBounded :
    (c : TargetVerdictCache) (admissions : List Admission)
    → IsBounded c
    → IsBounded (admit_all c admissions)
unfolding admit_all
admit_all-IsBounded c [] h = h
admit_all-IsBounded c (a ∷ rest) h =
    admit_all-IsBounded (admit c a.host a.now a.err) rest (admit-IsBounded c a.host a.now a.err h)

-- In whatever order concurrent calls come to the critical section, for whatever hosts, times and
-- verdicts, the cache has at most 1024 entries, and its size counter is their number.
admissions-IsBounded : (admissions : List Admission) → IsBounded (admit_all empty admissions)
admissions-IsBounded admissions = admit_all-IsBounded empty admissions (omega arith)
