-- ===== src/VerdictCache/Verdicts.antt =====
-- client.go, targetVerdictCache: where a verdict comes from and how long it is served.
use mathlib.Core.List.{Memᴰ}
use httpc.Prelude.{
  ℕ, ◌+◌, ◌-◌, ◌<◌, ◌≡◌, ◌∙◌, ◌⊎◌, inl, inr, refl, true, false, not, Option, none, some, List, [],
  ◌∷◌, All, arith, ltb, leb, if◌then◌else◌, Bool-cases, Option-cases,
}
use httpc.Prelude.Text.{Text, text_eq, text_eq_iff, text_eq_refl}
use httpc.Prelude.Dict.{Dict, lookup, insert, lookup-insert}
use httpc.Errors.{Err}
use httpc.VerdictCache.{
  Verdict, TargetVerdictCache, Call, empty, drop_expired, evict_if_full, admit, verdict_ttl,
  is_transient, fresh_verdict, check, max_proxied_target_entries,
}

-- The cache after the calls, the latest of which stands first.
unfoldable pub after : List Call → TargetVerdictCache
after [] = empty
after (c ∷ calls) = (check (after calls) c.host c.now c.outcome).cache

-- The entry was written by one of the calls, whose verdict is not transient.
pub record Justifies (calls : List Call) (host : Text) (v : Verdict) : Type 0 where
  pub call : Call
  pub made : Memᴰ call calls
  pub same_host : call.host ≡ host
  pub same_verdict : call.outcome ≡ v.err
  pub deterministic : is_transient v.err ≡ false
  pub lifetime : v.expires ≡ call.now + verdict_ttl v.err

abbrev pub AllJustified : List Call → Dict Verdict → Type 0
AllJustified calls m = All (λ (entry : Text × Verdict). Justifies calls entry.0 entry.1) m

Justifies-later :
    (c : Call) (calls : List Call) (host : Text) (v : Verdict)
    → Justifies calls host v
    → Justifies (c ∷ calls) host v
Justifies-later c calls host v j = record {
  call = j.call;
  made = Memᴰ.tail j.made;
  same_host = j.same_host;
  same_verdict = j.same_verdict;
  deterministic = j.deterministic;
  lifetime = j.lifetime;
}

pub AllJustified-later :
    (c : Call) (calls : List Call) (m : Dict Verdict)
    → AllJustified calls m
    → AllJustified (c ∷ calls) m
AllJustified-later c calls [] h = tt
AllJustified-later c calls ((k, v) ∷ m) h =
    (Justifies-later c calls k v h.0, AllJustified-later c calls m h.1)

drop_expired-AllJustified :
    (calls : List Call) (now : ℕ) (m : Dict Verdict) (size : ℕ)
    → AllJustified calls m
    → AllJustified calls (drop_expired now m size).entries
unfolding drop_expired
drop_expired-AllJustified calls now [] size h = tt
drop_expired-AllJustified calls now ((k, v) ∷ m) size h = elim (Bool-cases (ltb now v.expires)) [
  | inl kept ↦ rw kept (h.0, drop_expired-AllJustified calls now m size h.1)
  | inr dropped ↦ rw dropped (drop_expired-AllJustified calls now m (size - 1) h.1)
]

evict_if_full-AllJustified :
    (calls : List Call) (c : TargetVerdictCache) (now : ℕ)
    → AllJustified calls c.entries
    → AllJustified calls (evict_if_full c now).entries
unfolding evict_if_full
evict_if_full-AllJustified calls c now h =
    elim (Bool-cases (ltb c.size max_proxied_target_entries)) [
      | inl room ↦ rw room h
      | inr full ↦
          elim (Bool-cases
            (leb max_proxied_target_entries (drop_expired now c.entries c.size).size)) [
              | inl still ↦ rw (full, still) tt
              | inr freed ↦
                  rw (full, freed) (drop_expired-AllJustified calls now c.entries c.size h)
            ]
    ]

insert-AllJustified :
    (calls : List Call) (host : Text) (v : Verdict) (m : Dict Verdict)
    → Justifies calls host v
    → AllJustified calls m
    → AllJustified calls (insert host v m)
unfolding insert
insert-AllJustified calls host v [] j h = (j, tt)
insert-AllJustified calls host v ((k, w) ∷ m) j h = elim (Bool-cases (text_eq k host)) [
  | inl same ↦ rw same (rw ((text_eq_iff k host).0 same) j, h.1)
  | inr other ↦ rw other (h.0, insert-AllJustified calls host v m j h.1)
]

pub lookup-Justifies :
    (calls : List Call) (host : Text) (m : Dict Verdict) (v : Verdict)
    → AllJustified calls m
    → lookup host m ≡ some v
    → Justifies calls host v
unfolding lookup
lookup-Justifies calls host [] v h e = absurd (ground arith)
lookup-Justifies calls host ((k, w) ∷ m) v h e = elim (Bool-cases (text_eq k host)) [
  | inl same ↦ let w_is_v : w ≡ v = ground arith in rw (← (text_eq_iff k host).0 same, ← w_is_v) h.0
  | inr other ↦ lookup-Justifies calls host m v h.1 (ground arith)
]

pub admit-AllJustified :
    (c : Call) (calls : List Call) (cache : TargetVerdictCache)
    → Memᴰ c calls
    → is_transient c.outcome ≡ false
    → AllJustified calls cache.entries
    → AllJustified calls (admit cache c.host c.now c.outcome).entries
unfolding admit
admit-AllJustified c calls cache made d h =
    insert-AllJustified calls c.host _ _
      (record {
        call = c;
        made = made;
        same_host = refl;
        same_verdict = refl;
        deterministic = d;
        lifetime = refl;
      })
      (evict_if_full-AllJustified calls cache c.now h)

after-AllJustified : (calls : List Call) → AllJustified calls (after calls).entries
unfolding after check
after-AllJustified [] = tt
after-AllJustified (c ∷ calls) =
    go (Option-cases (fresh_verdict c.now (lookup c.host (after calls).entries)))
      (Bool-cases (is_transient c.outcome))
      (AllJustified-later c calls _ (after-AllJustified calls))
  where
    go :
        (fresh_verdict c.now (lookup c.host (after calls).entries) ≡ none)
          ⊎ ((v : Verdict) × (fresh_verdict c.now (lookup c.host (after calls).entries) ≡ some v))
        → (is_transient c.outcome ≡ true) ⊎ (is_transient c.outcome ≡ false)
        → AllJustified (c ∷ calls) (after calls).entries
        → AllJustified (c ∷ calls) (check (after calls) c.host c.now c.outcome).cache.entries
    go (inr (v, e)) t h = rw (e, check) h
    go (inl e) (inl t) h = rw (e, check, t) h
    go (inl e) (inr d) h =
        rw (e, check, d) (admit-AllJustified c (c ∷ calls) (after calls) (Memᴰ.head refl) d h)

pub fresh_entry :
    (now : ℕ) (o : Option Verdict) (v : Verdict)
    → fresh_verdict now o ≡ some v
    → (o ≡ some v) × (now < v.expires)
fresh_entry now none v h = cc
fresh_entry now (some w) v h = ground arith

-- A verdict that is served without a validation was returned by the validation of an earlier call
-- for the same host; it is a success or a policy denial, never a transient error; and it is served
-- within its lifetime: less than 1 second after that call for a success, 30 seconds for a denial.
served_verdict :
    (calls : List Call) (host : Text) (now : ℕ) (outcome : Option Err)
    → (check (after calls) host now outcome).validated ≡ false
    → (c : Call) × Memᴰ c calls
      × (c.host ≡ host)
      × (c.outcome ≡ (check (after calls) host now outcome).err)
      × (is_transient c.outcome ≡ false)
      × (now < c.now + verdict_ttl c.outcome)
unfolding check
served_verdict calls host now outcome served =
    go (Option-cases (fresh_verdict now (lookup host (after calls).entries)))
  where
    go :
        (fresh_verdict now (lookup host (after calls).entries) ≡ none)
          ⊎ ((v : Verdict) × (fresh_verdict now (lookup host (after calls).entries) ≡ some v))
        → (c : Call) × Memᴰ c calls
          × (c.host ≡ host)
          × (c.outcome ≡ (check (after calls) host now outcome).err)
          × (is_transient c.outcome ≡ false)
          × (now < c.now + verdict_ttl c.outcome)
    go (inl e) = absurd (ground arith)
    go (inr (v, e)) =
        let (found, alive) = fresh_entry now (lookup host (after calls).entries) v e in
        let j =
          lookup-Justifies calls host (after calls).entries v (after-AllJustified calls) found in
        (
          j.call,
          j.made,
          j.same_host,
          rw (e, check) j.same_verdict,
          rw j.same_verdict j.deterministic,
          ground (arith, j.same_verdict, j.lifetime),
        )

lookup-admit :
    (c : TargetVerdictCache) (host : Text) (now : ℕ) (err : Option Err)
    → lookup host (admit c host now err).entries
      ≡ some (record { err = err; expires = now + verdict_ttl err })
unfolding admit
lookup-admit c host now err =
    lookup-insert host host (record { err = err; expires = now + verdict_ttl err })
      (evict_if_full c now).entries
    ∙ rw (text_eq_refl host)

-- After a call that validated a host with a success or a policy denial, the next call for that host
-- returns the same verdict with no validation if it comes within the verdict's lifetime, and
-- validates again if it comes later.
check_again :
    (c : TargetVerdictCache) (host : Text) (t t' : ℕ) (outcome later : Option Err)
    → (check c host t outcome).validated ≡ true
    → is_transient outcome ≡ false
    → let again = check (check c host t outcome).cache host t' later in
      (again.validated ≡ not (ltb t' (t + verdict_ttl outcome)))
      × (again.err ≡ (if ltb t' (t + verdict_ttl outcome) then outcome else later))
check_again c host t t' outcome later validated deterministic =
    let stored : (check c host t outcome).cache ≡ admit c host t outcome =
      unfold check in ground arith in
    rw stored (unfold check in ground (arith, lookup-admit c host t outcome))

-- A transient error is returned and changes nothing.
pub transient_not_cached :
    (c : TargetVerdictCache) (host : Text) (now : ℕ) (outcome : Option Err)
    → is_transient outcome ≡ true
    → (check c host now outcome).cache ≡ c
unfolding check
transient_not_cached c host now outcome h = ground arith
