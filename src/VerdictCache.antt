-- ===== src/VerdictCache.antt =====
-- client.go: targetVerdictCache, the verdicts on proxied targets. Times are in nanoseconds. The call
-- of `validate` in `check` is its result, `outcome`, with a mark of whether it was made. The part of
-- `check` under the `admit` lock is `admit`, the only one that writes. In VerdictCache/Interleaved the
-- parts of `check` are moves of their own.
pub mod Bounds
pub mod Verdicts
pub mod Interleaved
mod Tests
use httpc.Prelude.{
  ℕ, ◌+◌, ◌-◌, Bool, true, false, not, ◌&&◌, Option, none, some, List, [], ◌∷◌, is_none, is_some,
  ltb, leb, if◌then◌else◌,
}
use httpc.Prelude.Text.{Text}
use httpc.Prelude.Dict.{Dict, lookup, insert}
use httpc.Errors.{Err, is_err, blocked_by_policy}

abbrev pub proxied_target_deny_ttl : ℕ
proxied_target_deny_ttl = 30_000_000_000

abbrev pub proxied_target_allow_ttl : ℕ
proxied_target_allow_ttl = 1_000_000_000

abbrev pub max_proxied_target_entries : ℕ
max_proxied_target_entries = 1024

pub record Verdict : Type 0 where
  pub err : Option Err
  pub expires : ℕ

pub record TargetVerdictCache : Type 0 where
  pub entries : Dict Verdict
  pub size : ℕ

abbrev pub empty : TargetVerdictCache
empty = record { entries = []; size = 0 }

unfoldable pub verdict_ttl : Option Err → ℕ
verdict_ttl none = proxied_target_allow_ttl
verdict_ttl (some e) = proxied_target_deny_ttl

-- The body of the Range of evictIfFull: an expired entry is deleted, and the size goes down by 1.
unfoldable pub drop_expired : ℕ → Dict Verdict → ℕ → TargetVerdictCache
drop_expired now [] size = record { entries = []; size = size }
drop_expired now ((host, v) ∷ m) size =
    let kept = ltb now v.expires in
    let rest = drop_expired now m (if kept then size else size - 1) in
    if kept then record rest { entries = (host, v) ∷ rest.entries } else rest

unfoldable pub evict_if_full : TargetVerdictCache → ℕ → TargetVerdictCache
evict_if_full c now =
    if ltb c.size max_proxied_target_entries
    then c
    else (let c' = drop_expired now c.entries c.size in
        if leb max_proxied_target_entries c'.size then empty else c')

unfoldable pub admit : TargetVerdictCache → Text → ℕ → Option Err → TargetVerdictCache
admit c host now err =
    let c' = evict_if_full c now in
    record {
      entries = insert host (record { err = err; expires = now + verdict_ttl err }) c'.entries;
      size = if is_none (lookup host c'.entries) then c'.size + 1 else c'.size;
    }

-- `err != nil && !errors.Is(err, ErrBlockedByPolicy)`
abbrev pub is_transient : Option Err → Bool
is_transient none = false
is_transient (some e) = not (is_err blocked_by_policy e)

-- The cached verdict, if it has not expired.
abbrev pub fresh_verdict : ℕ → Option Verdict → Option Verdict
fresh_verdict now none = none
fresh_verdict now (some v) = if ltb now v.expires then some v else none

-- A call of `check`, with what its `validate` returns if it is called.
pub record Call : Type 0 where
  pub host : Text
  pub now : ℕ
  pub outcome : Option Err

pub record Checked : Type 0 where
  pub cache : TargetVerdictCache
  pub err : Option Err
  pub validated : Bool

unfoldable pub check : TargetVerdictCache → Text → ℕ → Option Err → Checked
check c host now outcome = elim (fresh_verdict now (lookup host c.entries)) [
  | some v ↦ record { cache = c; err = v.err; validated = false }
  | none ↦ record {
    cache = if is_transient outcome then c else admit c host now outcome;
    err = outcome;
    validated = true;
  }
]
