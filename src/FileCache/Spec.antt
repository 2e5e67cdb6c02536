-- ===== src/FileCache/Spec.antt =====
-- What a cache promises: a map from keys to contents that forgets an entry when its time to live is over.
use httpc.Prelude.{ℕ, Bool, ◌&&◌, Option, none, some, List, [], ◌∷◌, length, if◌then◌else◌}
use httpc.Prelude.Text.{Text}
use httpc.Prelude.Int.{ℤ, pos, ltb_ℤ}
use httpc.Prelude.Dict.{Dict, lookup, insert, delete}
use httpc.FileCache.{DelCalls, is_expired}
use httpc.FileCache.Setting.{SetCalls}
use httpc.FileCache.Getting.{GetCalls}

-- Calls that do not fail.
abbrev pub calm_set : Text → SetCalls
calm_set tmp = record {
  cancelled = none;
  stat_failure = none;
  timed_out = none;
  create_failure = none;
  tmp_name = tmp;
  write_failure = none;
  written = 0;
  close_failure = none;
  chmod_failure = none;
  timed_out_late = none;
  rename_failure = none;
  remove_failure = none;
}

abbrev pub calm_get : GetCalls
calm_get = record {
  cancelled = none;
  timed_out = none;
  read_failure = none;
  timed_out_late = none;
  stat_failure = none;
  remove_failure = none;
}

abbrev pub calm_del : DelCalls
calm_del = record { cancelled = none; stat_failure = none; remove_failure = none }

-- The abstract map: contents, and when they were stored.
abbrev pub Spec : Type 0
Spec = Dict (List ℕ × ℕ)

-- A time to live that is not positive is endless.
abbrev pub over : ℤ → ℕ → ℕ → Bool
over ttl now t = ltb_ℤ (pos 0) ttl && is_expired ttl now t

-- A limit that is not positive is none.
abbrev pub too_large : ℤ → List ℕ → Bool
too_large limit content = ltb_ℤ (pos 0) limit && ltb_ℤ limit (pos (length content))

-- What a caller does, with the name that CreateTemp picks, and the time.
pub data Cmd : Type 0 where
  put : Text → Text → List ℕ → ℕ → Cmd
  fetch : Text → ℕ → Cmd
  drop_key : Text → Cmd

-- and what it gets
pub data Answer : Type 0 where
  done : Answer
  refused : Answer
  found : Option (List ℕ) → Answer

unfoldable pub spec_cmd : ℤ → ℤ → Cmd → Spec → Spec × Answer
spec_cmd ttl limit (put tmp key content now) m =
    if too_large limit content then (m, refused) else (insert key (content, now) m, done)
spec_cmd ttl limit (fetch key now) m = elim (lookup key m) [
  | none ↦ (m, found none)
  | some (content, t) ↦
      if over ttl now t then (delete key m, found none) else (m, found (some content))
]
spec_cmd ttl limit (drop_key key) m = (delete key m, done)

abbrev pub spec_run : ℤ → ℤ → List Cmd → Spec → List Answer
spec_run ttl limit [] m = []
spec_run ttl limit (cmd ∷ cmds) m =
    let (m', answer) = spec_cmd ttl limit cmd m in answer ∷ spec_run ttl limit cmds m'
