-- ===== src/FileCache/View.antt =====
-- filecache.go: what a caller sees of the cache is the map of FileCache/Spec.
use httpc.Prelude.{
  ℕ, ◌≡◌, refl, false, Option, none, some, List, [], ◌∷◌, ◌++◌, append_cancel, arith, ap, All,
}
use httpc.Prelude.Text.{Text, text_eq, text_eq_iff, text_eq_refl}
use httpc.Prelude.Dict.{lookup, lookup-insert, lookup-delete}
use httpc.Errors.{Err}
use httpc.Disk.{Entry}
use httpc.FileCache.{FileCache, World, key_to_filename, del, fresh_file, adjust_cache_size}
use httpc.FileCache.Setting.{store, finish, publish, set}
use httpc.FileCache.Getting.{get, settle, check_age}
use httpc.FileCache.Spec.{
  calm_set, calm_get, calm_del, Spec, Cmd, put, fetch, drop_key, Answer, done, refused, found,
  spec_cmd, spec_run,
}
use httpc.FileCache.Atomic.{set_whole}

abbrev pub entry_of : Option (List ℕ × ℕ) → Option Entry
entry_of none = none
entry_of (some (content, t)) = some (fresh_file content t)

-- a nil error is a success
abbrev pub answer_of : Option Err → Answer
answer_of none = done
answer_of (some e) = refused

module _ (digest : Text → Text) where
  unfoldable pub file_cmd : Cmd → World → World × Answer
  file_cmd (put tmp key content now) w =
      let (w', failure) = set digest (calm_set tmp) w key content now in (w', answer_of failure)
  file_cmd (fetch key now) w = let r = get digest calm_get w key now in (r.world, found r.content)
  file_cmd (drop_key key) w =
      let (w', failure) = del digest calm_del w key in (w', answer_of failure)

  -- The files are those of the map.
  abbrev pub Refines : World → Spec → Type 0
  Refines w m =
      (key : Text) → lookup (key_to_filename digest w.cache key) w.disk ≡ entry_of (lookup key m)

  -- No temporary file is named like an entry.
  abbrev pub TmpApart : Cmd → Type 0
  TmpApart (put tmp key content now) = (text : Text) → text_eq tmp (digest text) ≡ false
  TmpApart (fetch key now) = Unit
  TmpApart (drop_key key) = Unit

  -- Fields that no operation changes
  file_cmd-config :
      (cmd : Cmd) (w : World)
      → ((file_cmd cmd w).0.cache.ttl ≡ w.cache.ttl)
        × (((file_cmd cmd w).0.cache.max_size ≡ w.cache.max_size)
            × ((file_cmd cmd w).0.cache.key_prefix ≡ w.cache.key_prefix))
  unfolding file_cmd set get del adjust_cache_size settle check_age
  file_cmd-config (put tmp key content now) w = ground arith
  file_cmd-config (fetch key now) w = ground arith
  file_cmd-config (drop_key key) w = ground arith

  abbrev pub file_run : List Cmd → World → List Answer
  file_run [] w = []
  file_run (cmd ∷ cmds) w = let (w', answer) = file_cmd cmd w in answer ∷ file_run cmds w'

  module _ (injective : (a b : Text) → digest a ≡ digest b → a ≡ b) where
    same_file :
        (c : FileCache) (a b : Text)
        → text_eq (key_to_filename digest c a) (key_to_filename digest c b) ≡ text_eq a b
    unfolding key_to_filename
    same_file c a b =
        let p = c.key_prefix in
        ground (
          arith,
          text_eq_iff (digest (p ++ a)) (digest (p ++ b)),
          text_eq_iff a b,
          injective (p ++ a) (p ++ b),
          append_cancel p a b,
          text_eq_refl (digest (p ++ a)),
        )

    -- The files after a command, under the name before it
    named :
        (cmd : Cmd) (w : World) (j : Text)
        → key_to_filename digest (file_cmd cmd w).0.cache j ≡ key_to_filename digest w.cache j
    unfolding key_to_filename
    named cmd w j = ap (λ p. digest (p ++ j)) (file_cmd-config cmd w).1.1

    put-Refines :
        (tmp key : Text) (content : List ℕ) (now : ℕ) (w : World) (m : Spec)
        → TmpApart (put tmp key content now)
        → Refines w m
        → Refines
            (file_cmd (put tmp key content now) w).0
            (spec_cmd w.cache.ttl w.cache.max_size (put tmp key content now) m).0
    unfolding file_cmd spec_cmd key_to_filename
    put-Refines tmp key content now w m apart h j =
        let file = key_to_filename digest w.cache in
        rw (named (put tmp key content now) w j) (
          ground (
            arith,
            set_whole digest (calm_set tmp) w key content now (file j)
                (apart (w.cache.key_prefix ++ j)),
            same_file w.cache key j,
            lookup-insert key j (content, now) m,
            h j,
          ))

    fetch-Refines :
        (key : Text) (now : ℕ) (w : World) (m : Spec)
        → Refines w m
        → Refines
            (file_cmd (fetch key now) w).0
            (spec_cmd w.cache.ttl w.cache.max_size (fetch key now) m).0
    unfolding file_cmd spec_cmd get settle check_age
    fetch-Refines key now w m h j =
        let file = key_to_filename digest w.cache in
        rw (named (fetch key now) w j) (
          ground (
            arith,
            h key,
            h j,
            same_file w.cache key j,
            lookup-delete key j m,
            lookup-delete (file key) (file j) w.disk,
          ))

    drop-Refines :
        (key : Text) (w : World) (m : Spec)
        → Refines w m
        → Refines
            (file_cmd (drop_key key) w).0
            (spec_cmd w.cache.ttl w.cache.max_size (drop_key key) m).0
    unfolding file_cmd spec_cmd del
    drop-Refines key w m h j =
        let file = key_to_filename digest w.cache in
        rw (named (drop_key key) w j) (
          ground (
            arith,
            h j,
            same_file w.cache key j,
            lookup-delete key j m,
            lookup-delete (file key) (file j) w.disk,
          ))

    cmd-answer :
        (cmd : Cmd) (w : World) (m : Spec)
        → Refines w m
        → (file_cmd cmd w).1 ≡ (spec_cmd w.cache.ttl w.cache.max_size cmd m).1
    unfolding file_cmd spec_cmd get settle check_age set del store finish publish
    cmd-answer (put tmp key content now) w m h = ground arith
    cmd-answer (fetch key now) w m h = ground (arith, h key)
    cmd-answer (drop_key key) w m h = ground arith

    cmd-Refines :
        (cmd : Cmd) (w : World) (m : Spec)
        → TmpApart cmd
        → Refines w m
        → Refines (file_cmd cmd w).0 (spec_cmd w.cache.ttl w.cache.max_size cmd m).0
    cmd-Refines (put tmp key content now) w m apart h = put-Refines tmp key content now w m apart h
    cmd-Refines (fetch key now) w m apart h = fetch-Refines key now w m h
    cmd-Refines (drop_key key) w m apart h = drop-Refines key w m h

    -- If no two texts have the same digest, and no digest is the name of a temporary file, then a run of
    -- Sets, Gets and Dels, at any times, whose contexts and calls of package os do not fail, answers what the
    -- map answers: a Set is refused just where the entry is over the limit, and a Get gives what was set
    -- last for its key, if it was not deleted, nor a positive time to live has run out.
    pub file_run-spec_run :
        (cmds : List Cmd) (w : World) (m : Spec)
        → All TmpApart cmds
        → Refines w m
        → file_run cmds w ≡ spec_run w.cache.ttl w.cache.max_size cmds m
    file_run-spec_run [] w m apart h = refl
    file_run-spec_run (cmd ∷ cmds) w m (first, rest) h =
        let w' = (file_cmd cmd w).0 in
        let m' = (spec_cmd w.cache.ttl w.cache.max_size cmd m).0 in
        let config = file_cmd-config cmd w in
        ground (
          arith,
          cmd-answer cmd w m h,
          config,
          file_run-spec_run cmds w' m' rest (cmd-Refines cmd w m first h),
        )
