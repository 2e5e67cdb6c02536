-- ===== src/FileCache/Setting.antt =====
-- filecache.go, Set.
use httpc.Prelude.{ℕ, Bool, ◌&&◌, Option, none, some, List, length, take, is_some, if◌then◌else◌}
use httpc.Prelude.Text.{Text}
use httpc.Prelude.Int.{pos, sub_ℕ, ltb_ℤ}
use httpc.Prelude.Dict.{insert, delete}
use httpc.Errors.{Err, sentinel, wrap, cache_size_limit_exceeded}
use httpc.Disk.{Disk, rename}
use httpc.FileCache.{FileCache, World, adjust_cache_size, stat_size, fresh_file, key_to_filename}

-- What the calls of Set return: contexts (before anything, before the write, before the rename), os
-- calls, and the name that CreateTemp picks. Where the write fails, `written` bytes are on disk.
pub record SetCalls : Type 0 where
  pub cancelled : Option Err
  pub stat_failure : Option Err
  pub timed_out : Option Err
  pub create_failure : Option Err
  pub tmp_name : Text
  pub write_failure : Option Err
  pub written : ℕ
  pub close_failure : Option Err
  pub chmod_failure : Option Err
  pub timed_out_late : Option Err
  pub rename_failure : Option Err
  pub remove_failure : Option Err

-- A step of Set: the files, and the error that ended it.
abbrev pub Stage : Type 0
Stage = Disk × Option Err

-- os.Remove(tmpPath), whose error is not looked at
abbrev pub discard : SetCalls → Disk → Disk
discard calls d = if is_some calls.remove_failure then d else delete calls.tmp_name d

-- from the rename on
unfoldable pub publish : SetCalls → Text → Disk → Stage
publish calls name d = elim calls.rename_failure [
  | some e ↦ (discard calls d, some (wrap "failed to rename cache file" e))
  | none ↦ (rename calls.tmp_name name d, none)
]

-- from the close on, over the directory with the whole file
unfoldable pub finish : SetCalls → Text → Disk → Stage
finish calls name d = elim calls.close_failure [
  | some e ↦ (discard calls d, some (wrap "failed to close temp cache file" e))
  | none ↦ elim calls.chmod_failure [
    | some e ↦ (discard calls d, some (wrap "failed to set cache file permissions" e))
    | none ↦ elim calls.timed_out_late [
      | some e ↦ (discard calls d, some (wrap "cache write timeout" e))
      | none ↦ publish calls name d
    ]
  ]
]

-- from the second look at the context on
unfoldable pub store : SetCalls → Text → List ℕ → ℕ → Disk → Stage
store calls name content now d = elim calls.timed_out [
  | some e ↦ (d, some (wrap "cache write timeout" e))
  | none ↦ elim calls.create_failure [
    | some e ↦ (d, some (wrap "failed to create temp cache file" e))
    | none ↦ elim calls.write_failure [
      | some e ↦ (
        discard calls (insert calls.tmp_name (fresh_file (take calls.written content) now) d),
        some (wrap "failed to write cache file" e),
      )
      | none ↦ finish calls name (insert calls.tmp_name (fresh_file content now) d)
    ]
  ]
]

-- The parameter `digest` is that of key_to_filename.
module _ (digest : Text → Text) where
  abbrev pub exceeds : FileCache → List ℕ → Bool
  exceeds c content = ltb_ℤ (pos 0) c.max_size && ltb_ℤ c.max_size (pos (length content))

  unfoldable pub set : SetCalls → World → Text → List ℕ → ℕ → World × Option Err
  set calls w key content now = elim calls.cancelled [
    | some e ↦ (w, some e)
    | none ↦
        if exceeds w.cache content
        then (w, some (wrap "entry size exceeds limit" (sentinel cache_size_limit_exceeded)))
        else (let name = key_to_filename digest w.cache key in
            let old_size = stat_size calls.stat_failure name w.disk in
            let (d, failure) = store calls name content now w.disk in
            elim failure [
              | some e ↦ (record w { disk = d }, some e)
              | none ↦ (
                record {
                  cache = adjust_cache_size w.cache (sub_ℕ (length content) old_size);
                  disk = d;
                },
                none,
              )
            ])
  ]
