-- ===== src/FileCache.antt =====
-- filecache.go: the cache on disk, over the files of its directory. A call of package os, and a context,
-- may fail at any point: what they return is the argument `calls` of an operation.
pub mod Setting
pub mod Getting
pub mod Upkeep
pub mod Open
pub mod Sizes
pub mod Spec
pub mod View
pub mod Lifetime
pub mod Atomic
pub mod Sweeps
pub mod Tracked
pub mod Writers
pub mod Intact
pub mod Unbroken
mod Tests
use httpc.Prelude.{
  ℕ, ◌+◌, Bool, true, false, not, ◌&&◌, Option, none, some, List, [], ◌∷◌, ◌++◌, length, take,
  is_none, is_some, if◌then◌else◌,
}
use httpc.Prelude.Text.{Text}
use httpc.Prelude.Int.{ℤ, pos, negsuc, sub_ℕ, ◌+ℤ◌, ltb_ℤ}
use httpc.Prelude.Dict.{lookup, insert, delete}
use httpc.Errors.{Err, sentinel, new, wrap, is_err, cache_size_limit_exceeded, not_exist}
use httpc.Disk.{Entry, Disk, rename}

-- The fields of FileCache but the logger. The files are in `Disk`, by their names in the directory; the
-- contexts of the calls stand for the timeout. The last three fields are what the metrics
-- collector was told.
pub record FileCache : Type 0 where
  pub dir : Text
  pub ttl : ℤ
  pub key_prefix : Text
  pub max_size : ℤ
  pub file_io_timeout : ℤ
  pub hits : ℕ
  pub misses : ℕ
  pub cached_size : ℤ
  pub hits_metric : ℕ
  pub misses_metric : ℕ
  pub size_metric : ℤ

pub record World : Type 0 where
  pub cache : FileCache
  pub disk : Disk

pub record DelCalls : Type 0 where
  pub cancelled : Option Err
  pub stat_failure : Option Err
  pub remove_failure : Option Err

unfoldable pub adjust_cache_size : FileCache → ℤ → FileCache
adjust_cache_size c delta =
    let size = c.cached_size +ℤ delta in
    if ltb_ℤ size (pos 0)
    then record c { cached_size = pos 0; size_metric = pos 0 }
    else record c { cached_size = size; size_metric = size }

-- os.Stat and info.Size, 0 where the stat fails
abbrev pub stat_size : Option Err → Text → Disk → ℕ
stat_size (some failure) name d = 0
stat_size none name d = elim (lookup name d) [ none ↦ 0 | some e ↦ length e.content ]

abbrev pub fresh_file : List ℕ → ℕ → Entry
fresh_file content now = record { is_dir = false; content = content; mod_time = now }

-- `time.Since(t) > ttl`
abbrev pub is_expired : ℤ → ℕ → ℕ → Bool
is_expired ttl now t = ltb_ℤ ttl (sub_ℕ now t)

-- `if removedSize > 0`
abbrev pub shrink : FileCache → ℕ → FileCache
shrink c size = if ltb_ℤ (pos 0) (pos size) then adjust_cache_size c (sub_ℕ 0 size) else c

-- sha256 and hex.EncodeToString are the parameter `digest`.
module _ (digest : Text → Text) where
  unfoldable pub key_to_filename : FileCache → Text → Text
  key_to_filename c key = digest (c.key_prefix ++ key)

  -- the result of os.Remove, which may be that there is no file
  abbrev pub drop_file : DelCalls → Text → World → World × Option Err
  drop_file calls name w =
      let size = stat_size calls.stat_failure name w.disk in
      elim calls.remove_failure [
        | some e ↦
            if is_err not_exist e
            then (record w { cache = shrink w.cache size }, none)
            else (w, some (wrap "failed to delete cache file" e))
        | none ↦ (record { cache = shrink w.cache size; disk = delete name w.disk }, none)
      ]

  unfoldable pub del : DelCalls → World → Text → World × Option Err
  del calls w key = elim calls.cancelled [
    | some e ↦ (w, some e)
    | none ↦ drop_file calls (key_to_filename w.cache key) w
  ]
