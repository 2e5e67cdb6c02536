-- ===== src/FileCache/Open.antt =====
-- filecache.go, NewFileCache, and defaults.go, expandHome. os.UserHomeDir and filepath.Join are parameters;
-- the directory separator is "/".
use httpc.Prelude.{◌*◌, Option, none, some, [], ◌∷◌, ◌==◌, if◌then◌else◌}
use httpc.Prelude.Text.{Text, text_eq}
use httpc.Prelude.Int.{ℤ, pos, leb_ℤ}
use httpc.Errors.{Err, Result, ok, err, new, wrap, ◌>>=◌}
use httpc.Disk.{Disk}
use httpc.FileCache.{FileCache, World}
use httpc.FileCache.Upkeep.{ListCalls, update_cache_size_metric}

pub record FileCacheConfig : Type 0 where
  pub dir : Text
  pub ttl : ℤ
  pub key_prefix : Text
  pub max_size : ℤ
  pub file_io_timeout : ℤ

abbrev pub default_file_io_timeout : ℤ
default_file_io_timeout = pos (5 * 1_000_000_000)

module _ (user_home_dir : Result Text) (join : Text → Text → Text) where
  -- what follows the "~", without a separator at its start
  abbrev pub strip_separator : Text → Text
  strip_separator [] = []
  strip_separator (c ∷ rest) = if c == b'/' then rest else c ∷ rest

  unfoldable pub expand_home : Text → Result Text
  expand_home [] = ok []
  expand_home (c ∷ rest) =
      if c == b'~'
      then (do home ← user_home_dir; ok (join home (strip_separator rest)))
      else ok (c ∷ rest)

  -- the fields of the new cache
  abbrev pub fresh_cache : FileCacheConfig → Text → FileCache
  fresh_cache config dir = record {
    dir = dir;
    ttl = config.ttl;
    key_prefix = config.key_prefix;
    max_size = config.max_size;
    file_io_timeout =
        if leb_ℤ config.file_io_timeout (pos 0)
        then default_file_io_timeout
        else config.file_io_timeout;
    hits = 0;
    misses = 0;
    cached_size = pos 0;
    hits_metric = 0;
    misses_metric = 0;
    size_metric = pos 0;
  }

  -- The result of MkdirAll, and the files that are there, are arguments.
  unfoldable pub new_file_cache :
      (Text → Option Err) → (Text → Disk) → ListCalls → Option FileCacheConfig → Result World
  new_file_cache mkdir_failure files calls none = err (new "config cannot be nil")
  new_file_cache mkdir_failure files calls (some config) =
      if text_eq config.dir []
      then err (new "cache directory cannot be empty")
      else elim (expand_home config.dir) [
        | err e ↦ err (wrap "failed to get home directory" e)
        | ok dir ↦ elim (mkdir_failure dir) [
          | some e ↦ err (wrap "failed to create cache directory" e)
          | none ↦ ok (
              update_cache_size_metric calls
                (record { cache = fresh_cache config dir; disk = files dir }))
        ]
      ]
