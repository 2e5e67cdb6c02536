-- ===== src/FileCache/Upkeep.antt =====
-- filecache.go: the operations over all files (Clear, CleanExpired, Close, updateCacheSizeMetric), and Stats.
use httpc.Prelude.{
  ℕ, ◌+◌, Bool, not, ◌&&◌, Option, none, some, [], ◌∷◌, is_some, ltb, if◌then◌else◌,
}
use httpc.Prelude.Text.{Text}
use httpc.Prelude.Int.{ℤ, pos, eqb_ℤ}
use httpc.Prelude.Dict.{delete}
use httpc.Errors.{Err, new, wrap, is_err, not_exist}
use httpc.Disk.{Entry, Disk, entry_size}
use httpc.FileCache.{FileCache, World, is_expired}

-- What the calls of a pass return: ReadDir, then Info and Remove by the name of the file, and the ReadDir
-- and Info of updateCacheSizeMetric.
pub record ListCalls : Type 0 where
  pub list_failure : Option Err
  pub info_failure : Text → Option Err
  pub remove_failure : Text → Option Err
  pub sum_list_failure : Option Err
  pub sum_info_failure : Text → Option Err

unfoldable pub sum_sizes : (Text → Option Err) → Disk → ℕ
sum_sizes info_failure [] = 0
sum_sizes info_failure ((name, e) ∷ d) =
    let rest = sum_sizes info_failure d in
    if e.is_dir then rest else if is_some (info_failure name) then rest else entry_size e + rest

unfoldable pub update_cache_size_metric : ListCalls → World → World
update_cache_size_metric calls w = elim calls.sum_list_failure [
  | some e ↦ w
  | none ↦
      let size = pos (sum_sizes calls.sum_info_failure w.disk) in
      record w { cache = record w.cache { cached_size = size; size_metric = size } }
]

-- The files that a pass has left, and the number of its errors.
pub record Swept : Type 0 where
  pub disk : Disk
  pub errors : ℕ

-- One file of the loop of Clear
abbrev pub clear_one : ListCalls → Text → Swept → Swept
clear_one calls name s = elim (calls.remove_failure name) [
  | some e ↦ record s { errors = s.errors + 1 }
  | none ↦ record s { disk = delete name s.disk }
]

-- The loop of Clear, over the listing; the files change as it goes.
unfoldable pub clear_all : ListCalls → Disk → Swept → Swept
clear_all calls [] s = s
clear_all calls ((name, e) ∷ entries) s =
    clear_all calls entries (if e.is_dir then s else clear_one calls name s)

unfoldable pub clear : ListCalls → World → World × Option Err
unfolding clear_all
clear calls w = elim calls.list_failure [
  | some e ↦ (w, some (wrap "failed to read cache directory" e))
  | none ↦
      let s = clear_all calls w.disk (record { disk = w.disk; errors = 0 }) in
      let w' = record w { disk = s.disk } in
      if ltb 0 s.errors
      then (w', some (new "encountered errors while clearing cache"))
      else (update_cache_size_metric calls w', none)
]

-- One expired file of the loop of CleanExpired: a file that is gone already is no error.
abbrev pub clean_one : ListCalls → Text → Swept → Swept
clean_one calls name s = elim (calls.remove_failure name) [
  | some e ↦ if is_err not_exist e then s else record s { errors = s.errors + 1 }
  | none ↦ record s { disk = delete name s.disk }
]

unfoldable pub is_stale : ListCalls → ℤ → ℕ → Text → Entry → Bool
is_stale calls ttl now name e =
    not e.is_dir && not (is_some (calls.info_failure name)) && is_expired ttl now e.mod_time

unfoldable pub clean_all : ListCalls → ℤ → ℕ → Disk → Swept → Swept
clean_all calls ttl now [] s = s
clean_all calls ttl now ((name, e) ∷ entries) s =
    clean_all calls ttl now entries
      (if is_stale calls ttl now name e then clean_one calls name s else s)

-- the loop, the metric, and the error
abbrev pub clean_listed : ListCalls → ℕ → World → World × Option Err
clean_listed calls now w =
    let s = clean_all calls w.cache.ttl now w.disk (record { disk = w.disk; errors = 0 }) in
    let w' = update_cache_size_metric calls (record w { disk = s.disk }) in
    if ltb 0 s.errors
    then (w', some (new "encountered errors while cleaning expired entries"))
    else (w', none)

unfoldable pub clean_expired : ListCalls → ℕ → World → World × Option Err
clean_expired calls now w =
    if eqb_ℤ w.cache.ttl (pos 0) then (w, none) else elim calls.list_failure [
      | some e ↦ (w, some (wrap "failed to read cache directory" e))
      | none ↦ clean_listed calls now w
    ]

-- FileCache.Close
unfoldable pub close : ListCalls → ℕ → World → World × Option Err
close calls now w = clean_expired calls now w

unfoldable pub stats : FileCache → ℕ × ℕ
stats c = (c.hits, c.misses)
