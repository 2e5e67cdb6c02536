-- ===== src/FileCache/Sizes.antt =====
-- filecache.go: the size that the cache tracks, and reports to the metrics collector.
use httpc.Prelude.{
  ℕ, ◌+◌, ◌≡◌, ◌∙◌, sym, ◌⊎◌, inl, inr, ◌&&◌, Bool, true, false, Option, none, some, List, length,
  arith, Option-cases, if◌then◌else◌,
}
use httpc.Prelude.Text.{Text}
use httpc.Prelude.Int.{ℤ, pos, sub_ℕ, ltb_ℤ}
use httpc.Prelude.Dict.{
  lookup, insert, delete, NodupKeys, insert-NodupKeys, delete-NodupKeys, delete_absent,
}
use httpc.Errors.{Err, is_err, not_exist}
use httpc.Disk.{Disk, Entry, total, size_at}
use httpc.Disk.Totals.{total-insert, total-delete}
use httpc.FileCache.{
  FileCache, World, DelCalls, key_to_filename, del, adjust_cache_size, stat_size, fresh_file,
  is_expired, shrink,
}
use httpc.FileCache.Setting.{SetCalls, set}
use httpc.FileCache.Getting.{GetCalls, get, settle, check_age}
use httpc.FileCache.Atomic.{set_all-or-nothing, written, grown-adjust}

-- A positive TTL has run out for an entry.
abbrev pub outdated : ℤ → ℕ → Option Entry → Bool
outdated ttl now none = false
outdated ttl now (some e) = ltb_ℤ (pos 0) ttl && is_expired ttl now e.mod_time

-- The cache knows the size of its files, and has told it.
pub record IsTracked (w : World) : Type 0 where
  pub cached : w.cache.cached_size ≡ pos (total w.disk)
  pub told : w.cache.size_metric ≡ pos (total w.disk)
  pub names : NodupKeys w.disk

-- There is no directory at a name.
abbrev pub is_plain : Text → Disk → Bool
is_plain name d = elim (lookup name d) [ none ↦ true | some e ↦ if e.is_dir then false else true ]

stat_size-eq :
    (failure : Option Err) (name : Text) (d : Disk)
    → failure ≡ none
    → is_plain name d ≡ true
    → stat_size failure name d ≡ size_at name d
stat_size-eq failure name d ok plain = ground arith

-- adjustCacheSize, from one size that is right to the next
adjust_cache_size_lem :
    (c : FileCache) (old new size gone : ℕ)
    → c.cached_size ≡ pos old
    → new + gone ≡ old + size
    → ((adjust_cache_size c (sub_ℕ size gone)).cached_size ≡ pos new)
      × ((adjust_cache_size c (sub_ℕ size gone)).size_metric ≡ pos new)
unfolding adjust_cache_size
adjust_cache_size_lem c old new size gone right sum = ground arith

shrink_lem :
    (c : FileCache) (old new gone : ℕ)
    → c.cached_size ≡ pos old
    → c.size_metric ≡ pos old
    → new + gone ≡ old
    → ((shrink c gone).cached_size ≡ pos new) × ((shrink c gone).size_metric ≡ pos new)
shrink_lem c old new gone right told sum =
    ground (arith, adjust_cache_size_lem c old new 0 gone right (ground arith))

module _ (digest : Text → Text) where
  written-IsTracked :
      (calls : SetCalls) (w : World) (key : Text) (content : List ℕ) (now : ℕ)
      → calls.stat_failure ≡ none
      → is_plain (key_to_filename digest w.cache key) w.disk ≡ true
      → IsTracked w
      → IsTracked (written digest calls w key content now)
  written-IsTracked calls w key content now stat plain h =
      let name = key_to_filename digest w.cache key in
      let e = fresh_file content now in
      let sizes =
        adjust_cache_size_lem w.cache (total w.disk) (total (insert name e w.disk)) (length content)
          (stat_size calls.stat_failure name w.disk) h.cached
          (ground (
            arith,
            total-insert name e w.disk,
            stat_size-eq calls.stat_failure name w.disk stat plain,
          )) in
      let right = sym (grown-adjust digest calls w key content now).0 ∙ sizes.0 in
      record { cached = right; told = right; names = insert-NodupKeys name e w.disk h.names }

  pub set-IsTracked :
      (calls : SetCalls) (w : World) (key : Text) (content : List ℕ) (now : ℕ)
      → lookup calls.tmp_name w.disk ≡ none
      → calls.remove_failure ≡ none
      → calls.stat_failure ≡ none
      → is_plain (key_to_filename digest w.cache key) w.disk ≡ true
      → IsTracked w
      → IsTracked (set digest calls w key content now).0
  set-IsTracked calls w key content now fresh removable stat plain h =
      elim (set_all-or-nothing digest calls w key content now fresh removable) [
        | inl (all_well, (ok, e)) ↦ rw e (written-IsTracked calls w key content now stat plain h)
        | inr (not_all, (failed, e)) ↦ rw e h
      ]

  -- What Del does to the world: nothing, or the file of the key is away, and its size is counted down.
  del_cases :
      (calls : DelCalls) (w : World) (key : Text)
      → ((e : Err)
          → calls.remove_failure ≡ some e
          → is_err not_exist e ≡ true
          → lookup (key_to_filename digest w.cache key) w.disk ≡ none)
      → ((del digest calls w key).0 ≡ w)
        ⊎ ((del digest calls w key).0 ≡ record {
          cache =
              shrink w.cache
                (stat_size calls.stat_failure (key_to_filename digest w.cache key) w.disk);
          disk = delete (key_to_filename digest w.cache key) w.disk;
        })
  unfolding del
  del_cases calls w key gone = elim (Option-cases calls.remove_failure) [
    | inl ok ↦ ground arith
    | inr (e, failed) ↦
        ground (arith, gone e failed, delete_absent (key_to_filename digest w.cache key) w.disk)
  ]

  pub del-IsTracked :
      (calls : DelCalls) (w : World) (key : Text)
      → calls.stat_failure ≡ none
      → is_plain (key_to_filename digest w.cache key) w.disk ≡ true
      → ((e : Err)
          → calls.remove_failure ≡ some e
          → is_err not_exist e ≡ true
          → lookup (key_to_filename digest w.cache key) w.disk ≡ none)
      → IsTracked w
      → IsTracked (del digest calls w key).0
  del-IsTracked calls w key stat plain gone h =
      let name = key_to_filename digest w.cache key in
      let size = stat_size calls.stat_failure name w.disk in
      let sizes =
        shrink_lem w.cache (total w.disk) (total (delete name w.disk)) size h.cached h.told (
          ground (
            arith,
            total-delete name w.disk h.names,
            stat_size-eq calls.stat_failure name w.disk stat plain,
          )) in
      elim (del_cases calls w key gone) [
        | inl e ↦ rw e h
        | inr e ↦ rw e (record {
          cached = sizes.0;
          told = sizes.1;
          names = delete-NodupKeys name w.disk h.names;
        })
      ]

  -- Get leaves the sizes as they are ...
  pub get_sizes :
      (calls : GetCalls) (w : World) (key : Text) (now : ℕ)
      → ((get digest calls w key now).world.cache.cached_size ≡ w.cache.cached_size)
        × ((get digest calls w key now).world.cache.size_metric ≡ w.cache.size_metric)
  unfolding get settle check_age
  get_sizes calls w key now = ground arith

  -- ... and the files, unless it removes the file of the key as out of date.
  pub get_files :
      (calls : GetCalls) (w : World) (key : Text) (now : ℕ)
      → ((get digest calls w key now).world.disk ≡ w.disk)
        ⊎ ((outdated w.cache.ttl now (lookup (key_to_filename digest w.cache key) w.disk) ≡ true)
            × ((get digest calls w key now).world.disk
                ≡ delete (key_to_filename digest w.cache key) w.disk))
  unfolding get settle check_age
  get_files calls w key now = ground arith
