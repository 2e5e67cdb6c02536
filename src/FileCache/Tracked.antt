-- ===== src/FileCache/Tracked.antt =====
-- filecache.go: runs of the cache's operations, in which the tracked size stays right, and the one operation
-- after which it is not.
use httpc.Prelude.{
  ℕ, ◌+◌, ◌≡◌, ap, sym, ◌∙◌, ◌⊎◌, refl, inl, inr, true, false, Option, none, some, List, [], ◌∷◌,
  arith,
}
use httpc.Prelude.Text.{Text}
use httpc.Prelude.Int.{pos}
use httpc.Prelude.Dict.{lookup, delete, NodupKeys}
use httpc.Errors.{Err, is_err, not_exist}
use httpc.Disk.{Disk, total, size_at}
use httpc.Disk.Totals.{total-delete}
use httpc.FileCache.{World, DelCalls, key_to_filename, del}
use httpc.FileCache.Setting.{SetCalls, set}
use httpc.FileCache.Getting.{GetCalls, get}
use httpc.FileCache.Upkeep.{
  ListCalls, Swept, sum_sizes, update_cache_size_metric, clear_all, clear, clean_all, clean_expired,
}
use httpc.FileCache.Sizes.{
  IsTracked, is_plain, outdated, set-IsTracked, del-IsTracked, get_sizes, get_files,
}
use httpc.FileCache.Sweeps.{clear_all-NodupKeys, clean_all-NodupKeys}

sum_sizes-total :
    (failure : Text → Option Err) (d : Disk)
    → ((name : Text) → failure name ≡ none)
    → sum_sizes failure d ≡ total d
unfolding sum_sizes total
sum_sizes-total failure [] fine = refl
sum_sizes-total failure ((name, e) ∷ d) fine =
    ground (arith, sum_sizes-total failure d fine, fine name)

-- The directory walk of updateCacheSizeMetric meets no error.
pub record CanSum (calls : ListCalls) : Type 0 where
  pub lists : calls.sum_list_failure ≡ none
  pub infos : (name : Text) → calls.sum_info_failure name ≡ none

update-IsTracked :
    (calls : ListCalls) (w : World)
    → CanSum calls
    → NodupKeys w.disk
    → IsTracked (update_cache_size_metric calls w)
unfolding update_cache_size_metric
update-IsTracked calls w can h =
    let sums = sum_sizes-total calls.sum_info_failure w.disk can.infos in
    rw can.lists (record { cached = ap pos sums; told = ap pos sums; names = h })

clear-IsTracked :
    (calls : ListCalls) (w : World)
    → CanSum calls
    → (clear calls w).1 ≡ none
    → NodupKeys w.disk
    → IsTracked (clear calls w).0
unfolding clear
clear-IsTracked calls w can done h =
    let s : Swept = record { disk = w.disk; errors = 0 } in
    let w' : World = record w { disk = (clear_all calls w.disk s).disk } in
    let e : (clear calls w).0 ≡ update_cache_size_metric calls w' = ground arith in
    rw e (update-IsTracked calls w' can (clear_all-NodupKeys calls w.disk s h))

clean_expired-IsTracked :
    (calls : ListCalls) (now : ℕ) (w : World)
    → CanSum calls
    → IsTracked w
    → IsTracked (clean_expired calls now w).0
unfolding clean_expired
clean_expired-IsTracked calls now w can h =
    let s : Swept = record { disk = w.disk; errors = 0 } in
    let w' : World = record w { disk = (clean_all calls w.cache.ttl now w.disk s).disk } in
    let cases : ((clean_expired calls now w).0 ≡ w)
        ⊎ ((clean_expired calls now w).0 ≡ update_cache_size_metric calls w') =
      ground arith in
    elim cases [
      | inl e ↦ rw e h
      | inr e ↦ rw e (
          update-IsTracked calls w' can
            (clean_all-NodupKeys calls w.cache.ttl now w.disk s h.names))
    ]

module _ (digest : Text → Text) where
  -- An operation on the cache, with what its calls return, that leaves the tracked size right.
  pub data Step : World → World → Type 0 where
    set_step :
        (calls : SetCalls) (w : World) (key : Text) (content : List ℕ) (now : ℕ)
        → lookup calls.tmp_name w.disk ≡ none
        → calls.remove_failure ≡ none
        → calls.stat_failure ≡ none
        → is_plain (key_to_filename digest w.cache key) w.disk ≡ true
        → Step w (set digest calls w key content now).0
    get_step :
        (calls : GetCalls) (w : World) (key : Text) (now : ℕ)
        → outdated w.cache.ttl now (lookup (key_to_filename digest w.cache key) w.disk) ≡ false
        → Step w (get digest calls w key now).world
    del_step :
        (calls : DelCalls) (w : World) (key : Text)
        → calls.stat_failure ≡ none
        → is_plain (key_to_filename digest w.cache key) w.disk ≡ true
        → ((e : Err)
            → calls.remove_failure ≡ some e
            → is_err not_exist e ≡ true
            → lookup (key_to_filename digest w.cache key) w.disk ≡ none)
        → Step w (del digest calls w key).0
    clear_step :
        (calls : ListCalls) (w : World)
        → CanSum calls
        → (clear calls w).1 ≡ none
        → Step w (clear calls w).0
    clean_step :
        (calls : ListCalls) (now : ℕ) (w : World)
        → CanSum calls
        → Step w (clean_expired calls now w).0

  pub data Reaches : World → World → Type 0 where
    start : (w : World) → Reaches w w
    step : (u v w : World) → Reaches u v → Step v w → Reaches u w

  kept-IsTracked :
      (calls : GetCalls) (w : World) (key : Text) (now : ℕ)
      → (get digest calls w key now).world.disk ≡ w.disk
      → IsTracked w
      → IsTracked (get digest calls w key now).world
  kept-IsTracked calls w key now e h =
      let sizes = get_sizes digest calls w key now in
      record {
        cached = sizes.0 ∙ h.cached ∙ ap (λ d. pos (total d)) (sym e);
        told = sizes.1 ∙ h.told ∙ ap (λ d. pos (total d)) (sym e);
        names = rw e h.names;
      }

  -- A Get, where the tracked size is right and no name is in the directory twice, leaves the files as they are, and the tracked size right; or
  -- it removes the file of its key, which is out of date: then the tracked size, and what the metrics
  -- collector was told last, stay as they were, too large by the size of that file.
  pub get_drift :
      (calls : GetCalls) (w : World) (key : Text) (now : ℕ)
      → IsTracked w
      → let name = key_to_filename digest w.cache key in
        let after = (get digest calls w key now).world in
        ((after.disk ≡ w.disk) × IsTracked after)
        ⊎ ((outdated w.cache.ttl now (lookup name w.disk) ≡ true)
            × (after.disk ≡ delete name w.disk)
            × (after.cache.cached_size ≡ w.cache.cached_size)
            × (after.cache.size_metric ≡ w.cache.size_metric)
            × (after.cache.cached_size ≡ pos (total after.disk + size_at name w.disk)))
  get_drift calls w key now h =
      let name = key_to_filename digest w.cache key in
      let sizes = get_sizes digest calls w key now in
      elim (get_files digest calls w key now) [
        | inl e ↦ inl (e, kept-IsTracked calls w key now e h)
        | inr (late, e) ↦ inr (
          late,
          e,
          sizes.0,
          sizes.1,
          ground (arith, e, sizes, h.cached, total-delete name w.disk h.names),
        )
      ]

  Step-IsTracked : {v w : World} → Step v w → IsTracked v → IsTracked w
  Step-IsTracked (set_step calls w key content now a b c d) h =
      set-IsTracked digest calls w key content now a b c d h
  Step-IsTracked (get_step calls w key now a) h = elim (get_files digest calls w key now) [
    | inl e ↦ kept-IsTracked calls w key now e h
    | inr (late, e) ↦ absurd (ground arith)
  ]
  Step-IsTracked (del_step calls w key a b c) h = del-IsTracked digest calls w key a b c h
  Step-IsTracked (clear_step calls w a b) h = clear-IsTracked calls w a b h.names
  Step-IsTracked (clean_step calls now w a) h = clean_expired-IsTracked calls now w a h

  -- In every state that a run of Set, Get, Del, Clear and CleanExpired reaches from one where the tracked size is
  -- the sum of the sizes of the files, no two of which have one name, and is what the metrics collector was told
  -- last, it is again that
  -- sum, and what the collector was told last. The run is one in which the names of temporary files are new,
  -- and these can be removed; a stat fails only where there is no file; no Set or Del meets a directory
  -- under the name of its file; a removal says that there is no file only where there is none; the walk
  -- over the directory does not fail; a Clear has no error; and no Get meets an entry that is out of date.
  pub reaches-IsTracked : {v w : World} → Reaches v w → IsTracked v → IsTracked w
  reaches-IsTracked (start w) h = h
  reaches-IsTracked (step u v w run last) h = Step-IsTracked last (reaches-IsTracked run h)
