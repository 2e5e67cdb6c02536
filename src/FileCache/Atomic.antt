-- ===== src/FileCache/Atomic.antt =====
-- filecache.go, Set: whatever fails, an entry is never half written.
use httpc.Prelude.{
  ℕ, ◌≡◌, ◌⊎◌, Bool, true, false, not, ◌&&◌, Option, none, some, List, take, length, arith, is_some,
  is_none, if◌then◌else◌, Option-cases, inl, inr,
}
use httpc.Prelude.Text.{Text, text_eq, text_eq_refl}
use httpc.Prelude.Int.{ℤ, pos, sub_ℕ, ◌+ℤ◌, ltb_ℤ}
use httpc.Prelude.Dict.{lookup, insert, delete, lookup-insert, lookup-delete, delete-insert_absent}
use httpc.Errors.{Err}
use httpc.Disk.{Disk, Entry, rename}
use httpc.FileCache.{World, fresh_file, key_to_filename, stat_size, adjust_cache_size}
use httpc.FileCache.Setting.{SetCalls, discard, publish, finish, store, set}

-- None of the calls after the size check fails.
abbrev pub stores : SetCalls → Bool
stores calls =
    is_none calls.timed_out
    && is_none calls.create_failure
    && is_none calls.write_failure
    && is_none calls.close_failure
    && is_none calls.chmod_failure
    && is_none calls.timed_out_late
    && is_none calls.rename_failure

-- What a Set needs to succeed.
abbrev pub succeeds : (Text → Text) → SetCalls → World → List ℕ → Bool
succeeds digest calls w content =
    is_none calls.cancelled
    && not (ltb_ℤ (pos 0) w.cache.max_size && ltb_ℤ w.cache.max_size (pos (length content)))
    && stores calls

module _ (calls : SetCalls) (j : Text) (other : text_eq calls.tmp_name j ≡ false) where
  lookup-discard : (d : Disk) → lookup j (discard calls d) ≡ lookup j d
  lookup-discard d = ground (arith, lookup-delete calls.tmp_name j d)

  lookup-rename :
      (name : Text) (e : Entry) (d : Disk)
      → lookup j (rename calls.tmp_name name (insert calls.tmp_name e d))
        ≡ (if text_eq name j then some e else lookup j d)
  unfolding rename
  lookup-rename name e d = ground (
    arith,
    lookup-insert calls.tmp_name calls.tmp_name e d,
    text_eq_refl calls.tmp_name,
    lookup-insert name j e (delete calls.tmp_name (insert calls.tmp_name e d)),
    lookup-delete calls.tmp_name j (insert calls.tmp_name e d),
    lookup-insert calls.tmp_name j e d,
  )

module _ (calls : SetCalls) (name : Text) (content : List ℕ) (now : ℕ) (d : Disk) where
  abbrev stored : Disk × Option Err
  stored = store calls name content now d

  store-stores : is_none stored.1 ≡ stores calls
  unfolding store finish publish
  store-stores = ground arith

  -- A failure leaves every name but the one of the temporary file as it was; a success puts the whole
  -- file at its name.
  lookup-store :
      (j : Text)
      → text_eq calls.tmp_name j ≡ false
      → lookup j stored.0
        ≡ (if stores calls && text_eq name j then some (fresh_file content now) else lookup j d)
  unfolding store finish publish
  lookup-store j other = ground (
    arith,
    lookup-insert calls.tmp_name j (fresh_file content now) d,
    lookup-insert calls.tmp_name j (fresh_file (take calls.written content) now) d,
    lookup-discard calls j other (insert calls.tmp_name (fresh_file content now) d),
    lookup-discard calls j other
        (insert calls.tmp_name (fresh_file (take calls.written content) now) d),
    lookup-rename calls j other name (fresh_file content now) d,
  )

  -- With a temporary name that is new, and can be removed, a failure leaves the files as they were.
  store_all-or-nothing :
      lookup calls.tmp_name d ≡ none
      → calls.remove_failure ≡ none
      → ((stores calls ≡ true)
          × ((stored.1 ≡ none) × (stored.0 ≡ insert name (fresh_file content now) d)))
        ⊎ ((stores calls ≡ false) × ((is_some stored.1 ≡ true) × (stored.0 ≡ d)))
  unfolding store finish publish rename
  store_all-or-nothing fresh removable = ground (
    arith,
    lookup-insert calls.tmp_name calls.tmp_name (fresh_file content now) d,
    text_eq_refl calls.tmp_name,
    delete-insert_absent calls.tmp_name (fresh_file content now) d,
    delete-insert_absent calls.tmp_name (fresh_file (take calls.written content) now) d,
  )

module _ (digest : Text → Text) (calls : SetCalls) (w : World) (key : Text) (content : List ℕ)
    (now : ℕ) where
  abbrev file : Text
  file = key_to_filename digest w.cache key

  abbrev after : World × Option Err
  after = set digest calls w key content now

  -- The bytes that Set counts for the old file: none where there is no file, or the stat fails.
  abbrev pub replaced : ℕ
  replaced = elim calls.stat_failure [
    | some e ↦ 0
    | none ↦ elim (lookup file w.disk) [ none ↦ 0 | some old ↦ length old.content ]
  ]

  -- The tracked size after a Set that succeeds.
  abbrev pub grown : ℤ
  grown =
      let size = w.cache.cached_size +ℤ sub_ℕ (length content) replaced in
      if ltb_ℤ size (pos 0) then pos 0 else size

  pub grown-adjust :
      let delta = sub_ℕ (length content) (stat_size calls.stat_failure file w.disk) in
      ((adjust_cache_size w.cache delta).cached_size ≡ grown)
      × ((adjust_cache_size w.cache delta).size_metric ≡ grown)
  unfolding adjust_cache_size
  grown-adjust = elim (Option-cases calls.stat_failure) [
    | inl e ↦ elim (Option-cases (lookup file w.disk)) [
      | inl f ↦ (ground (arith, e, f), ground (arith, e, f))
      | inr (old, f) ↦ (ground (arith, e, f), ground (arith, e, f))
    ]
    | inr (err, e) ↦ (ground (arith, e), ground (arith, e))
  ]

  -- The world after a Set that succeeds.
  abbrev pub written : World
  written = record {
    cache = record w.cache { cached_size = grown; size_metric = grown };
    disk = insert file (record { is_dir = false; content = content; mod_time = now }) w.disk;
  }

  -- Where CreateTemp picks a name that is not in the directory, and that file can be removed, Set
  -- succeeds exactly if no context or call of package os but the stat fails and the entry is not over the
  -- limit: then the file of the key has the whole entry, no other file is changed, and the tracked size, which
  -- the metrics collector is told, becomes what it was, plus the length of the entry, less that of the old
  -- file (counted as 0 where there was none, or the stat fails), or 0 where that is negative. In
  -- every other case Set returns an error and changes neither the files nor the sizes.
  pub set_all-or-nothing :
      lookup calls.tmp_name w.disk ≡ none
      → calls.remove_failure ≡ none
      → ((succeeds digest calls w content ≡ true) × ((after.1 ≡ none) × (after.0 ≡ written)))
        ⊎ ((succeeds digest calls w content ≡ false) × ((is_some after.1 ≡ true) × (after.0 ≡ w)))
  unfolding set adjust_cache_size
  set_all-or-nothing fresh removable =
      ground (arith, store_all-or-nothing calls file content now w.disk fresh removable)

  -- Even where the temporary file can't be removed: a Set changes no file but the temporary one and the one
  -- of its key, and that one has, after the Set, its old entry or the whole new one, never a part.
  pub set_whole :
      (j : Text)
      → text_eq calls.tmp_name j ≡ false
      → lookup j after.0.disk ≡ (
          if succeeds digest calls w content && text_eq file j
          then some (fresh_file content now)
          else lookup j w.disk)
  unfolding set
  set_whole j other = ground (
    arith,
    store-stores calls file content now w.disk,
    lookup-store calls file content now w.disk j other,
  )
