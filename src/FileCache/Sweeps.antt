-- ===== src/FileCache/Sweeps.antt =====
-- filecache.go: which files Clear and CleanExpired remove.
use httpc.Prelude.{
  ℕ, ◌≤◌, ◌≡◌, ◌⊎◌, inl, inr, refl, not, ◌&&◌, Bool, true, false, Option, none, some, [], ◌∷◌,
  arith, is_none, if◌then◌else◌, Option-cases,
}
use httpc.Prelude.Text.{Text, text_eq_iff}
use httpc.Prelude.Int.{ℤ, pos, eqb_ℤ, ltb_ℤ, sub_ℕ}
use httpc.Prelude.Dict.{lookup, delete, NodupKeys, lookup-delete, delete-NodupKeys}
use httpc.Disk.{Disk, Entry}
use httpc.FileCache.{World}
use httpc.FileCache.Upkeep.{
  ListCalls, Swept, update_cache_size_metric, clear_all, clear_one, clear, is_stale, clean_all,
  clean_one, clean_expired,
}

kept-NodupKeys :
    (name : Text) (d d' : Disk) → (d' ≡ d) ⊎ (d' ≡ delete name d) → NodupKeys d → NodupKeys d'
kept-NodupKeys name d d' (inl e) h = rw e h
kept-NodupKeys name d d' (inr e) h = rw e (delete-NodupKeys name d h)

module _ (calls : ListCalls) where
  pub clear_all-NodupKeys :
      (entries : Disk) (s : Swept) → NodupKeys s.disk → NodupKeys (clear_all calls entries s).disk
  unfolding clear_all
  clear_all-NodupKeys [] s h = h
  clear_all-NodupKeys ((name, e) ∷ entries) s h =
      let s' = if e.is_dir then s else clear_one calls name s in
      clear_all-NodupKeys entries s' (kept-NodupKeys name s.disk s'.disk (ground arith) h)

  pub clean_all-NodupKeys :
      (ttl : ℤ) (now : ℕ) (entries : Disk) (s : Swept)
      → NodupKeys s.disk
      → NodupKeys (clean_all calls ttl now entries s).disk
  unfolding clean_all
  clean_all-NodupKeys ttl now [] s h = h
  clean_all-NodupKeys ttl now ((name, e) ∷ entries) s h =
      let s' = if is_stale calls ttl now name e then clean_one calls name s else s in
      clean_all-NodupKeys ttl now entries s' (kept-NodupKeys name s.disk s'.disk (ground arith) h)

  -- The file at a name is one that the loop takes away.
  abbrev pub goes : (Text → Entry → Bool) → Text → Option Entry → Bool
  goes p name none = false
  goes p name (some e) = p name e && is_none (calls.remove_failure name)

  abbrev pub no_dir : Text → Entry → Bool
  no_dir name e = not e.is_dir

  -- No directory, and its age, which can be read, is greater than the TTL.
  abbrev pub out_of_date : ℤ → ℕ → Text → Entry → Bool
  out_of_date ttl now name e =
      no_dir name e && is_none (calls.info_failure name) && ltb_ℤ ttl (sub_ℕ now e.mod_time)

  lookup-clear_all :
      (j : Text) (entries : Disk) (s : Swept)
      → NodupKeys entries
      → lookup j (clear_all calls entries s).disk
        ≡ (if goes no_dir j (lookup j entries) then none else lookup j s.disk)
  unfolding clear_all lookup
  lookup-clear_all j [] s h = refl
  lookup-clear_all j ((name, e) ∷ entries) s (fresh, h) =
      let s' = if e.is_dir then s else clear_one calls name s in
      ground
        (arith, lookup-clear_all j entries s' h, lookup-delete name j s.disk, text_eq_iff name j)

  lookup-clean_all :
      (ttl : ℤ) (now : ℕ) (j : Text) (entries : Disk) (s : Swept)
      → NodupKeys entries
      → lookup j (clean_all calls ttl now entries s).disk
        ≡ (if goes (is_stale calls ttl now) j (lookup j entries) then none else lookup j s.disk)
  unfolding clean_all lookup
  lookup-clean_all ttl now j [] s h = refl
  lookup-clean_all ttl now j ((name, e) ∷ entries) s (fresh, h) =
      let s' = if is_stale calls ttl now name e then clean_one calls name s else s in
      ground (
        arith,
        lookup-clean_all ttl now j entries s' h,
        lookup-delete name j s.disk,
        text_eq_iff name j,
      )

  clear_all-errors : (entries : Disk) (s : Swept) → s.errors ≤ (clear_all calls entries s).errors
  unfolding clear_all
  clear_all-errors [] s = omega arith
  clear_all-errors ((name, e) ∷ entries) s =
      ground (arith, clear_all-errors entries (if e.is_dir then s else clear_one calls name s))

  -- Without errors, no file is left behind.
  clear_all-goes :
      (j : Text) (e : Entry) (entries : Disk) (s : Swept)
      → (clear_all calls entries s).errors ≡ 0
      → lookup j entries ≡ some e
      → e.is_dir ≡ false
      → goes no_dir j (lookup j entries) ≡ true
  unfolding clear_all lookup
  clear_all-goes j e [] s none_failed found file = ground arith
  clear_all-goes j e ((name, e') ∷ entries) s none_failed found file =
      let s' = if e'.is_dir then s else clear_one calls name s in
      ground (
        arith,
        clear_all-goes j e entries s' none_failed,
        clear_all-errors entries s',
        text_eq_iff name j,
      )

  -- CleanExpired, in a directory with no name twice, removes exactly the files that are out of date: where
  -- the TTL is not 0 and the directory can be listed, a file is gone after it just when it is no directory, its age can be read and is
  -- greater than the TTL, and its removal does not fail; every other file, and with a TTL of 0 each
  -- file, stays as it is.
  pub clean_expired_files :
      (now : ℕ) (w : World) (j : Text)
      → NodupKeys w.disk
      → lookup j (clean_expired calls now w).0.disk ≡ (
          if not (eqb_ℤ w.cache.ttl (pos 0))
            && is_none calls.list_failure
            && goes (out_of_date w.cache.ttl now) j (lookup j w.disk)
          then none
          else lookup j w.disk)
  unfolding clean_expired update_cache_size_metric is_stale
  clean_expired_files now w j h =
      ground
        (arith, lookup-clean_all w.cache.ttl now j w.disk (record { disk = w.disk; errors = 0 }) h)

  -- A Clear that returns no error has removed every file, and no directory.
  clear_files :
      (w : World) (j : Text)
      → NodupKeys w.disk
      → (clear calls w).1 ≡ none
      → lookup j (clear calls w).0.disk
        ≡ elim (lookup j w.disk) [ none ↦ none | some e ↦ if e.is_dir then some e else none ]
  unfolding clear update_cache_size_metric
  clear_files w j h done =
      let s : Swept = record { disk = w.disk; errors = 0 } in
      elim (Option-cases (lookup j w.disk)) [
        | inl gone ↦ ground (arith, lookup-clear_all j w.disk s h)
        | inr (e, found) ↦
            ground (arith, lookup-clear_all j w.disk s h, clear_all-goes j e w.disk s)
      ]
