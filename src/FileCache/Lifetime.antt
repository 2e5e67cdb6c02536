-- ===== src/FileCache/Lifetime.antt =====
-- filecache.go: how long an entry is served.
use httpc.Prelude.{
  ℕ, ◌≡◌, ◌≤◌, false, Option, none, some, List, ◌++◌, ap, arith, true, if◌then◌else◌, Option-cases,
  inl, inr,
}
use httpc.Prelude.Text.{Text, text_eq, text_eq_refl}
use httpc.Prelude.Int.{ℤ, pos, negsuc, eqb_ℤ}
use httpc.Prelude.Dict.{lookup, NodupKeys}
use httpc.Disk.{Entry}
use httpc.FileCache.{World, key_to_filename, adjust_cache_size}
use httpc.FileCache.Setting.{SetCalls, set}
use httpc.FileCache.Getting.{get, settle, check_age}
use httpc.FileCache.Spec.{calm_get, over}
use httpc.FileCache.Atomic.{succeeds, set_whole}
use httpc.FileCache.Upkeep.{ListCalls, clean_expired, is_stale, update_cache_size_metric}
use httpc.FileCache.Sweeps.{clean_expired_files}

module _ (digest : Text → Text) where
  -- A Get whose calls do not fail gives what is in the file of its key.
  abbrev seen : ℤ → ℕ → Option Entry → Option (List ℕ)
  seen ttl now none = none
  seen ttl now (some e) =
      if e.is_dir then none else if over ttl now e.mod_time then none else some e.content

  get-content :
      (w : World) (key : Text) (now : ℕ)
      → (get digest calm_get w key now).content
        ≡ seen w.cache.ttl now (lookup (key_to_filename digest w.cache key) w.disk)
  unfolding get settle check_age
  get-content w key now = ground arith

  set-cache :
      (calls : SetCalls) (w : World) (key : Text) (content : List ℕ) (now : ℕ)
      → ((set digest calls w key content now).0.cache.ttl ≡ w.cache.ttl)
        × ((set digest calls w key content now).0.cache.key_prefix ≡ w.cache.key_prefix)
  unfolding set adjust_cache_size
  set-cache calls w key content now = ground arith

  set-name :
      (calls : SetCalls) (w : World) (key : Text) (content : List ℕ) (now : ℕ)
      → key_to_filename digest (set digest calls w key content now).0.cache key
        ≡ key_to_filename digest w.cache key
  unfolding key_to_filename
  set-name calls w key content now =
      ap (λ p. digest (p ++ key)) (set-cache calls w key content now).1

  -- A Get after a Set of the same key, by calls that do not fail: if the Set succeeded, it gives the content
  -- that was set, until a positive time to live is over, and nothing from then on; if the Set failed,
  -- wherever that was, it gives what it gave without the Set.
  pub get-set :
      (calls : SetCalls) (w : World) (key : Text) (content : List ℕ) (now later : ℕ)
      → text_eq calls.tmp_name (key_to_filename digest w.cache key) ≡ false
      → (get digest calm_get (set digest calls w key content now).0 key later).content ≡ (
          if succeeds digest calls w content
          then (if over w.cache.ttl later now then none else some content)
          else (get digest calm_get w key later).content)
  get-set calls w key content now later apart =
      let w' = (set digest calls w key content now).0 in
      let name = key_to_filename digest w.cache key in
      ground (
        arith,
        get-content w key later,
        get-content w' key later,
        set-cache calls w key content now,
        set-name calls w key content now,
        set_whole digest calls w key content now name apart,
        text_eq_refl name,
      )

  clean_expired-cache :
      (calls : ListCalls) (now : ℕ) (w : World)
      → ((clean_expired calls now w).0.cache.ttl ≡ w.cache.ttl)
        × ((clean_expired calls now w).0.cache.key_prefix ≡ w.cache.key_prefix)
  unfolding clean_expired update_cache_size_metric
  clean_expired-cache calls now w = ground arith

  clean_expired-name :
      (calls : ListCalls) (now : ℕ) (w : World) (key : Text)
      → key_to_filename digest (clean_expired calls now w).0.cache key
        ≡ key_to_filename digest w.cache key
  unfolding key_to_filename
  clean_expired-name calls now w key =
      ap (λ p. digest (p ++ key)) (clean_expired-cache calls now w).1

  stale-seen :
      (calls : ListCalls) (ttl : ℤ) (now later n : ℕ) (name : Text) (e : Entry)
      → ttl ≡ pos n
      → eqb_ℤ ttl (pos 0) ≡ false
      → now ≤ later
      → is_stale calls ttl now name e ≡ true
      → over ttl later e.mod_time ≡ true
  unfolding is_stale
  stale-seen calls ttl now later n name e nonneg positive order stale = ground arith

  -- Where the time to live is not negative, a CleanExpired is not noticed, whatever fails in it: from then on,
  -- a Get whose calls do not fail gives what it would have given without it.
  clean_expired_unnoticed :
      (calls : ListCalls) (w : World) (key : Text) (now later n : ℕ)
      → w.cache.ttl ≡ pos n
      → NodupKeys w.disk
      → now ≤ later
      → (get digest calm_get (clean_expired calls now w).0 key later).content
        ≡ (get digest calm_get w key later).content
  clean_expired_unnoticed calls w key now later n nonneg nodup order =
      let name = key_to_filename digest w.cache key in
      let w' = (clean_expired calls now w).0 in
      let kept = clean_expired_files calls now w name nodup in
      let same = clean_expired-cache calls now w in
      elim (Option-cases (lookup name w.disk)) [
        | inl gone ↦ ground (
          arith,
          gone,
          kept,
          same,
          clean_expired-name calls now w key,
          get-content w key later,
          get-content w' key later,
        )
        | inr (e, found) ↦ ground (
          arith,
          found,
          kept,
          same,
          clean_expired-name calls now w key,
          get-content w key later,
          get-content w' key later,
          stale-seen calls w.cache.ttl now later n name e nonneg,
        )
      ]

  -- A negative time to live, which a configuration may have: Get serves each entry, however old, and
  -- CleanExpired, where its calls do not fail, removes it at once.
  pub negative_ttl :
      (calls : ListCalls) (w : World) (key : Text) (now n : ℕ) (e : Entry)
      → w.cache.ttl ≡ negsuc n
      → NodupKeys w.disk
      → lookup (key_to_filename digest w.cache key) w.disk ≡ some e
      → e.is_dir ≡ false
      → e.mod_time ≤ now
      → calls.list_failure ≡ none
      → calls.info_failure (key_to_filename digest w.cache key) ≡ none
      → calls.remove_failure (key_to_filename digest w.cache key) ≡ none
      → ((get digest calm_get w key now).content ≡ some e.content)
        × (lookup (key_to_filename digest w.cache key) (clean_expired calls now w).0.disk ≡ none)
  unfolding is_stale
  negative_ttl calls w key now n e neg nodup found file past lists infos removes = ground (
    arith,
    get-content w key now,
    clean_expired_files calls now w (key_to_filename digest w.cache key) nodup,
  )
