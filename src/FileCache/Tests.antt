-- ===== src/FileCache/Tests.antt =====
-- The cache on concrete directories. Names of entries start with 0, of temporary files with 1.
use httpc.Prelude.{
  ℕ, ◌≡◌, refl, true, false, none, some, List, [], ◌∷◌, arith, ◌⊎◌, is_some, ◌+◌, if◌then◌else◌,
  ◌==◌, Bool,
}
use httpc.Prelude.Text.{Text, text_eq}
use httpc.Prelude.Int.{ℤ, pos, negsuc}
use httpc.Prelude.Dict.{lookup, insert, delete}
use httpc.Errors.{new}
use httpc.Disk.{rename, Disk, total, size_at}
use httpc.FileCache.{FileCache, World, key_to_filename, fresh_file}
use httpc.FileCache.Setting.{SetCalls, set}
use httpc.FileCache.Getting.{get, settle, check_age}
use httpc.FileCache.Upkeep.{ListCalls, clear, clear_all, clean_expired, update_cache_size_metric}
use httpc.FileCache.Atomic.{succeeds, written, set_all-or-nothing}
use httpc.FileCache.Sizes.{IsTracked, outdated, is_plain}
use httpc.FileCache.Sweeps.{goes, out_of_date, clean_expired_files}
use httpc.FileCache.Tracked.{set_step, start, step, get_drift, reaches-IsTracked}
use httpc.FileCache.Spec.{
  Cmd, put, fetch, done, found, calm_set, calm_get, over, spec_run, spec_cmd,
}
use httpc.FileCache.View.{Refines, file_run, file_run-spec_run}
use httpc.FileCache.Writers.{
  Writer, Shared, create_temp, overwrite, write_part, write_whole, rename_temp, creates,
  writes_part, writes_whole, renames, Reaches,
}
use httpc.FileCache.Writers as Writers
use httpc.FileCache.Intact.{Offered}
use httpc.FileCache.Unbroken.{reached_whole}
use httpc.FileCache.Lifetime.{get-set, negative_ttl}

abbrev digest : Text → Text
digest t = 0 ∷ t

digest_injective : (a b : Text) → digest a ≡ digest b → a ≡ b
digest_injective a b e = cc

abbrev tmp : Text
tmp = 1 ∷ []

abbrev cache_of : ℤ → ℕ → FileCache
cache_of ttl size = record {
  dir = [];
  ttl = ttl;
  key_prefix = [];
  max_size = pos 3;
  file_io_timeout = pos 1;
  hits = 0;
  misses = 0;
  cached_size = pos size;
  hits_metric = 0;
  misses_metric = 0;
  size_metric = pos size;
}

-- One entry of two bytes, from time 5, under the key 7
abbrev one_entry : Disk
one_entry = (0 ∷ 7 ∷ [], fresh_file (8 ∷ 8 ∷ []) 5) ∷ []

abbrev world : World
world = record { cache = cache_of (pos 10) 2; disk = one_entry }

abbrev disk_full : SetCalls
disk_full = record (calm_set tmp) { write_failure = some (new "no space left"); written = 1 }

no_temporary : lookup tmp one_entry ≡ none
unfolding lookup text_eq
no_temporary = refl

set_all-or-nothing_example :
    ((succeeds digest disk_full world (9 ∷ 9 ∷ 9 ∷ []) ≡ true)
      × (((set digest disk_full world (7 ∷ []) (9 ∷ 9 ∷ 9 ∷ []) 6).1 ≡ none)
          × ((set digest disk_full world (7 ∷ []) (9 ∷ 9 ∷ 9 ∷ []) 6).0
              ≡ written digest disk_full world (7 ∷ []) (9 ∷ 9 ∷ 9 ∷ []) 6)))
    ⊎ ((succeeds digest disk_full world (9 ∷ 9 ∷ 9 ∷ []) ≡ false)
        × ((is_some (set digest disk_full world (7 ∷ []) (9 ∷ 9 ∷ 9 ∷ []) 6).1 ≡ true)
            × ((set digest disk_full world (7 ∷ []) (9 ∷ 9 ∷ 9 ∷ []) 6).0 ≡ world)))
set_all-or-nothing_example =
    set_all-or-nothing digest disk_full world (7 ∷ []) (9 ∷ 9 ∷ 9 ∷ []) 6 no_temporary refl

apart : (t : Text) → text_eq tmp (digest t) ≡ false
unfolding text_eq
apart t = refl

world_IsTracked : IsTracked world
unfolding total lookup
world_IsTracked = record { cached = refl; told = refl; names = (refl, tt) }

abbrev after_set : World
after_set = (set digest (calm_set tmp) world (7 ∷ []) (9 ∷ []) 6).0

is_plain_entry : is_plain (key_to_filename digest world.cache (7 ∷ [])) one_entry ≡ true
unfolding key_to_filename lookup text_eq
is_plain_entry = refl

reaches-IsTracked_example : IsTracked after_set
reaches-IsTracked_example =
    reaches-IsTracked digest
      (step world world after_set (start world)
        (set_step (calm_set tmp) world (7 ∷ []) (9 ∷ []) 6 no_temporary refl refl is_plain_entry))
      world_IsTracked

get_drift_example :
    (((get digest calm_get world (7 ∷ []) 20).world.disk ≡ one_entry)
      × IsTracked (get digest calm_get world (7 ∷ []) 20).world)
    ⊎ ((outdated (pos 10) 20 (lookup (key_to_filename digest world.cache (7 ∷ [])) one_entry)
          ≡ true)
        × ((get digest calm_get world (7 ∷ []) 20).world.disk
            ≡ delete (key_to_filename digest world.cache (7 ∷ [])) one_entry)
        × ((get digest calm_get world (7 ∷ []) 20).world.cache.cached_size
            ≡ world.cache.cached_size)
        × ((get digest calm_get world (7 ∷ []) 20).world.cache.size_metric
            ≡ world.cache.size_metric)
        × ((get digest calm_get world (7 ∷ []) 20).world.cache.cached_size
            ≡ pos (
                total (get digest calm_get world (7 ∷ []) 20).world.disk
                + size_at (key_to_filename digest world.cache (7 ∷ [])) one_entry)))
get_drift_example = get_drift digest calm_get world (7 ∷ []) 20 world_IsTracked

-- The entry that is out of date is gone, and still counted.
expired_still_counted :
    ((get digest calm_get world (7 ∷ []) 20).world.disk ≡ [])
    × ((get digest calm_get world (7 ∷ []) 20).world.cache.cached_size ≡ pos 2)
unfolding get settle check_age key_to_filename lookup delete text_eq
expired_still_counted = (refl, refl)

abbrev calm_list : ListCalls
calm_list = record {
  list_failure = none;
  info_failure = λ name. none;
  remove_failure = λ name. none;
  sum_list_failure = none;
  sum_info_failure = λ name. none;
}

clean_expired_files_example : lookup (0 ∷ 7 ∷ []) (clean_expired calm_list 20 world).0.disk ≡ (
    if goes calm_list
      (out_of_date calm_list (pos 10) 20)
      (0 ∷ 7 ∷ [])
      (lookup (0 ∷ 7 ∷ []) one_entry)
    then none
    else lookup (0 ∷ 7 ∷ []) one_entry)
clean_expired_files_example =
    clean_expired_files calm_list 20 world (0 ∷ 7 ∷ []) world_IsTracked.names

no_clear_error : (clear calm_list world).1 ≡ none
unfolding clear clear_all update_cache_size_metric delete
no_clear_error = refl

abbrev empty_world : World
empty_world = record { cache = cache_of (pos 10) 0; disk = [] }

-- set, read, read too late
abbrev cmds : List Cmd
cmds = put tmp (7 ∷ []) (9 ∷ []) 5 ∷ fetch (7 ∷ []) 15 ∷ fetch (7 ∷ []) 16 ∷ []

empty_refined : Refines digest empty_world []
unfolding lookup
empty_refined key = refl

file_run-spec_run_example : file_run digest cmds empty_world ≡ spec_run (pos 10) (pos 3) cmds []
file_run-spec_run_example =
    file_run-spec_run digest digest_injective cmds empty_world [] (apart, (tt, (tt, tt)))
      empty_refined

answers : spec_run (pos 10) (pos 3) cmds [] ≡ done ∷ found (some (9 ∷ [])) ∷ found none ∷ []
unfolding spec_cmd lookup insert text_eq delete
answers = refl

apart_entry : text_eq tmp (key_to_filename digest world.cache (7 ∷ [])) ≡ false
unfolding key_to_filename
apart_entry = apart (7 ∷ [])

get-set_example :
    (get digest calm_get (set digest (calm_set tmp) world (7 ∷ []) (9 ∷ []) 6).0 (7 ∷ []) 9).content
    ≡ (if succeeds digest (calm_set tmp) world (9 ∷ [])
        then (if over (pos 10) 9 6 then none else some (9 ∷ []))
        else (get digest calm_get world (7 ∷ []) 9).content)
get-set_example = get-set digest (calm_set tmp) world (7 ∷ []) (9 ∷ []) 6 9 apart_entry

abbrev negative : World
negative = record { cache = cache_of (negsuc 0) 2; disk = one_entry }

found_entry :
    lookup (key_to_filename digest negative.cache (7 ∷ [])) one_entry
    ≡ some (fresh_file (8 ∷ 8 ∷ []) 5)
unfolding key_to_filename lookup text_eq
found_entry = refl

negative_ttl_example :
    ((get digest calm_get negative (7 ∷ []) 6).content ≡ some (8 ∷ 8 ∷ []))
    × (lookup
          (key_to_filename digest negative.cache (7 ∷ []))
          (clean_expired calm_list 6 negative).0.disk
        ≡ none)
negative_ttl_example =
    negative_ttl digest calm_list negative (7 ∷ []) 6 0 (fresh_file (8 ∷ 8 ∷ []) 5) refl
      world_IsTracked.names found_entry refl (omega arith) refl refl refl

-- Two Sets for one file at once: the first has renamed its file, while the second has written a byte.
abbrev is_tmp : Text → Bool
is_tmp [] = false
is_tmp (c ∷ t) = c == 1

abbrev first_writer : Writer
first_writer = record { target = 0 ∷ 7 ∷ []; content = 8 ∷ 8 ∷ []; is_written = false; time = 1 }

abbrev second_writer : Writer
second_writer = record { target = 0 ∷ 7 ∷ []; content = 9 ∷ 9 ∷ []; is_written = false; time = 2 }

abbrev nothing_yet : Shared
nothing_yet = record { disk = []; writers = []; offers = [] }

abbrev one_begun : Shared
one_begun = create_temp (1 ∷ 1 ∷ []) (0 ∷ 7 ∷ []) (8 ∷ 8 ∷ []) 1 nothing_yet

abbrev two_begun : Shared
two_begun = create_temp (1 ∷ 2 ∷ []) (0 ∷ 7 ∷ []) (9 ∷ 9 ∷ []) 2 one_begun

abbrev half_written : Shared
half_written = write_part (1 ∷ 2 ∷ []) second_writer 1 3 two_begun

abbrev first_written : Shared
first_written = write_whole (1 ∷ 1 ∷ []) first_writer 4 half_written

abbrev first_renamed : Shared
first_renamed =
    rename_temp (1 ∷ 1 ∷ []) (record first_writer { is_written = true; time = 4 }) first_written

interleaved : Reaches is_tmp nothing_yet first_renamed
unfolding create_temp write_part write_whole rename_temp overwrite lookup insert delete text_eq
interleaved =
    Writers.step nothing_yet first_written first_renamed
      (Writers.step nothing_yet half_written first_written
        (Writers.step nothing_yet two_begun half_written
          (Writers.step nothing_yet one_begun two_begun
            (Writers.step nothing_yet nothing_yet one_begun (Writers.start nothing_yet)
              (creates nothing_yet (1 ∷ 1 ∷ []) (0 ∷ 7 ∷ []) (8 ∷ 8 ∷ []) 1 refl refl refl))
            (creates one_begun (1 ∷ 2 ∷ []) (0 ∷ 7 ∷ []) (9 ∷ 9 ∷ []) 2 refl refl refl))
          (writes_part two_begun (1 ∷ 2 ∷ []) second_writer 1 3 refl refl))
        (writes_whole half_written (1 ∷ 1 ∷ []) first_writer 4 refl refl))
      (renames first_written (1 ∷ 1 ∷ []) (record first_writer { is_written = true; time = 4 }) refl
        refl)

renamed : lookup (0 ∷ 7 ∷ []) first_renamed.disk ≡ some (fresh_file (8 ∷ 8 ∷ []) 4)
unfolding create_temp write_part write_whole rename_temp rename overwrite lookup insert delete
    text_eq
renamed = refl

reached_whole_example :
    (lookup (0 ∷ 7 ∷ []) [] ≡ some (fresh_file (8 ∷ 8 ∷ []) 4))
    ⊎ Offered (0 ∷ 7 ∷ []) (8 ∷ 8 ∷ []) first_renamed.offers
reached_whole_example =
    reached_whole is_tmp [] first_renamed (0 ∷ 7 ∷ []) (fresh_file (8 ∷ 8 ∷ []) 4) interleaved refl
      renamed
