-- ===== src/Management/Tests.antt =====
-- The cache methods of a client over a memory cache, and none.
use httpc.Prelude.{
  ℕ, ◌+◌, ◌^◌, ◌<◌, ◌≡◌, refl, Option, none, some, List, [], ◌∷◌, ltb, arith, if◌then◌else◌,
}
use httpc.Prelude.Text.{Text}
use httpc.Prelude.Int.{pos}
use httpc.Errors.{Err, new}
use httpc.FileCache.Upkeep.{ListCalls}
use httpc.MemoryCache.{BaseCache, MetricsMemoryCache, memory_stats, memory_get, memory_set}
use httpc.MemoryCache.Counts.{Use, setting, getting, contents, gaps}
use httpc.Management.Stats.{in_use, answers, cache_stats_lem}
use httpc.Management.{memory_store, clear_cache, cache_stats}

abbrev empty_base : BaseCache
empty_base = record {
  State = Unit;
  base_set = λ held key content ttl. (tt, none);
  base_get = λ held key. (tt, (none, none));
  base_del = λ held key. (tt, none);
}

abbrev three_hits : MetricsMemoryCache empty_base
three_hits = record { base = tt; hits = 3; misses = 1; hits_metric = 3; misses_metric = 1 }

three_of_four :
    cache_stats empty_base (some (memory_store three_hits))
    ≡ some (record { hits = 3; misses = 1; hit_rate = (3, 4) })
unfolding cache_stats memory_stats
three_of_four = refl

abbrev calm_list : ListCalls
calm_list = record {
  list_failure = none;
  info_failure = λ name. none;
  remove_failure = λ name. none;
  sum_list_failure = none;
  sum_info_failure = λ name. none;
}

no_clearing :
    (clear_cache empty_base calm_list (some (memory_store three_hits))).1
    ≡ some (new "cache clearing not supported for this cache type")
unfolding clear_cache
no_clearing = refl

-- A base cache with one entry, that fails for an empty key
abbrev lookup_one : Option (List ℕ) → Text → Option (List ℕ) × Option Err
lookup_one held [] = (held, some (new "empty key"))
lookup_one held (c ∷ key) = (held, none)

abbrev one_entry : BaseCache
one_entry = record {
  State = Option (List ℕ);
  base_set = λ held key content ttl. (some content, none);
  base_get = λ held key. (held, lookup_one held key);
  base_del = λ held key. (none, none);
}

abbrev uses : List Use
uses = getting (1 ∷ []) ∷ setting (1 ∷ []) [] (pos 0) ∷ getting (1 ∷ []) ∷ getting [] ∷ []

one_hit : (contents (answers one_entry none uses) ≡ 1) × (gaps (answers one_entry none uses) ≡ 2)
unfolding memory_get memory_set
one_hit = (refl, refl)

few_uses : contents (answers one_entry none uses) + gaps (answers one_entry none uses) < 2 ^ 64
few_uses = let (hits, misses) = one_hit in omega (arith, hits, misses)

cache_stats_lem_example :
    cache_stats one_entry (some (memory_store (in_use one_entry none uses)))
    ≡ some (record {
      hits = contents (answers one_entry none uses);
      misses = gaps (answers one_entry none uses);
      hit_rate =
          if ltb 0 (contents (answers one_entry none uses) + gaps (answers one_entry none uses))
          then (
            contents (answers one_entry none uses),
            contents (answers one_entry none uses) + gaps (answers one_entry none uses),
          )
          else (0, 1);
    })
cache_stats_lem_example = cache_stats_lem one_entry none uses few_uses
