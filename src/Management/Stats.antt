-- ===== src/Management/Stats.antt =====
-- client.go, CacheStats, over the counters of memorycache.go.
use httpc.Prelude.{◌+◌, ◌%◌, ◌^◌, ◌<◌, ◌≡◌, refl, Option, some, List, ℕ, arith, ltb, if◌then◌else◌}
use httpc.MemoryCache.{BaseCache, MetricsMemoryCache, new_metrics_memory_cache, memory_stats}
use httpc.MemoryCache.Counts.{Use, use_all, all_given, contents, gaps, stats-use_all}
use httpc.Management.{memory_store, cache_stats}

-- A memory cache from when it was made, and what the Gets since have given.
module _ (b : BaseCache) (first : b.State) (us : List Use) where
  abbrev pub in_use : MetricsMemoryCache b
  in_use = use_all b us (new_metrics_memory_cache b first)

  abbrev pub answers : List (Option (List ℕ))
  answers = all_given b us (new_metrics_memory_cache b first)

  -- Of a client with a memory cache, after any sequence of Sets, Gets and Dels since the cache was made, with
  -- fewer than 2^64 Gets: CacheStats reports as hits the Gets that gave a content, an empty one included,
  -- as misses all other Gets, those included in which the base cache failed, and as the rate the
  -- fraction of hits among all Gets, 0 where there was none.
  pub cache_stats_lem :
      contents answers + gaps answers < 2 ^ 64
      → cache_stats b (some (memory_store in_use))
        ≡ some (record {
          hits = contents answers;
          misses = gaps answers;
          hit_rate =
              if ltb 0 (contents answers + gaps answers)
              then (contents answers, contents answers + gaps answers)
              else (0, 1);
        })
  unfolding cache_stats memory_stats
  cache_stats_lem few =
      let (hits, (misses, told)) = stats-use_all b us (new_metrics_memory_cache b first) in
      let hits' : in_use.hits ≡ contents answers = ground (arith, hits) in
      let misses' : in_use.misses ≡ gaps answers = ground (arith, misses) in
      let total : (contents answers + gaps answers) % 2 ^ 64 ≡ contents answers + gaps answers =
        ground arith in
      rw (hits', misses', total) refl
