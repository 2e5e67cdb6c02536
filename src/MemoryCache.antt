-- ===== src/MemoryCache.antt =====
-- memorycache.go: the wrapper that counts hits and misses of a cache of package httpcache. That cache
-- is a parameter, with its state; a context is part of its state.
pub mod Counts
use httpc.Prelude.{ℕ, ◌+◌, Option, none, some, List}
use httpc.Prelude.Text.{Text}
use httpc.Prelude.Int.{ℤ}
use httpc.Errors.{Err}

-- httpcache.Cache; nil data is none
pub record BaseCache : Type 1 where
  pub State : Type 0
  pub base_set : State → Text → List ℕ → ℤ → State × Option Err
  pub base_get : State → Text → State × (Option (List ℕ) × Option Err)
  pub base_del : State → Text → State × Option Err

-- The last two fields are what the metrics collector was told.
pub record MetricsMemoryCache (b : BaseCache) : Type 0 where
  pub base : b.State
  pub hits : ℕ
  pub misses : ℕ
  pub hits_metric : ℕ
  pub misses_metric : ℕ

module _ (b : BaseCache) where
  abbrev pub new_metrics_memory_cache : b.State → MetricsMemoryCache b
  new_metrics_memory_cache s = record {
    base = s;
    hits = 0;
    misses = 0;
    hits_metric = 0;
    misses_metric = 0;
  }

  unfoldable pub memory_set :
      MetricsMemoryCache b → Text → List ℕ → ℤ → MetricsMemoryCache b × Option Err
  memory_set m key content ttl =
      let (s, failure) = b.base_set m.base key content ttl in (record m { base = s }, failure)

  abbrev pub missed : MetricsMemoryCache b → MetricsMemoryCache b
  missed m = record m { misses = m.misses + 1; misses_metric = m.misses_metric + 1 }

  -- what Get makes of the answer of the base cache
  abbrev pub counted :
      MetricsMemoryCache b
      → Option (List ℕ) × Option Err
      → MetricsMemoryCache b × (Option (List ℕ) × Option Err)
  counted m (content, some e) = (missed m, (none, none))
  counted m (none, none) = (missed m, (none, none))
  counted m (some content, none) =
      (record m { hits = m.hits + 1; hits_metric = m.hits_metric + 1 }, (some content, none))

  unfoldable pub memory_get :
      MetricsMemoryCache b → Text → MetricsMemoryCache b × (Option (List ℕ) × Option Err)
  memory_get m key =
      let (s, answer) = b.base_get m.base key in counted (record m { base = s }) answer

  unfoldable pub memory_del : MetricsMemoryCache b → Text → MetricsMemoryCache b × Option Err
  memory_del m key = let (s, failure) = b.base_del m.base key in (record m { base = s }, failure)

  unfoldable pub memory_stats : MetricsMemoryCache b → ℕ × ℕ
  memory_stats m = (m.hits, m.misses)
