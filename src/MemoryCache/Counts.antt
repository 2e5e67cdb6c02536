-- ===== src/MemoryCache/Counts.antt =====
-- memorycache.go: what the counters say after any use of the cache.
use httpc.Prelude.{ℕ, ◌+◌, ◌≡◌, Option, none, some, List, [], ◌∷◌, ◌++◌, arith}
use httpc.Prelude.Text.{Text}
use httpc.Prelude.Int.{ℤ}
use httpc.MemoryCache.{BaseCache, MetricsMemoryCache, memory_set, memory_get, memory_del}

pub data Use : Type 0 where
  setting : Text → List ℕ → ℤ → Use
  getting : Text → Use
  deleting : Text → Use

-- how many of the answers are contents, and how many are not
abbrev pub contents : List (Option (List ℕ)) → ℕ
contents [] = 0
contents (none ∷ os) = contents os
contents (some c ∷ os) = contents os + 1

abbrev pub gaps : List (Option (List ℕ)) → ℕ
gaps [] = 0
gaps (none ∷ os) = gaps os + 1
gaps (some c ∷ os) = gaps os

module _ (b : BaseCache) where
  abbrev M : Type 0
  M = MetricsMemoryCache b

  abbrev pub used : Use → M → M
  used (setting key content ttl) m = (memory_set b m key content ttl).0
  used (getting key) m = (memory_get b m key).0
  used (deleting key) m = (memory_del b m key).0

  -- what Get gave a caller
  abbrev pub given : Use → M → List (Option (List ℕ))
  given (setting key content ttl) m = []
  given (getting key) m = (memory_get b m key).1.0 ∷ []
  given (deleting key) m = []

  abbrev pub use_all : List Use → M → M
  use_all [] m = m
  use_all (u ∷ us) m = use_all us (used u m)

  abbrev pub all_given : List Use → M → List (Option (List ℕ))
  all_given [] m = []
  all_given (u ∷ us) m = given u m ++ all_given us (used u m)

  -- After any sequence of Sets, Gets and Dels, from any state: the hits have grown by the number of Gets
  -- that gave a content, an empty one included, and the misses by the number of all other Gets, those
  -- included in which the base cache failed; the metrics collector was told the same.
  pub stats-use_all :
      (us : List Use) (m : M)
      → ((use_all us m).hits ≡ m.hits + contents (all_given us m))
        × (((use_all us m).misses ≡ m.misses + gaps (all_given us m))
            × (((use_all us m).hits_metric ≡ m.hits_metric + contents (all_given us m))
                × ((use_all us m).misses_metric ≡ m.misses_metric + gaps (all_given us m))))
  unfolding memory_set memory_get memory_del
  stats-use_all [] m = ground arith
  stats-use_all (setting key content ttl ∷ us) m =
      stats-use_all us (used (setting key content ttl) m)
  stats-use_all (getting key ∷ us) m = ground (arith, stats-use_all us (used (getting key) m))
  stats-use_all (deleting key ∷ us) m = stats-use_all us (used (deleting key) m)
