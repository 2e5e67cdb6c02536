-- ===== src/Management.antt =====
-- client.go: Get, Post, Put and Delete, which make a request and call Do; and the methods on the cache
-- (ClearCache, CleanExpiredCache, DeleteCacheEntry, WarmCache, CacheStats, Close).
pub mod Stats
mod Tests
use httpc.Prelude.{
  ℕ, ◌+◌, ◌%◌, ◌^◌, Bool, true, false, Option, none, some, List, [], ◌∷◌, ◌++◌, ltb, if◌then◌else◌,
}
use httpc.Prelude.Text.{Text, codes, text_eq}
use httpc.Prelude.Int.{ℤ}
use httpc.Errors.{Err, Result, ok, err, new, wrap}
use httpc.Disk.{Disk}
use httpc.FileCache.{World, DelCalls, del}
use httpc.FileCache.Upkeep.{ListCalls, clear, clean_expired, close, stats}
use httpc.MemoryCache.{BaseCache, MetricsMemoryCache, memory_del, memory_stats}
use httpc.Client.{
  Client, Backend, Body, Request, Response, Event, closed_body, Done, stopped, do_request,
}

-- http.NewRequestWithContext, at a method, a URL and a body, and the Set of a Content-Type header are
-- parameters.
module _ (backend : Backend) (new_request : Text → Text → Option Body → Result Request)
    (set_content_type : Text → Request → Request) where
  unfoldable pub client_get : Client → ℕ → ℕ → Text → Done
  client_get c asked answered url = elim (new_request (codes "GET") url none) [
    | err e ↦ stopped c.circuit_breaker [] (wrap "failed to create GET request" e)
    | ok req ↦ do_request backend c asked answered (some req)
  ]

  abbrev pub typed : Text → Request → Request
  typed content_type req =
      if text_eq content_type [] then req else set_content_type content_type req

  unfoldable pub client_post : Client → ℕ → ℕ → Text → Text → Option Body → Done
  client_post c asked answered url content_type body = elim (new_request (codes "POST") url body) [
    | err e ↦ stopped c.circuit_breaker [] (wrap "failed to create POST request" e)
    | ok req ↦ do_request backend c asked answered (some (typed content_type req))
  ]

  unfoldable pub client_put : Client → ℕ → ℕ → Text → Text → Option Body → Done
  client_put c asked answered url content_type body = elim (new_request (codes "PUT") url body) [
    | err e ↦ stopped c.circuit_breaker [] (wrap "failed to create PUT request" e)
    | ok req ↦ do_request backend c asked answered (some (typed content_type req))
  ]

  unfoldable pub client_delete : Client → ℕ → ℕ → Text → Done
  client_delete c asked answered url = elim (new_request (codes "DELETE") url none) [
    | err e ↦ stopped c.circuit_breaker [] (wrap "failed to create DELETE request" e)
    | ok req ↦ do_request backend c asked answered (some req)
  ]

  -- A URL to warm, with the times at which the breaker is asked and told.
  abbrev pub Target : Type 0
  Target = Text × (ℕ × ℕ)

  -- What WarmCache leaves: the client with its breaker, the events, and the number of errors.
  pub record Warmed : Type 0 where
    pub client : Client
    pub events : List Event
    pub errors : ℕ

  -- The body of a response is read to its end, and closed. (A response that is missing although there is no
  -- error would make WarmCache panic; it is left out.)
  abbrev pub drained : Option Response → List Event
  drained none = []
  drained (some r) = elim r.body [ none ↦ [] | some b ↦ closed_body (some b) ∷ [] ]

  -- one URL of the loop
  abbrev pub warm_one : Client → Target → Warmed
  warm_one c (url, (asked, answered)) =
      let got = client_get c asked answered url in
      let c' = record c { circuit_breaker = got.circuit_breaker } in
      elim got.returned.failure [
        | some e ↦ record { client = c'; events = got.events; errors = 1 }
        | none ↦ record {
          client = c';
          events = got.events ++ drained got.returned.response;
          errors = 0;
        }
      ]

  unfoldable pub warm_all : Client → List Target → Warmed
  warm_all c [] = record { client = c; events = []; errors = 0 }
  warm_all c (t ∷ ts) =
      let first = warm_one c t in
      let rest = warm_all first.client ts in
      record {
        client = rest.client;
        events = first.events ++ rest.events;
        errors = first.errors + rest.errors;
      }

  -- WarmCache; the first argument tells whether the client has a cache.
  unfoldable pub warm_cache : Bool → Client → List Target → Warmed × Option Err
  warm_cache false c ts =
      (record { client = c; events = []; errors = 0 }, some (new "cache not enabled"))
  warm_cache true c ts =
      let w = warm_all c ts in
      (w, if ltb 0 w.errors then some (new "encountered errors while warming cache") else none)

-- The cache of a client, which may be nil: on disk, or in memory over a base cache.
pub data Store (b : BaseCache) : Type 0 where
  disk_store : World → Store b
  memory_store : MetricsMemoryCache b → Store b

module _ (b : BaseCache) where
  abbrev pub on_world : World × Option Err → Option (Store b) × Option Err
  on_world (w, failure) = (some (disk_store w), failure)

  abbrev pub on_memory : MetricsMemoryCache b × Option Err → Option (Store b) × Option Err
  on_memory (m, failure) = (some (memory_store m), failure)

  unfoldable pub clear_cache : ListCalls → Option (Store b) → Option (Store b) × Option Err
  clear_cache calls none = (none, none)
  clear_cache calls (some (disk_store w)) = on_world (clear calls w)
  clear_cache calls (some (memory_store m)) =
      (some (memory_store m), some (new "cache clearing not supported for this cache type"))

  unfoldable pub clean_expired_cache :
      ListCalls → ℕ → Option (Store b) → Option (Store b) × Option Err
  clean_expired_cache calls now none = (none, none)
  clean_expired_cache calls now (some (disk_store w)) = on_world (clean_expired calls now w)
  clean_expired_cache calls now (some (memory_store m)) =
      (some (memory_store m), some (new "cache cleanup not supported for this cache type"))

  -- the URL is the key
  unfoldable pub delete_cache_entry :
      (Text → Text) → DelCalls → Text → Option (Store b) → Option (Store b) × Option Err
  delete_cache_entry digest calls url none = (none, none)
  delete_cache_entry digest calls url (some (disk_store w)) = on_world (del digest calls w url)
  delete_cache_entry digest calls url (some (memory_store m)) = on_memory (memory_del b m url)

  -- The hit rate is the fraction of the two numbers; uint64 sums wrap.
  pub record CacheStats : Type 0 where
    pub hits : ℕ
    pub misses : ℕ
    pub hit_rate : ℕ × ℕ

  abbrev pub rated : ℕ × ℕ → CacheStats
  rated (hits, misses) =
      let total = (hits + misses) % 2 ^ 64 in
      record {
        hits = hits;
        misses = misses;
        hit_rate = if ltb 0 total then (hits, total) else (0, 1);
      }

  unfoldable pub cache_stats : Option (Store b) → Option CacheStats
  cache_stats none = none
  cache_stats (some (disk_store w)) = some (rated (stats w.cache))
  cache_stats (some (memory_store m)) = some (rated (memory_stats b m))

  -- Client.Close: whether idle connections are closed, the cache, and the error
  unfoldable pub client_close :
      ListCalls → ℕ → Bool → Option (Store b) → Bool × (Option (Store b) × Option Err)
  client_close calls now owns none = (owns, (none, none))
  client_close calls now owns (some (disk_store w)) = (owns, on_world (close calls now w))
  client_close calls now owns (some (memory_store m)) = (owns, (some (memory_store m), none))
