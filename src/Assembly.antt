-- ===== src/Assembly.antt =====
-- client.go: how NewClient puts a client together (newRetryClient, newBaseTransport, urlPolicyTransport,
-- wrapTransport, setupTransport, newCache, newMemoryCache). Objects of other packages are
-- descriptions here: which layers there are, in which order, with which settings.
pub mod Redirects
pub mod Isolation
mod Tests
use httpc.Prelude.{
  ℕ, Bool, true, false, Option, none, some, List, [], ◌∷◌, ◌++◌, leb, is_some, if◌then◌else◌,
}
use httpc.Prelude.Text.{Text, codes, text_eq}
use httpc.Prelude.Int.{ℤ, pos, leb_ℤ}
use httpc.Errors.{Err, Result, ok, err, new}
use httpc.Breaker.{CircuitBreaker, new_circuit_breaker}
use httpc.Policy.{IpPolicy}
use httpc.Retry.{CheckRetry, Checked, wrap_check_retry}
use httpc.Url.{Platform, validate_url, validate_url_resolved}
use httpc.Defaults.{default_max_redirects, default_memory_cache_size}
use httpc.ClientConfig.{
  CacheType, memory, filesystem, other, ClientConfig, default_client_config, effective_ip_policy,
}
use httpc.Disk.{Disk}
use httpc.FileCache.{World}
use httpc.FileCache.Upkeep.{ListCalls}
use httpc.FileCache.Open.{FileCacheConfig, new_file_cache}

-- The settings of the retrying client: the policy on retries under the wrapper that counts them, and the
-- backoff and the handler of exhausted retries, which keep retryablehttp's own where the configuration has
-- none. Backoffs and handlers are those of retryablehttp, of any types.
pub record RetrySettings (B H : Type 0) : Type 0 where
  pub retry_max : ℤ
  pub retry_wait_min : ℤ
  pub retry_wait_max : ℤ
  pub check_retry : Option ℤ → Option Err → Checked
  pub backoff : B
  pub error_handler : H

-- newRetryClient, up to the logger
unfoldable pub retry_settings :
    {B H : Type 0}
    → ClientConfig
    → CheckRetry
    → Option CheckRetry
    → B
    → Option B
    → H
    → Option H
    → RetrySettings B H
retry_settings c default_policy check_retry own_backoff backoff own_handler handler = record {
  retry_max = c.retry_max;
  retry_wait_min = c.retry_wait_min;
  retry_wait_max = c.retry_wait_max;
  check_retry = wrap_check_retry default_policy check_retry;
  backoff = elim backoff [ none ↦ own_backoff | some b ↦ b ];
  error_handler = elim handler [ none ↦ own_handler | some h ↦ h ];
}

-- A RoundTripper, by its identity: an *http.Transport, or anything else.
pub data Transport : Type 0 where
  http_transport : ℕ → Transport
  foreign : ℕ → Transport

-- The innermost transport of a client: a clone with the policy in its dialers (Dial), or one that
-- has the policy on the URLs alone.
pub data Base : Type 0 where
  policy_transport : ℕ → Base
  url_policy_transport : Transport → Base

-- newBaseTransport; the arguments are config.Transport, http.DefaultTransport, and the transport of
-- the retrying client.
unfoldable pub new_base_transport : Option Transport → Transport → Option Transport → Base
new_base_transport (some (http_transport t)) default fallback = policy_transport t
new_base_transport (some (foreign t)) default fallback = url_policy_transport (foreign t)
new_base_transport none (http_transport t) fallback = policy_transport t
new_base_transport none (foreign t) none = url_policy_transport (foreign t)
new_base_transport none (foreign t) (some f) = url_policy_transport f

-- the idleCloser of newRetryClient: only a clone is the client's own
unfoldable pub owns_transport : Base → Bool
owns_transport (policy_transport t) = true
owns_transport (url_policy_transport t) = false

-- A layer of transports around the one below it.
pub data Layer : Type 0 where
  tracing metrics : Layer
  compression : ℤ → Layer  -- with its limit on a body
  caching : ℤ → Layer  -- with its TTL

-- wrapTransport, outermost first
unfoldable pub wrap_transport : ClientConfig → List Layer → List Layer
wrap_transport c below =
    if c.enable_compression
    then compression c.max_response_body_size ∷ metrics ∷ below
    else metrics ∷ below

-- setupTransport: the layers of the transport under the retries, the timeout of an attempt, and
-- the one of the whole client, that only a client with no cache has
pub record Wired : Type 0 where
  pub layers : List Layer
  pub attempt_timeout : ℤ
  pub client_timeout : Option ℤ

unfoldable pub setup_transport : ClientConfig → List Layer → Wired
unfolding wrap_transport
setup_transport c below =
    if c.enable_cache
    then record {
      layers = caching c.cache_ttl ∷ wrap_transport c below;
      attempt_timeout = c.timeout;
      client_timeout = none;
    }
    else record {
      layers = wrap_transport c below;
      attempt_timeout = c.timeout;
      client_timeout = some c.timeout;
    }

abbrev pub redirect_limit : ℤ → ℤ
redirect_limit n = if leb_ℤ n (pos 0) then default_max_redirects else n

-- A cache is on disk, or in memory with a size and a TTL.
pub data Cache : Type 0 where
  on_disk : World → Cache
  in_memory : ℤ → ℤ → Cache

-- newMemoryCache
unfoldable pub new_memory_cache : ClientConfig → Cache
new_memory_cache c =
    in_memory
      (if leb_ℤ c.memory_cache_size (pos 0) then default_memory_cache_size else c.memory_cache_size)
      c.cache_ttl

-- What NewClient needs of the platform: parsers and resolvers, os.UserHomeDir, filepath.Join, the
-- results of MkdirAll and of the listings, the files that are there, defaultCacheDir(), and the
-- fingerprint of a policy.
pub record Host : Type 0 where
  pub platform : Platform
  pub user_home_dir : Result Text
  pub join : Text → Text → Text
  pub mkdir_failure : Text → Option Err
  pub files : Text → Disk
  pub calls : ListCalls
  pub default_cache_dir : Text
  pub fingerprint : IpPolicy → Text

module _ (host : Host) where
  -- CheckRedirect, where `via` requests have been made
  unfoldable pub check_redirect : IpPolicy → ℤ → ℕ → Text → Option Err
  check_redirect policy max_redirects via url =
      if leb_ℤ (redirect_limit max_redirects) (pos via)
      then some (new "stopped after redirects")
      else validate_url host.platform (some policy) url

  -- urlPolicyTransport.RoundTrip: a request is its URL, and `base` the transport below
  unfoldable pub url_policy_round_trip {ℓ} :
      {A : Type ℓ} → IpPolicy → (Text → Result A) → Text → Result A
  url_policy_round_trip policy base url =
      elim (validate_url_resolved host.platform (some policy) url) [
        | some e ↦ err e
        | none ↦ base url
      ]

  abbrev pub key_prefix : ClientConfig → IpPolicy → Text
  key_prefix c policy = c.cache_key_prefix ++ (b'-' ∷ host.fingerprint policy)

  abbrev pub file_cache_config : ClientConfig → IpPolicy → FileCacheConfig
  file_cache_config c policy = record {
    dir = if text_eq c.cache_dir [] then host.default_cache_dir else c.cache_dir;
    ttl = c.cache_ttl;
    key_prefix = key_prefix c policy;
    max_size = c.max_cache_file_size;
    file_io_timeout = pos 0;
  }

  -- a cache on disk, or else one in memory
  abbrev pub disk_or_memory : ClientConfig → Result World → Cache
  disk_or_memory c (ok w) = on_disk w
  disk_or_memory c (err e) = new_memory_cache c

  unfoldable pub new_cache : ClientConfig → IpPolicy → Cache
  new_cache c policy = elim c.cache_type [
    | filesystem ↦ disk_or_memory c (
        new_file_cache host.user_home_dir host.join host.mkdir_failure host.files host.calls
          (some (file_cache_config c policy)))
    | memory ↦ new_memory_cache c
    | other name ↦ new_memory_cache c
  ]

  -- The parts of a client that NewClient makes.
  pub record Assembled : Type 0 where
    pub config : ClientConfig
    pub policy : IpPolicy
    pub base : Base
    pub wired : Wired
    pub cache : Option Cache
    pub circuit_breaker : Option CircuitBreaker

  unfoldable pub assemble :
      ClientConfig → Option Transport → Transport → Option Transport → Assembled
  assemble c transport default fallback = record {
    config = c;
    policy = effective_ip_policy c;
    base = new_base_transport transport default fallback;
    wired = setup_transport c (tracing ∷ []);
    cache = if c.enable_cache then some (new_cache c (effective_ip_policy c)) else none;
    circuit_breaker =
        if c.enable_circuit_breaker
        then some (new_circuit_breaker (some c.circuit_breaker_config))
        else none;
  }

  -- NewClient; a nil configuration is the default one
  unfoldable pub new_client :
      Option ClientConfig → Option Transport → Transport → Option Transport → Assembled
  new_client none transport default fallback =
      assemble (default_client_config host.default_cache_dir) none default fallback
  new_client (some c) transport default fallback = assemble c transport default fallback
