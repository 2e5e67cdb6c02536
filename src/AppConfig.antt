-- ===== src/AppConfig.antt =====
-- appconfig.go: MergeAppConfig, and the configuration that NewClientFromAppConfig builds a client from.
-- A *bool and a slice that may be nil are options; time.ParseDuration is the parameter `parse_duration`.
pub mod Merge
pub mod Valid
pub mod PolicyChoice
mod Tests
use httpc.Prelude.{
  ℕ, String, Bool, true, false, not, ◌||◌, Option, none, some, List, [], if◌then◌else◌,
}
use httpc.Prelude.Text.{Text, codes, text_eq}
use httpc.Prelude.Int.{ℤ, pos, ltb_ℤ}
use httpc.Errors.{Err, new, wrap, Result, ok, err, ◌>>=◌}
use httpc.Breaker.{Config, default_config}
use httpc.Policy.{IpPolicy}
use httpc.Url.{Platform, new_ip_policy}
use httpc.ClientConfig.{
  ClientConfig, CacheType, memory, filesystem, default_client_config, effective_ip_policy,
}

pub record AppConfig : Type 0 where
  pub timeout : Text
  pub retry_max : ℤ
  pub retry_wait_min : Text
  pub retry_wait_max : Text
  pub enable_cache : Option Bool
  pub cache_type : Text
  pub cache_dir : Text
  pub cache_ttl : Text
  pub cache_key_prefix : Text
  pub max_cache_file_size : ℤ
  pub memory_cache_size : ℤ
  pub enable_circuit_breaker : Option Bool
  pub circuit_breaker_max_failures : ℤ
  pub circuit_breaker_open_timeout : Text
  pub circuit_breaker_half_open_max_requests : ℤ
  pub enable_compression : Option Bool
  pub allow_private_ips : Option Bool
  pub allowed_private_cidrs : Option (List Text)
  pub trust_proxy_resolution : Option Bool
  pub max_response_body_size : ℤ

-- `if override.X != "" { merged.X = override.X }`, and so for the other kinds of field
abbrev pub pick_text : Text → Text → Text
pick_text base override = if text_eq override [] then base else override

abbrev pub is_positive : ℤ → Bool
is_positive z = ltb_ℤ (pos 0) z

abbrev pub pick_int : ℤ → ℤ → ℤ
pick_int base override = if is_positive override then override else base

abbrev pub pick {ℓ} : {A : Type ℓ} → Option A → Option A → Option A
pick base none = base
pick base (some a) = some a

unfoldable pub merge : AppConfig → AppConfig → AppConfig
merge b o = record {
  timeout = pick_text b.timeout o.timeout;
  retry_max = pick_int b.retry_max o.retry_max;
  retry_wait_min = pick_text b.retry_wait_min o.retry_wait_min;
  retry_wait_max = pick_text b.retry_wait_max o.retry_wait_max;
  enable_cache = pick b.enable_cache o.enable_cache;
  cache_type = pick_text b.cache_type o.cache_type;
  cache_dir = pick_text b.cache_dir o.cache_dir;
  cache_ttl = pick_text b.cache_ttl o.cache_ttl;
  cache_key_prefix = pick_text b.cache_key_prefix o.cache_key_prefix;
  max_cache_file_size = pick_int b.max_cache_file_size o.max_cache_file_size;
  memory_cache_size = pick_int b.memory_cache_size o.memory_cache_size;
  enable_circuit_breaker = pick b.enable_circuit_breaker o.enable_circuit_breaker;
  circuit_breaker_max_failures =
      pick_int b.circuit_breaker_max_failures o.circuit_breaker_max_failures;
  circuit_breaker_open_timeout =
      pick_text b.circuit_breaker_open_timeout o.circuit_breaker_open_timeout;
  circuit_breaker_half_open_max_requests =
      pick_int b.circuit_breaker_half_open_max_requests o.circuit_breaker_half_open_max_requests;
  enable_compression = pick b.enable_compression o.enable_compression;
  allow_private_ips = pick b.allow_private_ips o.allow_private_ips;
  allowed_private_cidrs = pick b.allowed_private_cidrs o.allowed_private_cidrs;
  trust_proxy_resolution = pick b.trust_proxy_resolution o.trust_proxy_resolution;
  max_response_body_size = pick_int b.max_response_body_size o.max_response_body_size;
}

-- MergeAppConfig: a nil side gives the other one.
unfoldable pub merge_app_config : Option AppConfig → Option AppConfig → Option AppConfig
unfolding merge
merge_app_config base none = base
merge_app_config none (some o) = some o
merge_app_config (some b) (some o) = some (merge b o)

module _ (platform : Platform) (parse_duration : Text → Option ℤ) where
  -- An empty text keeps the value that is there; any other is parsed.
  unfoldable pub duration : String → Text → ℤ → Result ℤ
  duration message t now = if text_eq t [] then ok now else elim (parse_duration t) [
    | none ↦ err (wrap message (new "time: invalid duration"))
    | some d ↦ ok d
  ]

  unfoldable pub cache_type_of : Text → CacheType → Result CacheType
  cache_type_of t now =
      if text_eq t []
      then ok now
      else if text_eq t (codes "memory")
      then ok memory
      else if text_eq t (codes "filesystem")
      then ok filesystem
      else err (new "invalid cacheType")

  abbrev pub set_bool : Bool → Option Bool → Bool
  set_bool now none = now
  set_bool now (some b) = b

  -- the block under "Apply circuit breaker settings"
  unfoldable pub breaker_config : AppConfig → Config → Result Config
  unfolding duration
  breaker_config a now =
      if is_positive a.circuit_breaker_max_failures
        || not (text_eq a.circuit_breaker_open_timeout [])
        || is_positive a.circuit_breaker_half_open_max_requests
      then (do
        open_timeout ←
            duration "invalid circuitBreakerOpenTimeout duration" a.circuit_breaker_open_timeout
              default_config.open_timeout
        ok (record {
          max_failures = pick_int default_config.max_failures a.circuit_breaker_max_failures;
          open_timeout = open_timeout;
          half_open_max_requests =
              pick_int default_config.half_open_max_requests
                a.circuit_breaker_half_open_max_requests;
        }))
      else ok now

  -- AllowedPrivateCIDRs: only an absent list leaves the policy unset.
  unfoldable pub cidr_policy : Option (List Text) → Option IpPolicy → Result (Option IpPolicy)
  cidr_policy none now = ok now
  cidr_policy (some cidrs) now = elim (new_ip_policy platform cidrs) [
    | none ↦ err (wrap "invalid allowedPrivateCIDRs" (new "invalid allowed CIDR"))
    | some p ↦ ok (some p)
  ]

  -- TrustProxyResolution: a copy of the policy that the configuration resolves to, with the flag.
  abbrev pub trust : Option Bool → ClientConfig → ClientConfig
  trust none c = c
  trust (some b) c = record c {
    ip_policy = some (record (effective_ip_policy c) { trust_proxy_resolution = b });
  }

  -- NewClientFromAppConfig, up to the call of NewClient
  unfoldable pub client_config : Text → Option AppConfig → Result ClientConfig
  client_config cache_dir none = ok (default_client_config cache_dir)
  client_config cache_dir (some a) = do
    let d = default_client_config cache_dir
    timeout ← duration "invalid timeout duration" a.timeout d.timeout
    wait_min ← duration "invalid retryWaitMin duration" a.retry_wait_min d.retry_wait_min
    wait_max ← duration "invalid retryWaitMax duration" a.retry_wait_max d.retry_wait_max
    cache_type ← cache_type_of a.cache_type d.cache_type
    ttl ← duration "invalid cacheTTL duration" a.cache_ttl d.cache_ttl
    breaker ← breaker_config a d.circuit_breaker_config
    policy ← cidr_policy a.allowed_private_cidrs d.ip_policy
    ok
        (record (trust a.trust_proxy_resolution (record d {
          allow_private_ips = set_bool d.allow_private_ips a.allow_private_ips;
          ip_policy = policy;
        })) {
          timeout = timeout;
          retry_max = pick_int d.retry_max a.retry_max;
          retry_wait_min = wait_min;
          retry_wait_max = wait_max;
          enable_cache = set_bool d.enable_cache a.enable_cache;
          cache_type = cache_type;
          cache_dir = pick_text d.cache_dir a.cache_dir;
          cache_ttl = ttl;
          cache_key_prefix = pick_text d.cache_key_prefix a.cache_key_prefix;
          max_cache_file_size = pick_int d.max_cache_file_size a.max_cache_file_size;
          memory_cache_size = pick_int d.memory_cache_size a.memory_cache_size;
          enable_circuit_breaker = set_bool d.enable_circuit_breaker a.enable_circuit_breaker;
          circuit_breaker_config = breaker;
          enable_compression = set_bool d.enable_compression a.enable_compression;
          max_response_body_size = pick_int d.max_response_body_size a.max_response_body_size;
        })
