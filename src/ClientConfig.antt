-- ===== src/ClientConfig.antt =====
-- client.go: ClientConfig, DefaultConfig and ipPolicy. Durations are
-- in nanoseconds. The fields that hold functions, loggers, metrics and transports are not part of it:
-- DefaultConfig leaves the hooks and policies nil, and the parts of the model that call them take
-- them as arguments.
use httpc.Prelude.{Bool, true, false, Option, none, some}
use httpc.Prelude.Text.{Text}
use httpc.Prelude.Int.{ℤ}
use httpc.Defaults.{
  default_timeout, default_retry_max, default_retry_wait, default_retry_max_wait, default_cache_ttl,
  default_cache_key_prefix, default_max_response_body_size, default_max_cache_file_size,
  default_memory_cache_size, default_max_redirects,
}
use httpc.Breaker.{Config, default_config}
use httpc.Policy.{IpPolicy, default_ip_policy, allow_all_private_ips}

pub data CacheType : Type 0 where
  memory filesystem : CacheType
  other : Text → CacheType

pub record ClientConfig : Type 0 where
  pub timeout : ℤ
  pub retry_max : ℤ
  pub retry_wait_min : ℤ
  pub retry_wait_max : ℤ
  pub enable_cache : Bool
  pub cache_type : CacheType
  pub cache_dir : Text
  pub cache_ttl : ℤ
  pub cache_key_prefix : Text
  pub max_cache_file_size : ℤ
  pub memory_cache_size : ℤ
  pub enable_circuit_breaker : Bool
  pub circuit_breaker_config : Config
  pub enable_compression : Bool
  pub allow_private_ips : Bool
  pub ip_policy : Option IpPolicy
  pub max_redirects : ℤ
  pub max_response_body_size : ℤ

-- DefaultConfig; the argument is defaultCacheDir()
unfoldable pub default_client_config : Text → ClientConfig
default_client_config cache_dir = record {
  timeout = default_timeout;
  retry_max = default_retry_max;
  retry_wait_min = default_retry_wait;
  retry_wait_max = default_retry_max_wait;
  enable_cache = true;
  cache_type = filesystem;
  cache_dir = cache_dir;
  cache_ttl = default_cache_ttl;
  cache_key_prefix = default_cache_key_prefix;
  max_cache_file_size = default_max_cache_file_size;
  memory_cache_size = default_memory_cache_size;
  enable_circuit_breaker = false;
  circuit_breaker_config = default_config;
  enable_compression = true;
  allow_private_ips = false;
  ip_policy = none;
  max_redirects = default_max_redirects;
  max_response_body_size = default_max_response_body_size;
}

-- ipPolicy: an explicit policy wins over the deprecated boolean.
unfoldable pub effective_ip_policy : ClientConfig → IpPolicy
effective_ip_policy c = elim c.ip_policy [
  | some p ↦ p
  | none ↦ elim c.allow_private_ips [ true ↦ allow_all_private_ips | false ↦ default_ip_policy ]
]
