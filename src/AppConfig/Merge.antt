-- ===== src/AppConfig/Merge.antt =====
-- appconfig.go, MergeAppConfig: layers of configuration can be merged in any grouping.
use httpc.Prelude.{◌≡◌, refl, ap, Option, none, some, [], arith}
use httpc.Prelude.Text.{Text, text_eq}
use httpc.Prelude.Int.{ℤ, pos}
use httpc.AppConfig.{AppConfig, merge, merge_app_config, pick, pick_int, pick_text}

pick_text_assoc : (a b c : Text) → pick_text (pick_text a b) c ≡ pick_text a (pick_text b c)
pick_text_assoc a b c = ground arith

pick_int_assoc : (a b c : ℤ) → pick_int (pick_int a b) c ≡ pick_int a (pick_int b c)
pick_int_assoc a b c = ground arith

pick_assoc {ℓ} : {A : Type ℓ} (a b c : Option A) → pick (pick a b) c ≡ pick a (pick b c)
pick_assoc a b none = refl
pick_assoc a b (some x) = refl

merge_assoc : (a b c : AppConfig) → merge (merge a b) c ≡ merge a (merge b c)
unfolding merge
merge_assoc a b c = λ i. record {
  timeout = pick_text_assoc a.timeout b.timeout c.timeout i;
  retry_max = pick_int_assoc a.retry_max b.retry_max c.retry_max i;
  retry_wait_min = pick_text_assoc a.retry_wait_min b.retry_wait_min c.retry_wait_min i;
  retry_wait_max = pick_text_assoc a.retry_wait_max b.retry_wait_max c.retry_wait_max i;
  enable_cache = pick_assoc a.enable_cache b.enable_cache c.enable_cache i;
  cache_type = pick_text_assoc a.cache_type b.cache_type c.cache_type i;
  cache_dir = pick_text_assoc a.cache_dir b.cache_dir c.cache_dir i;
  cache_ttl = pick_text_assoc a.cache_ttl b.cache_ttl c.cache_ttl i;
  cache_key_prefix = pick_text_assoc a.cache_key_prefix b.cache_key_prefix c.cache_key_prefix i;
  max_cache_file_size =
      pick_int_assoc a.max_cache_file_size b.max_cache_file_size c.max_cache_file_size i;
  memory_cache_size = pick_int_assoc a.memory_cache_size b.memory_cache_size c.memory_cache_size i;
  enable_circuit_breaker =
      pick_assoc a.enable_circuit_breaker b.enable_circuit_breaker c.enable_circuit_breaker i;
  circuit_breaker_max_failures =
      pick_int_assoc a.circuit_breaker_max_failures b.circuit_breaker_max_failures
        c.circuit_breaker_max_failures i;
  circuit_breaker_open_timeout =
      pick_text_assoc a.circuit_breaker_open_timeout b.circuit_breaker_open_timeout
        c.circuit_breaker_open_timeout i;
  circuit_breaker_half_open_max_requests =
      pick_int_assoc a.circuit_breaker_half_open_max_requests
        b.circuit_breaker_half_open_max_requests c.circuit_breaker_half_open_max_requests i;
  enable_compression = pick_assoc a.enable_compression b.enable_compression c.enable_compression i;
  allow_private_ips = pick_assoc a.allow_private_ips b.allow_private_ips c.allow_private_ips i;
  allowed_private_cidrs =
      pick_assoc a.allowed_private_cidrs b.allowed_private_cidrs c.allowed_private_cidrs i;
  trust_proxy_resolution =
      pick_assoc a.trust_proxy_resolution b.trust_proxy_resolution c.trust_proxy_resolution i;
  max_response_body_size =
      pick_int_assoc a.max_response_body_size b.max_response_body_size c.max_response_body_size i;
}

-- Layers of configuration, some of which may be nil, merge to the same configuration in whatever
-- grouping: merging is associative, and nil is its unit on both sides.
merge_app_config_monoid :
    (a b c : Option AppConfig)
    → (merge_app_config (merge_app_config a b) c ≡ merge_app_config a (merge_app_config b c))
      × (merge_app_config a none ≡ a)
      × (merge_app_config none a ≡ a)
unfolding merge_app_config
merge_app_config_monoid a b c = (assoc a b c, refl, left a)
  where
    assoc :
        (a b c : Option AppConfig)
        → merge_app_config (merge_app_config a b) c ≡ merge_app_config a (merge_app_config b c)
    assoc a b none = refl
    assoc a none (some c) = refl
    assoc none (some b) (some c) = refl
    assoc (some a) (some b) (some c) = ap some (merge_assoc a b c)

    left : (a : Option AppConfig) → merge_app_config none a ≡ a
    left none = refl
    left (some a) = refl

-- The configuration that sets nothing.
abbrev pub unset : AppConfig
unset = record {
  timeout = [];
  retry_max = pos 0;
  retry_wait_min = [];
  retry_wait_max = [];
  enable_cache = none;
  cache_type = [];
  cache_dir = [];
  cache_ttl = [];
  cache_key_prefix = [];
  max_cache_file_size = pos 0;
  memory_cache_size = pos 0;
  enable_circuit_breaker = none;
  circuit_breaker_max_failures = pos 0;
  circuit_breaker_open_timeout = [];
  circuit_breaker_half_open_max_requests = pos 0;
  enable_compression = none;
  allow_private_ips = none;
  allowed_private_cidrs = none;
  trust_proxy_resolution = none;
  max_response_body_size = pos 0;
}

-- A layer that sets nothing changes nothing, and a set layer merged twice is merged once.
pub merge-unset_idem : (a o : AppConfig) → (merge a unset ≡ a) × (merge (merge a o) o ≡ merge a o)
unfolding merge text_eq
merge-unset_idem a o = (
  refl,
  λ i. record {
    timeout = text_again a.timeout o.timeout i;
    retry_max = int_again a.retry_max o.retry_max i;
    retry_wait_min = text_again a.retry_wait_min o.retry_wait_min i;
    retry_wait_max = text_again a.retry_wait_max o.retry_wait_max i;
    enable_cache = again a.enable_cache o.enable_cache i;
    cache_type = text_again a.cache_type o.cache_type i;
    cache_dir = text_again a.cache_dir o.cache_dir i;
    cache_ttl = text_again a.cache_ttl o.cache_ttl i;
    cache_key_prefix = text_again a.cache_key_prefix o.cache_key_prefix i;
    max_cache_file_size = int_again a.max_cache_file_size o.max_cache_file_size i;
    memory_cache_size = int_again a.memory_cache_size o.memory_cache_size i;
    enable_circuit_breaker = again a.enable_circuit_breaker o.enable_circuit_breaker i;
    circuit_breaker_max_failures =
        int_again a.circuit_breaker_max_failures o.circuit_breaker_max_failures i;
    circuit_breaker_open_timeout =
        text_again a.circuit_breaker_open_timeout o.circuit_breaker_open_timeout i;
    circuit_breaker_half_open_max_requests =
        int_again a.circuit_breaker_half_open_max_requests o.circuit_breaker_half_open_max_requests
          i;
    enable_compression = again a.enable_compression o.enable_compression i;
    allow_private_ips = again a.allow_private_ips o.allow_private_ips i;
    allowed_private_cidrs = again a.allowed_private_cidrs o.allowed_private_cidrs i;
    trust_proxy_resolution = again a.trust_proxy_resolution o.trust_proxy_resolution i;
    max_response_body_size = int_again a.max_response_body_size o.max_response_body_size i;
  },
)
  where
    text_again : (a b : Text) → pick_text (pick_text a b) b ≡ pick_text a b
    text_again a b = ground arith

    int_again : (a b : ℤ) → pick_int (pick_int a b) b ≡ pick_int a b
    int_again a b = ground arith

    again : {A : Type 0} (a b : Option A) → pick (pick a b) b ≡ pick a b
    again a none = refl
    again a (some x) = refl
