-- ===== src/Defaults.antt =====
-- defaults.go: the constants, in nanoseconds and bytes, and defaultCacheDir.
use httpc.Prelude.{ℕ, ◌*◌, List, [], ◌∷◌}
use httpc.Prelude.Text.{Text, codes}
use httpc.Prelude.Int.{ℤ, pos}
use httpc.Errors.{Result, ok, err}

abbrev pub second : ℕ
second = 1_000_000_000

abbrev pub default_timeout : ℤ
default_timeout = pos (30 * second)

abbrev pub default_retry_max : ℤ
default_retry_max = pos 3

abbrev pub default_retry_wait : ℤ
default_retry_wait = pos (1 * second)

abbrev pub default_retry_max_wait : ℤ
default_retry_max_wait = pos (30 * second)

abbrev pub default_cache_ttl : ℤ
default_cache_ttl = pos (10 * 60 * second)

abbrev pub default_cache_key_prefix : Text
default_cache_key_prefix = codes "httpc:"

abbrev pub default_max_response_body_size : ℤ
default_max_response_body_size = pos (100 * 1024 * 1024)

abbrev pub default_max_cache_file_size : ℤ
default_max_cache_file_size = pos (10 * 1024 * 1024)

abbrev pub default_memory_cache_size : ℤ
default_memory_cache_size = pos 1000

abbrev pub default_circuit_breaker_max_failures : ℤ
default_circuit_breaker_max_failures = pos 5

abbrev pub default_circuit_breaker_open_timeout : ℤ
default_circuit_breaker_open_timeout = pos (30 * second)

abbrev pub default_circuit_breaker_half_open_requests : ℤ
default_circuit_breaker_half_open_requests = pos 1

abbrev pub default_max_redirects : ℤ
default_max_redirects = pos 10

abbrev pub http_cache_dir_name : Text
http_cache_dir_name = codes "http-cache"

-- defaultCacheDir; os.UserCacheDir, os.TempDir and filepath.Join are parameters.
module _ (user_cache_dir : Result Text) (temp_dir : Text) (join : List Text → Text) where
  abbrev pub or_temp_dir : Result Text → Text
  or_temp_dir (ok dir) = dir
  or_temp_dir (err e) = temp_dir

  unfoldable pub default_cache_dir : Text
  default_cache_dir = join (or_temp_dir user_cache_dir ∷ codes "httpc" ∷ http_cache_dir_name ∷ [])
