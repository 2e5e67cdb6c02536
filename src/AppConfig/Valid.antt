-- ===== src/AppConfig/Valid.antt =====
-- appconfig.go, NewClientFromAppConfig: which configurations it accepts, and what it makes of them.
use httpc.Prelude.{
  String, ◌≡◌, ◌⊎◌, ◌↔◌, refl, inr, Bool, true, false, Option, none, some, List, [], arith, is_some,
  is_none,
}
use httpc.Prelude.Text.{Text, codes, text_eq}
use httpc.Prelude.Int.{ℤ}
use httpc.Policy.{IpPolicy}
use httpc.Url.{Platform, new_ip_policy}
use httpc.ClientConfig.{CacheType, default_client_config}
use httpc.Breaker.{Config}
use httpc.Errors.{Result, ok, err}
use httpc.AppConfig.{AppConfig, client_config, cidr_policy, duration, cache_type_of, breaker_config}

abbrev pub is_ok {ℓ} : {A : Type ℓ} → Result A → Bool
is_ok (ok a) = true
is_ok (err e) = false

module _ (platform : Platform) (parse_duration : Text → Option ℤ) where
  -- an empty text, or one that time.ParseDuration reads
  abbrev pub IsDuration : Text → Type 0
  IsDuration t = (text_eq t [] ≡ true) ⊎ (is_some (parse_duration t) ≡ true)

  abbrev pub IsCacheType : Text → Type 0
  IsCacheType t =
      (text_eq t [] ≡ true)
      ⊎ (text_eq t (codes "memory") ≡ true)
      ⊎ (text_eq t (codes "filesystem") ≡ true)

  abbrev pub HasCidrs : Option (List Text) → Type 0
  HasCidrs cidrs =
      (is_none cidrs ≡ true)
      ⊎ (cs : List Text) × (cidrs ≡ some cs) × (is_some (new_ip_policy platform cs) ≡ true)

  pub record IsValid (a : AppConfig) : Type 0 where
    pub timeout : IsDuration a.timeout
    pub retry_wait_min : IsDuration a.retry_wait_min
    pub retry_wait_max : IsDuration a.retry_wait_max
    pub cache_type : IsCacheType a.cache_type
    pub cache_ttl : IsDuration a.cache_ttl
    pub open_timeout : IsDuration a.circuit_breaker_open_timeout
    pub cidrs : HasCidrs a.allowed_private_cidrs

  duration_iff :
      (m : String) (t : Text) (now : ℤ)
      → (is_ok (duration platform parse_duration m t now) ≡ true) ↔ IsDuration t
  unfolding duration
  duration_iff m t now = (ground arith, ground arith)

  cache_type_iff :
      (t : Text) (now : CacheType)
      → (is_ok (cache_type_of platform parse_duration t now) ≡ true) ↔ IsCacheType t
  unfolding cache_type_of
  cache_type_iff t now = (ground arith, ground arith)

  breaker_iff :
      (a : AppConfig) (now : Config)
      → (is_ok (breaker_config platform parse_duration a now) ≡ true)
        ↔ IsDuration a.circuit_breaker_open_timeout
  unfolding breaker_config duration
  breaker_iff a now = (ground arith, ground arith)

  cidrs_iff :
      (cs : Option (List Text)) (now : Option IpPolicy)
      → (is_ok (cidr_policy platform parse_duration cs now) ≡ true) ↔ HasCidrs cs
  unfolding cidr_policy
  cidrs_iff none now = (ground arith, ground arith)
  cidrs_iff (some cs) now = (λ h. inr (cs, refl, ground arith), ground arith)

  -- A configuration is accepted just when each of its durations, the one of the circuit breaker
  -- included, is empty or is read by time.ParseDuration, its cache type is empty, "memory" or
  -- "filesystem", and its CIDR exceptions, where given, all parse.
  client_config_iff :
      (dir : Text) (a : AppConfig)
      → (is_ok (client_config platform parse_duration dir (some a)) ≡ true) ↔ IsValid a
  unfolding client_config
  client_config_iff dir a =
      let d = default_client_config dir in
      let t0 = duration_iff "invalid timeout duration" a.timeout d.timeout in
      let t1 = duration_iff "invalid retryWaitMin duration" a.retry_wait_min d.retry_wait_min in
      let t2 = duration_iff "invalid retryWaitMax duration" a.retry_wait_max d.retry_wait_max in
      let t3 = cache_type_iff a.cache_type d.cache_type in
      let t4 = duration_iff "invalid cacheTTL duration" a.cache_ttl d.cache_ttl in
      let t5 = breaker_iff a d.circuit_breaker_config in
      let t6 = cidrs_iff a.allowed_private_cidrs d.ip_policy in
      (
        λ h. record {
          timeout = t0.0 (ground arith);
          retry_wait_min = t1.0 (ground arith);
          retry_wait_max = t2.0 (ground arith);
          cache_type = t3.0 (ground arith);
          cache_ttl = t4.0 (ground arith);
          open_timeout = t5.0 (ground arith);
          cidrs = t6.0 (ground arith);
        },
        λ v.
            let o0 = t0.1 v.timeout in
            let o1 = t1.1 v.retry_wait_min in
            let o2 = t2.1 v.retry_wait_max in
            let o3 = t3.1 v.cache_type in
            let o4 = t4.1 v.cache_ttl in
            let o5 = t5.1 v.open_timeout in let o6 = t6.1 v.cidrs in ground arith,
      )
