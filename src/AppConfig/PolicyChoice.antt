-- ===== src/AppConfig/PolicyChoice.antt =====
-- appconfig.go and client.go: which SSRF policy a client built from an AppConfig obeys.
use httpc.Prelude.{◌≡◌, Bool, true, false, Option, none, some, List, arith}
use httpc.Prelude.Text.{Text}
use httpc.Prelude.Int.{ℤ}
use httpc.Policy.{IpPolicy, default_ip_policy, allow_all_private_ips}
use httpc.Url.{Platform, new_ip_policy}
use httpc.ClientConfig.{ClientConfig, default_client_config, effective_ip_policy}
use httpc.Errors.{ok}
use httpc.AppConfig.{AppConfig, client_config, cidr_policy}

-- The policy that the documentation of the settings promises: the exceptions where they are given,
-- else what the deprecated Boolean says; with the flag for proxies on top.
abbrev pub base_policy : Option Bool → Option IpPolicy → IpPolicy
base_policy b (some p) = p
base_policy (some true) none = allow_all_private_ips
base_policy (some false) none = default_ip_policy
base_policy none none = default_ip_policy

abbrev pub with_trust : Option Bool → IpPolicy → IpPolicy
with_trust none p = p
with_trust (some b) p = record p { trust_proxy_resolution = b }

module _ (platform : Platform) (parse_duration : Text → Option ℤ) where
  abbrev pub exceptions : Option (List Text) → Option IpPolicy
  exceptions none = none
  exceptions (some cidrs) = new_ip_policy platform cidrs

  -- A client built from a configuration obeys this policy: where a list of CIDR exceptions is given,
  -- the policy of that list, whatever allowPrivateIPs says; where none is given, the policy that
  -- allowPrivateIPs asks for, the default being the strict one. In both cases
  -- trustProxyResolution, where set, only sets that flag.
  pub client_policy_lem :
      (dir : Text) (a : AppConfig) (c : ClientConfig)
      → client_config platform parse_duration dir (some a) ≡ ok c
      → effective_ip_policy c
        ≡ with_trust a.trust_proxy_resolution
            (base_policy a.allow_private_ips (exceptions a.allowed_private_cidrs))
  unfolding client_config default_client_config effective_ip_policy cidr_policy
  client_policy_lem dir a c h = ground arith
