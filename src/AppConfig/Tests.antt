-- ===== src/AppConfig/Tests.antt =====
-- MergeAppConfig and the client configuration on concrete layers, and the theorems at inputs.
use httpc.Prelude.{◌≡◌, refl, true, Option, none, some, [], if◌then◌else◌}
use httpc.Prelude.Text.{Text, codes, text_eq}
use httpc.Prelude.Int.{ℤ, pos}
use httpc.Errors.{new}
use httpc.Policy.{allow_all_private_ips, failed}
use httpc.Url.{Platform}
use httpc.ClientConfig.{ClientConfig, default_client_config, effective_ip_policy}
use httpc.AppConfig.{
  AppConfig, merge, client_config, duration, cache_type_of, breaker_config, cidr_policy,
}
use httpc.AppConfig.Merge.{unset, merge-unset_idem}
use httpc.AppConfig.PolicyChoice.{client_policy_lem}

abbrev no_platform : Platform
no_platform = record {
  parse_url = λ raw. none;
  parse_ip = λ t. none;
  parse_cidr = λ t. none;
  split_host_port = λ t. none;
  default_resolver = λ t. failed (new "no such host");
  lower_rune = λ c. c;
}

abbrev seconds : Text → Option ℤ
seconds t = if text_eq t (codes "5s") then some (pos 5_000_000_000) else none

abbrev layer : AppConfig
layer = record unset { timeout = codes "5s"; retry_max = pos 7; allow_private_ips = some true }

abbrev other_layer : AppConfig
other_layer = record unset { retry_max = pos 2; cache_type = codes "memory" }

later_wins :
    ((merge layer other_layer).retry_max ≡ pos 2) × ((merge layer other_layer).timeout ≡ codes "5s")
unfolding merge text_eq
later_wins = (refl, refl)

merge-unset_idem_example :
    (merge layer unset ≡ layer)
    × (merge (merge layer other_layer) other_layer ≡ merge layer other_layer)
merge-unset_idem_example = merge-unset_idem layer other_layer

abbrev layer_client : ClientConfig
layer_client = record (default_client_config []) {
  timeout = pos 5_000_000_000;
  retry_max = pos 7;
  allow_private_ips = true;
}

client_policy_lem_example : effective_ip_policy layer_client ≡ allow_all_private_ips
unfolding client_config duration cache_type_of breaker_config cidr_policy text_eq
    default_client_config
client_policy_lem_example = client_policy_lem no_platform seconds [] layer layer_client refl
