-- ===== src/Assembly/Tests.antt =====
-- Clients on a small host. A block is printed by its bytes, each plus 100, with a 0 before the mask.
use httpc.Prelude.{
  ℕ, ◌+◌, ◌-◌, ◌≡◌, refl, ap, true, Option, none, some, List, [], ◌∷◌, ◌++◌, take, length, arith,
}
use httpc.Prelude.Text.{Text, codes, text_eq}
use httpc.Prelude.Int.{pos}
use httpc.Errors.{new, err}
use httpc.Net.{Ip, IpNet, contains}
use httpc.Policy.{IpPolicy, default_ip_policy, check_ip}
use httpc.Url.Samples.{small}
use httpc.ClientConfig.{ClientConfig, default_client_config}
use httpc.FileCache.{World, key_to_filename}
use httpc.FileCache.Upkeep.{ListCalls, sum_sizes, update_cache_size_metric}
use httpc.FileCache.Open.{new_file_cache, expand_home}
use httpc.Fingerprint.{
  written, fingerprint, net_strings, sort_texts, insert_text, text_leb, cidr_lines,
}
use httpc.Fingerprint.Lines.{one_line}
use httpc.Assembly.{Host, on_disk, new_cache, check_redirect}
use httpc.Assembly.Redirects.{followed, permitted, limit, followed_lem}
use httpc.Assembly.Isolation.{Printer, print, shared_file}

abbrev shifted : List ℕ → Text
shifted [] = []
shifted (x ∷ xs) = (x + 100) ∷ shifted xs

abbrev net_string : IpNet → Text
net_string n = shifted n.ip ++ (0 ∷ shifted n.mask)

shifted_inj : (a b : List ℕ) → shifted a ≡ shifted b → a ≡ b
shifted_inj [] [] e = refl
shifted_inj [] (y ∷ b) e = absurd (ground arith)
shifted_inj (x ∷ a) [] e = absurd (ground arith)
shifted_inj (x ∷ a) (y ∷ b) e = ground (arith, shifted_inj a b)

pair_inj :
    (a b c d : List ℕ)
    → shifted a ++ (0 ∷ shifted b) ≡ shifted c ++ (0 ∷ shifted d)
    → (a ≡ c) × (b ≡ d)
pair_inj [] b [] d e = (refl, shifted_inj b d (ground arith))
pair_inj [] b (z ∷ c) d e = absurd (ground arith)
pair_inj (x ∷ a) b [] d e = absurd (ground arith)
pair_inj (x ∷ a) b (z ∷ c) d e = ground (arith, pair_inj a b c d)

net_law : (m n : IpNet) (ip : Ip) → net_string m ≡ net_string n → contains m ip ≡ contains n ip
net_law m n ip e =
    let (same_ip, same_mask) = pair_inj m.ip m.mask n.ip n.mask e in
    λ i. contains (record { ip = same_ip i; mask = same_mask i }) ip

shifted_line : (a b : List ℕ) → one_line (shifted a ++ (0 ∷ shifted b)) ≡ true
shifted_line [] [] = refl
shifted_line [] (y ∷ b) = ground (arith, shifted_line [] b)
shifted_line (x ∷ a) b = ground (arith, shifted_line a b)

abbrev printer : Printer
printer = record {
  resolver_identity = λ r. codes "default";
  net_string = net_string;
  short_digest = λ t. t;
}

abbrev calm_list : ListCalls
calm_list = record {
  list_failure = none;
  info_failure = λ name. none;
  remove_failure = λ name. none;
  sum_list_failure = none;
  sum_info_failure = λ name. none;
}

abbrev host : Host
host = record {
  platform = small;
  user_home_dir = err (new "no home");
  join = λ a b. a ++ b;
  mkdir_failure = λ dir. none;
  files = λ dir. [];
  calls = calm_list;
  default_cache_dir = codes "/tmp/http-cache";
  fingerprint = print printer;
}

abbrev ten : Option IpNet
ten = some (record { ip = 10 ∷ 0 ∷ 0 ∷ 0 ∷ []; mask = 255 ∷ 0 ∷ 0 ∷ 0 ∷ [] })

abbrev one_nine_two : Option IpNet
one_nine_two = some (record { ip = 192 ∷ 168 ∷ 0 ∷ 0 ∷ []; mask = 255 ∷ 255 ∷ 0 ∷ 0 ∷ [] })

abbrev first : IpPolicy
first = record default_ip_policy { allowed_cidrs = ten ∷ one_nine_two ∷ [] }

abbrev second : IpPolicy
second = record default_ip_policy { allowed_cidrs = one_nine_two ∷ ten ∷ [] }

abbrev config : ClientConfig
config = default_client_config (codes "/tmp/http-cache")

abbrev made : IpPolicy → World
made p = record {
  cache = record {
    dir = codes "/tmp/http-cache";
    ttl = config.cache_ttl;
    key_prefix = config.cache_key_prefix ++ (b'-' ∷ print printer p);
    max_size = config.max_cache_file_size;
    file_io_timeout = pos 5_000_000_000;
    hits = 0;
    misses = 0;
    cached_size = pos 0;
    hits_metric = 0;
    misses_metric = 0;
    size_metric = pos 0;
  };
  disk = [];
}

made-eq : (p : IpPolicy) → new_cache host config p ≡ on_disk (made p)
unfolding new_cache new_file_cache expand_home default_client_config update_cache_size_metric
    sum_sizes text_eq
made-eq p = refl

abbrev digest : Text → Text
digest t = 0 ∷ t

digest_injective : (a b : Text) → digest a ≡ digest b → a ≡ b
digest_injective a b e = ground arith

abbrev key : Text
key = codes "http://a.b/"

same_print : print printer first ≡ print printer second
unfolding fingerprint written net_strings sort_texts insert_text text_leb cidr_lines
same_print = refl

same_file :
    key_to_filename digest (made first).cache key ≡ key_to_filename digest (made second).cache key
unfolding key_to_filename
same_file = ap (λ t. digest ((config.cache_key_prefix ++ (b'-' ∷ t)) ++ key)) same_print

unhash :
    print printer first ≡ print printer second
    → written printer.resolver_identity printer.net_string (some first)
      ≡ written printer.resolver_identity printer.net_string (some second)
unfolding fingerprint
unhash e = e

shared_file_example :
    (key ≡ key)
    × ((check_ip (some first) (10 ∷ 0 ∷ 0 ∷ 1 ∷ []) ≡ check_ip (some second) (10 ∷ 0 ∷ 0 ∷ 1 ∷ []))
        × ((first.trust_proxy_resolution ≡ second.trust_proxy_resolution)
            × (printer.resolver_identity first.resolver
                ≡ printer.resolver_identity second.resolver)))
shared_file_example =
    shared_file host digest printer config config first second (made first) (made second) key key
      (10 ∷ 0 ∷ 0 ∷ 1 ∷ []) digest_injective (λ p. refl) net_law (λ n. shifted_line n.ip n.mask)
      refl refl (ap length same_print) unhash refl (made-eq first) (made-eq second) same_file

abbrev urls : List Text
urls = codes "elsewhere" ∷ codes "10.0.0.1" ∷ codes "beyond" ∷ []

followed_lem_example :
    followed host default_ip_policy (pos 3) 1 urls
    ≡ take
        (limit host default_ip_policy (pos 3) - 1)
        (permitted host default_ip_policy (pos 3) urls)
followed_lem_example = followed_lem host default_ip_policy (pos 3) urls

-- A limit of 1 follows no redirect.
none_followed : followed host default_ip_policy (pos 1) 1 urls ≡ []
unfolding check_redirect
none_followed = refl
