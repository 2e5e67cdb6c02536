-- ===== src/Assembly/Isolation.antt =====
-- client.go, newCache, and ssrf.go, fingerprint: clients that share a cache directory.
use httpc.Prelude.{
  ◌≡◌, refl, ap, inl, inr, sym, ◌∙◌, true, Option, some, [], ◌∷◌, ◌++◌, length, append_assoc,
  append_cancel, arith,
}
use httpc.Prelude.Text.{Text}
use httpc.Errors.{ok, Result-cases}
use httpc.Net.{Ip, IpNet, contains}
use httpc.Policy.{IpPolicy, Lookup, check_ip}
use httpc.ClientConfig.{ClientConfig}
use httpc.FileCache.{World, key_to_filename}
use httpc.FileCache.Upkeep.{ListCalls, update_cache_size_metric}
use httpc.FileCache.Open.{FileCacheConfig, expand_home, fresh_cache, new_file_cache}
use httpc.Fingerprint.{written, fingerprint}
use httpc.Fingerprint.Lines.{one_line}
use httpc.Fingerprint.Verdicts.{written-eq}
use httpc.Assembly.{Host, file_cache_config, on_disk, new_cache, new_memory_cache, key_prefix}

append_inj : (a b s t : Text) → length a ≡ length b → a ++ s ≡ b ++ t → (a ≡ b) × (s ≡ t)
append_inj [] [] s t h e = (refl, e)
append_inj [] (y ∷ b) s t h e = absurd (ground arith)
append_inj (x ∷ a) [] s t h e = absurd (ground arith)
append_inj (x ∷ a) (y ∷ b) s t h e = ground (arith, append_inj a b s t)

-- The keys of a cache on disk have the prefix of its configuration ...
update-cache :
    (calls : ListCalls) (w : World)
    → (update_cache_size_metric calls w).cache.key_prefix ≡ w.cache.key_prefix
unfolding update_cache_size_metric
update-cache calls w = ground arith

new_file_cache-prefix :
    (host : Host) (config : FileCacheConfig) (w : World)
    → new_file_cache host.user_home_dir host.join host.mkdir_failure host.files host.calls
        (some config)
      ≡ ok w
    → w.cache.key_prefix ≡ config.key_prefix
unfolding new_file_cache
new_file_cache-prefix host config w e =
    elim (Result-cases (expand_home host.user_home_dir host.join config.dir)) [
      | inl (dir, expanded) ↦
          let made : World = record {
            cache = fresh_cache host.user_home_dir host.join config dir;
            disk = host.files dir;
          } in
          ground (arith, expanded, update-cache host.calls made)
      | inr (failure, failed) ↦ absurd (ground (arith, failed))
    ]

module _ (host : Host) where
  -- ... which is the one of its client's policy.
  new_cache-prefix :
      (c : ClientConfig) (policy : IpPolicy) (w : World)
      → new_cache host c policy ≡ on_disk w
      → w.cache.key_prefix ≡ key_prefix host c policy
  unfolding new_cache new_memory_cache
  new_cache-prefix c policy w e =
      let config = file_cache_config host c policy in
      elim (Result-cases (
        new_file_cache host.user_home_dir host.join host.mkdir_failure host.files host.calls
          (some config))) [
            | inl (v, made) ↦ ground (arith, made, new_file_cache-prefix host config v made)
            | inr (failure, failed) ↦ absurd (ground (arith, failed))
          ]

-- What a fingerprint stands on: the identity of resolvers, IPNet.String, and the digest.
pub record Printer : Type 0 where
  pub resolver_identity : Option (Text → Lookup) → Text
  pub net_string : IpNet → Text
  pub short_digest : Text → Text

abbrev pub print : Printer → IpPolicy → Text
print r p = fingerprint r.resolver_identity r.net_string r.short_digest (some p)

module _ (host : Host) (digest : Text → Text) (r : Printer) where
  prefixes-inj :
      (c d : ClientConfig) (p q : IpPolicy) (k l : Text)
      → c.cache_key_prefix ≡ d.cache_key_prefix
      → length (host.fingerprint p) ≡ length (host.fingerprint q)
      → key_prefix host c p ++ k ≡ key_prefix host d q ++ l
      → (host.fingerprint p ≡ host.fingerprint q) × (k ≡ l)
  prefixes-inj c d p q k l same h e =
      let P = c.cache_key_prefix in
      let Q = d.cache_key_prefix in
      let tails : (b'-' ∷ host.fingerprint p) ++ k ≡ (b'-' ∷ host.fingerprint q) ++ l =
        append_cancel P _ _ (
          sym (append_assoc P (b'-' ∷ host.fingerprint p) k)
          ∙ e
          ∙ append_assoc Q (b'-' ∷ host.fingerprint q) l
          ∙ ap (λ t. t ++ ((b'-' ∷ host.fingerprint q) ++ l)) (sym same)) in
      append_inj (host.fingerprint p) (host.fingerprint q) k l h (ground (arith, tails))

  -- Two clients with the same CacheKeyPrefix, each with a cache on disk: where they use one file, for keys
  -- of theirs, the keys are the same, and their policies give the same verdict on every address, trust a
  -- proxy's resolution alike, and have resolvers of the same identity. So no client reads a response that
  -- another stored under a policy that decides otherwise. This takes of the digest of file names that it has
  -- no collisions, and of the fingerprint's that it has none between the two policies, and equal lengths; of
  -- IPNet.String that equal texts mean blocks with the same addresses; and of that text and of the resolvers'
  -- identities that they have no semicolon.
  pub shared_file :
      (c d : ClientConfig) (p q : IpPolicy) (v w : World) (k l : Text) (ip : Ip)
      → ((a b : Text) → digest a ≡ digest b → a ≡ b)
      → ((policy : IpPolicy) → host.fingerprint policy ≡ print r policy)
      → ((m n : IpNet) (ip : Ip) → r.net_string m ≡ r.net_string n → contains m ip ≡ contains n ip)
      → ((n : IpNet) → one_line (r.net_string n) ≡ true)
      → one_line (r.resolver_identity p.resolver) ≡ true
      → one_line (r.resolver_identity q.resolver) ≡ true
      → length (print r p) ≡ length (print r q)
      → (print r p ≡ print r q
          → written r.resolver_identity r.net_string (some p)
            ≡ written r.resolver_identity r.net_string (some q))
      → c.cache_key_prefix ≡ d.cache_key_prefix
      → new_cache host c p ≡ on_disk v
      → new_cache host d q ≡ on_disk w
      → key_to_filename digest v.cache k ≡ key_to_filename digest w.cache l
      → (k ≡ l)
        × ((check_ip (some p) ip ≡ check_ip (some q) ip)
            × ((p.trust_proxy_resolution ≡ q.trust_proxy_resolution)
                × (r.resolver_identity p.resolver ≡ r.resolver_identity q.resolver)))
  unfolding key_to_filename
  shared_file c d p q v w k l ip injective fingerprints net_law net_line line_p line_q long
        no_collision same made made' e =
      let names : v.cache.key_prefix ++ k ≡ w.cache.key_prefix ++ l =
        injective (v.cache.key_prefix ++ k) (w.cache.key_prefix ++ l) e in
      let prefixed : key_prefix host c p ++ k ≡ key_prefix host d q ++ l =
        ap (λ t. t ++ k) (sym (new_cache-prefix host c p v made))
        ∙ names
        ∙ ap (λ t. t ++ l) (new_cache-prefix host d q w made') in
      let lengths : length (host.fingerprint p) ≡ length (host.fingerprint q) =
        ap length (fingerprints p) ∙ long ∙ sym (ap length (fingerprints q)) in
      let (same_print, same_key) = prefixes-inj c d p q k l same lengths prefixed in
      let hashed = no_collision (sym (fingerprints p) ∙ same_print ∙ fingerprints q) in
      (
        same_key,
        written-eq r.resolver_identity r.net_string net_law p q ip net_line line_p line_q hashed,
      )
