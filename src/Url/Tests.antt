-- ===== src/Url/Tests.antt =====
-- ValidateURL and ControlFunc on concrete texts, with a small platform, and the theorems at inputs.
use httpc.Prelude.{◌≡◌, ◌↔◌, ◌⊎◌, refl, true, false, none, some, []}
use httpc.Prelude.Text.{Text, codes, text_eq, split_on}
use httpc.Errors.{Err, sentinel, wrap, is_err, blocked_by_policy}
use httpc.Net.{Ip}
use httpc.Policy.{check_ip}
use httpc.Url.{
  Url, strip_zone, is_non_canonical, lower_host, host_alias, validate_parts, validate_url,
  validate_url_resolved, resolver_of, dialed_host, control,
}
use httpc.Url.Samples.{small, url_of}
use httpc.Url.Accepted.{IsAccepted, validate_url_iff, validate_url-blocked}
use httpc.Url.Dialed.{
  IsLiteral, ResolvesToPermitted, validate_url_resolved_iff, control_iff, control-blocked,
}

abbrev imds_name : Text
imds_name = codes "METADATA.google.internal."

spellings :
    (is_non_canonical (codes "0x7f000001") ≡ true)
    × (is_non_canonical (codes "0177.0.0.1") ≡ true)
    × (is_non_canonical (codes "127.0.0.1") ≡ false)
    × (is_non_canonical (codes "017.0.0.0.1") ≡ false)
    × (strip_zone (codes "fe80::1%eth0") ≡ codes "fe80::1")
    × (host_alias small (codes "LocalHost.") ≡ codes "localhost")
unfolding is_non_canonical split_on strip_zone host_alias
spellings = (refl, refl, refl, refl, refl, refl)

validate_url_iff_example :
    (validate_url small none (codes "a.example") ≡ none)
    ↔ ((u : Url) × (small.parse_url (codes "a.example") ≡ some u) × IsAccepted small none u)
validate_url_iff_example = validate_url_iff small none (codes "a.example")

abbrev no_host : Err
no_host = wrap "URL has no host" (sentinel blocked_by_policy)

validate_url-blocked_example : is_err blocked_by_policy no_host ≡ true
unfolding validate_url validate_parts lower_host text_eq
validate_url-blocked_example = validate_url-blocked small none [] (url_of []) no_host refl refl

validate_url_resolved_iff_example : (validate_url_resolved small none (codes "inside") ≡ none) ↔ (
    (validate_url small none (codes "inside") ≡ none)
    × (IsLiteral small none (url_of (codes "inside"))
        ⊎ ResolvesToPermitted small none
            (resolver_of small none (lower_host small (codes "inside")))))
validate_url_resolved_iff_example =
    validate_url_resolved_iff small none (codes "inside") (url_of (codes "inside")) refl

control_iff_example : (control small none (codes "10.0.0.1") ≡ none) ↔ (
    (ip : Ip) × (small.parse_ip (strip_zone (dialed_host small (codes "10.0.0.1"))) ≡ some ip)
    × (check_ip none ip ≡ none))
control_iff_example = control_iff small none (codes "10.0.0.1")

abbrev unresolvable : Err
unresolvable = wrap "refusing to dial unresolvable address" (sentinel blocked_by_policy)

control-blocked_example : is_err blocked_by_policy unresolvable ≡ true
unfolding control strip_zone text_eq
control-blocked_example = control-blocked small none (codes "a.example") unresolvable refl
