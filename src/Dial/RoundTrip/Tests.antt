-- ===== src/Dial/RoundTrip/Tests.antt =====
-- A round trip of two attempts, the first through a proxy.
use httpc.Prelude.{◌≡◌, refl, inl, inr, none, true, false, some, [], ◌∷◌, arith, Option-cases}
use httpc.Prelude.Text.{Text, codes, text_eq, split_on}
use httpc.Prelude.Dict.{lookup}
use httpc.Errors.{ok, Err}
use httpc.Net.{contains, cidr, to4, to16}
use httpc.Policy.{
  allow_all_private_ips, check_ip, check_ip_fuel, check_body, embedded_ipv4, metadata_ip_nets,
  non_decodable_ip_nets,
}
use httpc.Url.{
  Url, strip_zone, dialed_host, validate_url, validate_parts, validate_host, lower_host, host_alias,
  is_non_canonical, trim_dot, validate_url_resolved, resolve_parts,
}
use httpc.Url.Samples.{small, url_of}
use httpc.VerdictCache.{empty, check}
use httpc.Dial.{ip_addr, Conn, Dialed, DialWith, connected}
use httpc.Dial.Judged.{CallsControl}
use httpc.Dial.Proxied.{verdict, IsExcused}
use httpc.Dial.RoundTrip.{Dialers, Attempt, Contact, marking_round_trip}
use httpc.Dial.RoundTrip.Guarded.{AllGuarded, marking_round_trip-AllGuarded, marker_sticks}

abbrev inside : Url
inside = url_of (codes "10.0.0.1")

abbrev print : Url → Text
print u = u.hostname

abbrev peer : Text → Conn
peer a = record {
  id = 1;
  remote_addr = ip_addr (small.parse_ip (strip_zone (dialed_host small a)));
}

abbrev refused_dial : Err → Dialed
refused_dial e = record { conn = none; failure = some e; closed = none }

-- a net.Dialer that connects wherever its Control hook lets it
abbrev dial_any : DialWith
dial_any none addr = connected (peer addr)
dial_any (some check) addr = elim (check addr) [
  | some e ↦ refused_dial e
  | none ↦ connected (peer addr)
]

dial_any-CallsControl : CallsControl small allow_all_private_ips dial_any
dial_any-CallsControl check addr conn h = elim (Option-cases (check addr)) [
  | inl e ↦ (addr, e, ground arith)
  | inr (f, e) ↦ absurd (ground arith)
]

abbrev plain : Dialers
plain = record { dial_with = dial_any; caller_dial = none; caller_dial_tls = none }

abbrev by_proxy : Attempt
by_proxy = record {
  chosen = ok (some (codes "proxy"));
  now = 5;
  address = λ p. codes "10.0.0.2";
  is_tls = λ p. false;
}

abbrev by_itself : Attempt
by_itself = record {
  chosen = ok none;
  now = 6;
  address = λ p. codes "10.0.0.1";
  is_tls = λ p. true;
}

marking_round_trip-AllGuarded_example : AllGuarded small allow_all_private_ips print plain inside (
    marking_round_trip small allow_all_private_ips print plain inside empty
      (by_itself ∷ by_proxy ∷ by_proxy ∷ []))
marking_round_trip-AllGuarded_example =
    marking_round_trip-AllGuarded small allow_all_private_ips print plain inside empty
      (by_itself ∷ by_proxy ∷ by_proxy ∷ []) dial_any-CallsControl
      (
        λ proxy e. absurd (ground arith),
        (λ proxy e. (λ f. absurd (ground arith), tt), (λ proxy e. tt, tt)),
      )

passes :
    IsExcused small allow_all_private_ips print
      (verdict small allow_all_private_ips print empty 5 inside)
unfolding check lookup validate_url_resolved resolve_parts validate_url validate_parts validate_host
    lower_host host_alias strip_zone is_non_canonical text_eq split_on trim_dot check_ip
    check_ip_fuel check_body embedded_ipv4 metadata_ip_nets non_decodable_ip_nets contains cidr to4
    to16
passes = inl refl

marker_sticks_example :
    (first second : Contact) × (marking_round_trip small allow_all_private_ips print plain inside
        empty
        (by_proxy ∷ by_itself ∷ [])
      ≡ some first ∷ some second ∷ [])
    × (second.proxy ≡ none)
    × (second.dialed ≡ connected (peer (codes "10.0.0.1")))
marker_sticks_example =
    marker_sticks small allow_all_private_ips print plain inside empty by_proxy by_itself
      (codes "proxy") refl passes refl refl refl
