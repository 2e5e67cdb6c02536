-- ===== src/Dial/Tests.antt =====
-- The dial hooks and the Proxy hook on concrete connections, and the theorems at inputs.
use httpc.Prelude.{◌≡◌, ◌⊎◌, ◌↔◌, inl, inr, refl, true, false, none, some, arith, Option-cases}
use httpc.Prelude.Text.{Text, codes, text_eq}
use httpc.Errors.{Err, ok, err}
use httpc.Net.{contains, cidr, to4, to16}
use httpc.Policy.{
  allow_all_private_ips, default_ip_policy, check_ip, check_ip_fuel, check_body, embedded_ipv4,
  metadata_ip_nets, non_decodable_ip_nets, private_ip_nets, allows, check_private,
}
use httpc.Url.{strip_zone, dialed_host, control}
use httpc.Url.Samples.{small, url_of}
use httpc.VerdictCache.{empty}
use httpc.Dial.{
  ip_addr, Conn, Dialed, Dial, DialWith, connected, remote_ip, check_dialed_conn, checked_dial,
  dial_context, dial_tls_context, proxy_hook,
}
use httpc.Dial.Judged.{IsPermittedPeer, CallsControl, dialed_permitted}
use httpc.Dial.Proxied.{verdict, IsExcused, marked_iff}

abbrev inside : Text
inside = codes "10.0.0.1"

abbrev peer : Text → Conn
peer a = record {
  id = 1;
  remote_addr = ip_addr (small.parse_ip (strip_zone (dialed_host small a)));
}

abbrev refused_dial : Err → Dialed
refused_dial e = record { conn = none; failure = some e; closed = none }

-- a net.Dialer that connects to every address that its Control hook lets pass
abbrev dial_any : DialWith
dial_any none addr = connected (peer addr)
dial_any (some check) addr = elim (check addr) [
  | some e ↦ refused_dial e
  | none ↦ connected (peer addr)
]

dial_any-CallsControl : CallsControl small allow_all_private_ips dial_any
dial_any-CallsControl check addr conn h = elim (Option-cases (check addr)) [
  | inl e ↦ (addr, e, ground arith)
  | inr (f, e) ↦ absurd (ground arith)
]

-- A caller's dialer that reached a private address: the default policy closes the connection.
abbrev reach_inside : Dial
reach_inside addr = connected (peer addr)

inside_closed :
    (dial_tls_context small default_ip_policy dial_any (some reach_inside) none false inside).closed
    ≡ some (peer inside)
unfolding dial_tls_context dial_context checked_dial check_dialed_conn remote_ip strip_zone text_eq
    check_ip check_ip_fuel check_body check_private allows embedded_ipv4 metadata_ip_nets
    non_decodable_ip_nets private_ip_nets contains cidr to4 to16
inside_closed = refl

dialed_permitted_example : IsPermittedPeer small allow_all_private_ips (peer inside)
unfolding dial_tls_context dial_context control strip_zone text_eq check_ip check_ip_fuel check_body
    embedded_ipv4 metadata_ip_nets non_decodable_ip_nets contains to16
dialed_permitted_example =
    dialed_permitted small allow_all_private_ips dial_any none none inside (peer inside)
      dial_any-CallsControl refl refl

marked_iff_example :
    let s =
      proxy_hook small default_ip_policy
        (λ u. u.hostname)
        empty
        0
        (ok (some (codes "proxy")))
        (url_of inside) in
    ((s.proxied ≡ true) ↔ (
      (proxy : Text) × (ok (some (codes "proxy")) ≡ ok (some proxy))
      × IsExcused small default_ip_policy
          (λ u. u.hostname)
          (verdict small default_ip_policy (λ u. u.hostname) empty 0 (url_of inside))))
    × ((s.proxied ≡ false) → (s.answer ≡ ok none) ⊎ (e : Err) × (s.answer ≡ err e))
marked_iff_example =
    marked_iff small default_ip_policy (λ u. u.hostname) empty 0 (ok (some (codes "proxy")))
      (url_of inside)
