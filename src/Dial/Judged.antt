-- ===== src/Dial/Judged.antt =====
-- client.go, DialContext and DialTLSContext: a request that is not proxied reaches permitted
-- addresses only.
use httpc.Prelude.{◌≡◌, ◌⊎◌, refl, inl, inr, false, Option, none, some, arith, Option-cases}
use httpc.Prelude.Text.{Text}
use httpc.Errors.{Err}
use httpc.Net.{Ip}
use httpc.Policy.{IpPolicy, check_ip}
use httpc.Url.{Platform, control, strip_zone, dialed_host}
use httpc.Url.Dialed.{control_iff}
use httpc.Dial.{
  RemoteAddr, unix_addr, ip_addr, other_addr, Conn, Dial, DialWith, remote_ip, check_dialed_conn,
  judge_conn, judge_ip, checked_dial, dial_context, dial_tls_context,
}

module _ (platform : Platform) (policy : IpPolicy) where
  -- The peer of a connection is a Unix socket, or an IP address that CheckIP permits.
  abbrev pub IsPermittedPeer : Conn → Type 0
  IsPermittedPeer conn =
      (conn.remote_addr ≡ unix_addr)
      ⊎ (ip : Ip) × (remote_ip platform policy conn.remote_addr ≡ some ip)
        × (check_ip (some policy) ip ≡ none)

  judge_ip-permitted :
      (conn conn' : Conn) (found : Option Ip)
      → (judge_ip platform policy conn found).conn ≡ some conn'
      → (conn ≡ conn') × (ip : Ip) × (found ≡ some ip) × (check_ip (some policy) ip ≡ none)
  judge_ip-permitted conn conn' none h = ground arith
  judge_ip-permitted conn conn' (some ip) h = (ground arith, ip, refl, ground arith)

  peer_of :
      (conn conn' : Conn) (a : RemoteAddr) (ip : Ip)
      → conn ≡ conn'
      → conn.remote_addr ≡ a
      → remote_ip platform policy a ≡ some ip
      → remote_ip platform policy conn'.remote_addr ≡ some ip
  peer_of conn conn' a ip same e f = cc

  judge-permitted :
      (conn conn' : Conn) (a : RemoteAddr)
      → conn.remote_addr ≡ a
      → (judge_conn platform policy conn a).conn ≡ some conn'
      → IsPermittedPeer conn'
  judge-permitted conn conn' unix_addr e h = inl (ground arith)
  judge-permitted conn conn' (ip_addr i) e h =
      let (same, ip, f, g) =
        judge_ip-permitted conn conn' (remote_ip platform policy (ip_addr i)) h in
      inr (ip, peer_of conn conn' _ ip same e f, g)
  judge-permitted conn conn' (other_addr t) e h =
      let (same, ip, f, g) =
        judge_ip-permitted conn conn' (remote_ip platform policy (other_addr t)) h in
      inr (ip, peer_of conn conn' _ ip same e f, g)

  checked-permitted :
      (dial : Dial) (addr : Text) (conn : Conn)
      → (checked_dial platform policy false dial addr).conn ≡ some conn
      → (checked_dial platform policy false dial addr).failure ≡ none
      → IsPermittedPeer conn
  unfolding checked_dial check_dialed_conn
  checked-permitted dial addr conn h k = elim (Option-cases (dial addr).failure) [
    | inr (f, e) ↦ absurd (ground arith)
    | inl e ↦ elim (Option-cases (dial addr).conn) [
      | inl f ↦ absurd (ground arith)
      | inr (c, f) ↦ judge-permitted c conn c.remote_addr refl (ground arith)
    ]
  ]

  -- net.Dialer calls Control with the address before it connects to it, and connects only where Control
  -- returns nil: the peer is the IP of an address that Control let pass.
  abbrev pub CallsControl : DialWith → Type 0
  CallsControl dial_with =
      (check : Text → Option Err) (addr : Text) (conn : Conn)
      → (dial_with (some check) addr).conn ≡ some conn
      → (a : Text) × (check a ≡ none)
        × (conn.remote_addr ≡ ip_addr (platform.parse_ip (strip_zone (dialed_host platform a))))

  -- For a request with no proxy, each connection that the dial hooks return without an error, by the
  -- caller's dialer or by net.Dialer, with TLS or not, has a peer that the policy permits: a Unix
  -- socket, or an IP address that CheckIP passes.
  pub dialed_permitted :
      (dial_with : DialWith) (caller_dial caller_dial_tls : Option Dial) (addr : Text) (conn : Conn)
      → CallsControl dial_with
      → (dial_tls_context platform policy dial_with caller_dial caller_dial_tls false addr).conn
        ≡ some conn
      → (dial_tls_context platform policy dial_with caller_dial caller_dial_tls false addr).failure
        ≡ none
      → IsPermittedPeer conn
  unfolding dial_tls_context dial_context remote_ip
  dialed_permitted dial_with d (some tls) addr conn calls h k = checked-permitted tls addr conn h k
  dialed_permitted dial_with (some d) none addr conn calls h k = checked-permitted d addr conn h k
  dialed_permitted dial_with none none addr conn calls h k =
      let (a, passed, peer) = calls (control platform (some policy)) addr conn h in
      let (ip, parsed, permitted) = (control_iff platform (some policy) a).0 passed in
      inr (ip, rw (peer, remote_ip) parsed, permitted)
