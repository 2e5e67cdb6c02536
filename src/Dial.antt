-- ===== src/Dial.antt =====
-- client.go: the hooks that policyTransport installs on a clone of an http.Transport (Proxy,
-- DialContext, DialTLSContext), with checkDialedConn, remoteIP and validateProxiedTarget. What
-- net.Dialer and the caller's dialers do is a parameter.
pub mod Judged
pub mod Proxied
pub mod RoundTrip
mod Tests
use httpc.Prelude.{
  ℕ, Bool, true, false, not, ◌&&◌, Option, none, some, List, [], ◌∷◌, is_some, if◌then◌else◌,
}
use httpc.Prelude.Text.{Text}
use httpc.Errors.{Err, sentinel, wrap, blocked_by_policy, is_dns_not_found, Result, ok, err}
use httpc.Net.{Ip}
use httpc.Policy.{IpPolicy, check_ip}
use httpc.Url.{Url, Platform, lower_host, validate_url_resolved, control}
use httpc.VerdictCache.{TargetVerdictCache, check}

-- What conn.RemoteAddr() is: a *net.UnixAddr; a TCP, UDP or IP address, whose IP may be nil; or
-- another type, by its String().
pub data RemoteAddr : Type 0 where
  unix_addr : RemoteAddr
  ip_addr : Option Ip → RemoteAddr
  other_addr : Text → RemoteAddr

pub record Conn : Type 0 where
  pub id : ℕ
  pub remote_addr : RemoteAddr

-- What a dial returns, both parts of which may be nil, and the connection that was closed on the way.
pub record Dialed : Type 0 where
  pub conn : Option Conn
  pub failure : Option Err
  pub closed : Option Conn

abbrev pub connected : Conn → Dialed
connected conn = record { conn = some conn; failure = none; closed = none }

abbrev pub hung_up : Conn → Err → Dialed
hung_up conn e = record { conn = none; failure = some e; closed = some conn }

-- A dial to an address. `dial_with` is the DialContext of a net.Dialer with, or without, a Control hook.
abbrev pub Dial : Type 0
Dial = Text → Dialed

abbrev pub DialWith : Type 0
DialWith = Option (Text → Option Err) → Dial

-- What Proxy returns: a proxy's URL or nil, or an error.
abbrev pub ProxyAnswer : Type 0
ProxyAnswer = Result (Option Text)

-- The answer of the Proxy hook, the verdicts, and the flag of the request's proxyMarker.
pub record Selected : Type 0 where
  pub answer : ProxyAnswer
  pub cache : TargetVerdictCache
  pub proxied : Bool

module _ (platform : Platform) (policy : IpPolicy) where
  unfoldable pub remote_ip : RemoteAddr → Option Ip
  remote_ip unix_addr = none
  remote_ip (ip_addr ip) = ip
  remote_ip (other_addr t) = elim (platform.split_host_port t) [
    | none ↦ none
    | some host ↦ platform.parse_ip host
  ]

  -- an address that can be read, or cannot
  abbrev pub judge_ip : Conn → Option Ip → Dialed
  judge_ip conn none =
      hung_up conn (wrap "cannot determine the address dialed" (sentinel blocked_by_policy))
  judge_ip conn (some ip) = elim (check_ip (some policy) ip) [
    | some e ↦ hung_up conn e
    | none ↦ connected conn
  ]

  abbrev pub judge_conn : Conn → RemoteAddr → Dialed
  judge_conn conn unix_addr = connected conn
  judge_conn conn (ip_addr ip) = judge_ip conn (remote_ip (ip_addr ip))
  judge_conn conn (other_addr t) = judge_ip conn (remote_ip (other_addr t))

  unfoldable pub check_dialed_conn : Option Conn → Dialed
  check_dialed_conn none = record {
    conn = none;
    failure = some (wrap "dialer returned no connection and no error" (sentinel blocked_by_policy));
    closed = none;
  }
  check_dialed_conn (some conn) = judge_conn conn conn.remote_addr

  -- `callerDial, callerDialTLS`: the context-aware hook, else the deprecated one.
  abbrev pub caller_dial_of : Option Dial → Option Dial → Option Dial
  caller_dial_of none legacy = legacy
  caller_dial_of (some d) legacy = some d

  -- a caller's dial, for a request that is proxied or not
  unfoldable pub checked_dial : Bool → Dial → Dial
  checked_dial proxied dial addr =
      let d = dial addr in
      if is_some d.failure then d else if proxied then d else check_dialed_conn d.conn

  -- clone.DialContext
  unfoldable pub dial_context : DialWith → Option Dial → Bool → Dial
  dial_context dial_with (some caller_dial) proxied addr = checked_dial proxied caller_dial addr
  dial_context dial_with none proxied addr =
      if proxied
      then dial_with none addr
      else dial_with (some (control platform (some policy))) addr

  -- clone.DialTLSContext, where the caller has a TLS dialer; where not, net/http dials with DialContext.
  unfoldable pub dial_tls_context : DialWith → Option Dial → Option Dial → Bool → Dial
  dial_tls_context dial_with caller_dial (some caller_dial_tls) proxied addr =
      checked_dial proxied caller_dial_tls addr
  dial_tls_context dial_with caller_dial none proxied addr =
      dial_context dial_with caller_dial proxied addr

  -- the `errors.As(err, &dnsErr) && dnsErr.IsNotFound` of a policy that trusts the proxy
  abbrev pub excused : Option Err → Option Err
  excused none = none
  excused (some e) = if policy.trust_proxy_resolution && is_dns_not_found e then none else some e

  -- the outcome, and the verdicts after it
  unfoldable pub validate_proxied_target :
      (Url → Text) → TargetVerdictCache → ℕ → Url → Option Err × TargetVerdictCache
  validate_proxied_target print_url cache now u =
      let outcome = validate_url_resolved platform (some policy) (print_url u) in
      let checked = check cache (lower_host platform u.hostname) now outcome in
      (excused checked.err, checked.cache)

  -- clone.Proxy, for the answer of the transport's own Proxy function
  unfoldable pub proxy_hook : (Url → Text) → TargetVerdictCache → ℕ → ProxyAnswer → Url → Selected
  proxy_hook print_url cache now (err e) u = record {
    answer = err e;
    cache = cache;
    proxied = false;
  }
  proxy_hook print_url cache now (ok none) u = record {
    answer = ok none;
    cache = cache;
    proxied = false;
  }
  proxy_hook print_url cache now (ok (some proxy)) u =
      let (failure, cache') = validate_proxied_target print_url cache now u in
      elim failure [
        | some e ↦ record { answer = err e; cache = cache'; proxied = false }
        | none ↦ record { answer = ok (some proxy); cache = cache'; proxied = true }
      ]
