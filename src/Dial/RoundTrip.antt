-- ===== src/Dial/RoundTrip.antt =====
-- client.go, markingTransport: a round trip of the transport that policyTransport returns. net/http asks
-- Proxy and then dials, and does both again where it tries a request again on a new connection;
-- the request's proxyMarker is made once for all its attempts.
pub mod Guarded
mod Tests
use httpc.Prelude.{ℕ, Bool, true, false, ◌||◌, Option, none, some, List, [], ◌∷◌, if◌then◌else◌}
use httpc.Prelude.Text.{Text}
use httpc.Errors.{Err, ok, err}
use httpc.Policy.{IpPolicy}
use httpc.Url.{Url, Platform}
use httpc.VerdictCache.{TargetVerdictCache}
use httpc.Dial.{Dial, DialWith, Dialed, ProxyAnswer, proxy_hook, dial_tls_context}

-- An http.Transport that a client was given: net.Dialer, and the dialers of the caller.
pub record Dialers : Type 0 where
  pub dial_with : DialWith
  pub caller_dial : Option Dial
  pub caller_dial_tls : Option Dial

-- What net/http brings to an attempt: the answer of the transport's own Proxy function, the time, the address
-- that it dials for the answer of the hook, of the target or of the proxy, and whether it dials that
-- for TLS, as the scheme of the target or of the proxy has it.
pub record Attempt : Type 0 where
  pub chosen : ProxyAnswer
  pub now : ℕ
  pub address : Option Text → Text
  pub is_tls : Option Text → Bool

-- The TLS dialer of the caller, where the attempt comes to use it: any other dial goes through DialContext.
abbrev pub tls_dialer : Dialers → Attempt → Option Text → Option Dial
tls_dialer t a proxy = if a.is_tls proxy then t.caller_dial_tls else none

-- An attempt that came to a dial: the verdicts and the time at which the hook decided, the proxy, if one is
-- used, and the outcome.
pub record Contact : Type 0 where
  pub verdicts : TargetVerdictCache
  pub now : ℕ
  pub proxy : Option Text
  pub dialed : Dialed

-- The marker, the verdicts on targets, and what was dialed.
pub record Tried : Type 0 where
  pub marked : Bool
  pub cache : TargetVerdictCache
  pub contact : Option Contact

module _ (platform : Platform) (policy : IpPolicy) (print_url : Url → Text) (t : Dialers)
    (u : Url) where
  unfoldable pub attempt : Bool → TargetVerdictCache → Attempt → Tried
  attempt marked cache a =
      let s = proxy_hook platform policy print_url cache a.now a.chosen u in
      let marked' = marked || s.proxied in
      elim s.answer [
        | err e ↦ record { marked = marked'; cache = s.cache; contact = none }
        | ok proxy ↦ record {
          marked = marked';
          cache = s.cache;
          contact = some (record {
            verdicts = cache;
            now = a.now;
            proxy = proxy;
            dialed =
                dial_tls_context platform policy t.dial_with t.caller_dial (tls_dialer t a proxy)
                  marked' (a.address proxy);
          });
        }
      ]

  unfoldable pub attempts : Bool → TargetVerdictCache → List Attempt → List (Option Contact)
  attempts marked cache [] = []
  attempts marked cache (a ∷ rest) =
      let tried = attempt marked cache a in tried.contact ∷ attempts tried.marked tried.cache rest

  -- markingTransport.RoundTrip
  unfoldable pub marking_round_trip : TargetVerdictCache → List Attempt → List (Option Contact)
  marking_round_trip cache tries = attempts false cache tries
