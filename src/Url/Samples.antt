-- ===== src/Url/Samples.antt =====
-- A small platform on which the tests run the URL checks and the dials.
use httpc.Prelude.{none, some, [], ◌∷◌, if◌then◌else◌}
use httpc.Prelude.Text.{Text, codes, text_eq}
use httpc.Errors.{new}
use httpc.Policy.{addresses, failed}
use httpc.Url.{Url, Platform}

abbrev pub url_of : Text → Url
url_of host = record { scheme = codes "http"; hostname = host; port = []; path = [] }

-- A text is read as its host; one literal is known, and one name resolves to it.
abbrev pub small : Platform
small = record {
  parse_url = λ raw. some (url_of raw);
  parse_ip = λ t. if text_eq t (codes "10.0.0.1") then some (10 ∷ 0 ∷ 0 ∷ 1 ∷ []) else none;
  parse_cidr = λ t. none;
  split_host_port = λ t. none;
  default_resolver = λ t.
      if text_eq t (codes "inside")
      then addresses ((10 ∷ 0 ∷ 0 ∷ 1 ∷ []) ∷ [])
      else failed (new "no such host");
  lower_rune = λ c. c;
}
