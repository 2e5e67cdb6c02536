-- ===== src/Metrics.antt =====
-- metrics_transport.go: the labels of the metrics, and the transport that records them. Metrics are sent
-- to a collector that is the caller's: what it is told is a list of events.
pub mod Paths
pub mod Ends
pub mod Templates
pub mod Recorded
mod Tests
use httpc.Prelude.{
  ℕ, Bool, true, false, not, ◌&&◌, ◌||◌, Option, none, some, List, [], ◌∷◌, ◌++◌, map, length, all,
  replicate, ltb, leb, ◌==◌, is_some, if◌then◌else◌,
}
use httpc.Prelude.Text.{Text, codes, text_eq, split_on}
use httpc.Prelude.Int.{ℤ, pos, negsuc, ltb_ℤ}
use httpc.Errors.{Err, is_err, canceled, deadline_exceeded, conn_refused}

abbrev pub is_digit : ℕ → Bool
is_digit c = leb b'0' c && leb c b'9'

-- [0-9a-f] under (?i)
abbrev pub is_hex : ℕ → Bool
is_hex c = is_digit c || (leb b'a' c && leb c b'f') || (leb b'A' c && leb c b'F')

-- The groups of a UUID, as a list of tests
abbrev pub is_dash : ℕ → Bool
is_dash c = c == b'-'

abbrev pub uuid_shape : List (ℕ → Bool)
uuid_shape =
    replicate 8 is_hex
    ++ is_dash ∷ replicate 4 is_hex
    ++ is_dash ∷ replicate 4 is_hex
    ++ is_dash ∷ replicate 4 is_hex
    ++ is_dash ∷ replicate 12 is_hex

abbrev pub fits : List (ℕ → Bool) → Text → Bool
fits [] [] = true
fits [] (c ∷ t) = false
fits (p ∷ ps) [] = false
fits (p ∷ ps) (c ∷ t) = p c && fits ps t

unfoldable pub is_uuid : Text → Bool
is_uuid t = fits uuid_shape t

unfoldable pub is_sha : Text → Bool
is_sha t = all is_hex t && leb 40 (length t) && leb (length t) 64

unfoldable pub is_int : Text → Bool
is_int [] = false
is_int (c ∷ t) = all is_digit (c ∷ t)

-- The switch under "Apply patterns in order"
unfoldable pub template_of : Text → Text
template_of [] = []
template_of (c ∷ t) =
    if is_uuid (c ∷ t)
    then codes "{id}"
    else if is_sha (c ∷ t)
    then codes "{hash}"
    else if is_int (c ∷ t)
    then codes "{id}"
    else c ∷ t

-- strings.Trim, at a cutset of one byte
unfoldable pub trim_left : ℕ → Text → Text
trim_left sep [] = []
trim_left sep (c ∷ t) = let rest = trim_left sep t in if c == sep then rest else c ∷ t

abbrev pub put_front : ℕ → ℕ → Text → Text
put_front sep c [] = if c == sep then [] else c ∷ []
put_front sep c (d ∷ t) = c ∷ d ∷ t

unfoldable pub trim_right : ℕ → Text → Text
trim_right sep [] = []
trim_right sep (c ∷ t) = put_front sep c (trim_right sep t)

abbrev pub trim : ℕ → Text → Text
trim sep t = trim_right sep (trim_left sep t)

-- strings.Join
unfoldable pub join_with : ℕ → List Text → Text
join_with sep [] = []
join_with sep (s ∷ []) = s
join_with sep (s ∷ r ∷ ss) = s ++ sep ∷ join_with sep (r ∷ ss)

unfoldable pub parameterize_path : Text → Text
parameterize_path [] = []
parameterize_path (c ∷ t) =
    if text_eq (c ∷ t) (codes "/")
    then c ∷ t
    else b'/' ∷ join_with b'/' (map template_of (split_on b'/' (trim b'/' (c ∷ t))))

-- What url.URL says of itself: Scheme, Hostname, Port and Path.
pub record UrlView : Type 0 where
  pub scheme : Text
  pub hostname : Text
  pub port : Text
  pub path : Text

pub record Labels : Type 0 where
  pub host : Text
  pub path_template : Text

abbrev pub port_shown : UrlView → Bool
port_shown u =
    not (text_eq u.port [])
    && ((text_eq u.scheme (codes "http") && not (text_eq u.port (codes "80")))
        || (text_eq u.scheme (codes "https") && not (text_eq u.port (codes "443"))))

unfoldable pub extract_metric_labels : UrlView → Labels
extract_metric_labels u = record {
  host = if port_shown u then u.hostname ++ b':' ∷ u.port else u.hostname;
  path_template = parameterize_path u.path;
}

pub data ErrorType : Type 0 where
  context_canceled : ErrorType
  context_timeout : ErrorType
  network_timeout : ErrorType
  connection_refused : ErrorType
  dns_error : ErrorType
  unknown : ErrorType

pub record Request : Type 0 where
  pub method : Text
  pub url : UrlView
  pub has_body : Bool
  pub content_length : ℤ

pub record Response : Type 0 where
  pub status : ℤ
  pub content_length : ℤ

-- A method of Metrics, with the method and labels of the request; sizes are the integers that
-- the source turns into floats.
pub data Event : Type 0 where
  request_size : Text → Labels → ℤ → Event
  response_size : Text → Labels → ℤ → Event
  request_duration : Text → Labels → ℤ → ℤ → Event
  requests_total : Text → Labels → ℤ → Event
  errors_total : Text → Labels → ErrorType → Event

abbrev pub status_of : Option Response → ℤ
status_of none = negsuc 0
status_of (some r) = r.status

abbrev pub request_sizes : Request → Labels → List Event
request_sizes req labels =
    if req.has_body && ltb_ℤ (pos 0) req.content_length
    then request_size req.method labels req.content_length ∷ []
    else []

abbrev pub response_sizes : Request → Labels → Option Response → List Event
response_sizes req labels none = []
response_sizes req labels (some r) =
    if ltb_ℤ (pos 0) r.content_length
    then response_size req.method labels r.content_length ∷ []
    else []

-- Package net is a parameter: whether the chain has a net.Error that is a timeout, the Err of
-- its first *net.OpError, and whether it has a *net.DNSError.
module _ (net_timeout : Err → Bool) (op_error : Err → Option Err) (is_dns : Err → Bool) where
  unfoldable pub categorize_error : Err → ErrorType
  categorize_error e =
      if is_err canceled e
      then context_canceled
      else if is_err deadline_exceeded e
      then context_timeout
      else if net_timeout e
      then network_timeout
      else if elim (op_error e) [ none ↦ false | some inner ↦ is_err conn_refused inner ]
      then connection_refused
      else if is_dns e
      then dns_error
      else unknown

  abbrev pub errors : Request → Labels → Option Err → List Event
  errors req labels none = []
  errors req labels (some e) = errors_total req.method labels (categorize_error e) ∷ []

  -- The events, and the result; `elapsed` is the duration of the request, `base` the transport below.
  unfoldable pub metrics_round_trip :
      (Request → Option Response × Option Err)
      → ℤ
      → Request
      → List Event × (Option Response × Option Err)
  metrics_round_trip base elapsed req =
      let labels = extract_metric_labels req.url in
      let (resp, err) = base req in
      (
        request_sizes req labels
            ++ (response_sizes req labels resp
                ++ request_duration req.method labels (status_of resp) elapsed
                  ∷ requests_total req.method labels (status_of resp)
                  ∷ errors req labels err),
        (resp, err),
      )
