-- ===== src/Compression.antt =====
-- compression.go, compressionTransport.RoundTrip: when it asks for gzip, and when it unpacks a response.
-- The transport below
-- and strings.EqualFold are parameters.
pub mod Transparent
mod Tests
use httpc.Prelude.{
  Bool, true, false, not, ◌&&◌, ◌||◌, Option, none, some, List, [], ◌∷◌, if◌then◌else◌,
}
use httpc.Prelude.Text.{Text, codes, text_eq}
use httpc.Prelude.Int.{ℤ, pos, negsuc, eqb_ℤ}
use httpc.Errors.{Err}

-- The parts of a request that RoundTrip reads or sets; a header that is not there is empty.
pub record Request : Type 0 where
  pub method : Text
  pub accept_encoding : Text
  pub range : Text

-- The body as the base transport gave it, or a gzipReadCloser over one, with its limit.
pub data Body : Type 0 where
  raw : Body
  gunzipped : Body → ℤ → Body

-- ContentLength is -1 where it is not known. The header Content-Length is there, or not.
pub record Response : Type 0 where
  pub content_encoding : Text
  pub content_length : ℤ
  pub content_length_header : Option Text
  pub body : Body
  pub uncompressed : Bool

pub data Tripped : Type 0 where
  responded : Response → Tripped
  failed : Err → Tripped

abbrev pub is_empty : Text → Bool
is_empty t = text_eq t []

module _ (equal_fold : Text → Text → Bool) (limit : ℤ) (base : Request → Tripped) where
  -- the condition on the request
  unfoldable pub add_gzip : Request → Bool
  add_gzip r =
      is_empty r.accept_encoding && is_empty r.range && not (text_eq r.method (codes "HEAD"))

  -- the request that is sent: a clone with the header, or the one given
  unfoldable pub to_send : Request → Request
  to_send r = if add_gzip r then record r { accept_encoding = codes "gzip" } else r

  abbrev pub is_gzip : Text → Bool
  is_gzip t = equal_fold t (codes "gzip")

  unfoldable pub unpack : Response → Response
  unpack r = record {
    content_encoding = [];
    content_length = negsuc 0;
    content_length_header = none;
    body = gunzipped r.body limit;
    uncompressed = true;
  }

  -- the response of the base transport, passed on or unpacked
  unfoldable pub handle : Request → Response → Response
  handle req r =
      if not (add_gzip req) || eqb_ℤ r.content_length (pos 0) || not (is_gzip r.content_encoding)
      then r
      else unpack r

  unfoldable pub round_trip : Request → Tripped
  round_trip req = elim (base (to_send req)) [
    | failed e ↦ failed e
    | responded r ↦ responded (handle req r)
  ]
