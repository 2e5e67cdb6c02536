-- ===== src/Compression/Tests.antt =====
-- RoundTrip over a server that packs, and the theorem at an input.
use httpc.Prelude.{◌≡◌, ◌↔◌, refl, true, false, none, some, [], if◌then◌else◌}
use httpc.Prelude.Text.{codes, text_eq}
use httpc.Prelude.Int.{pos, negsuc}
use httpc.Compression.{
  Request, Response, raw, gunzipped, unpack, Tripped, responded, add_gzip, to_send, handle,
  round_trip,
}
use httpc.Compression.Transparent.{IsUnpacked, IsUnpacked-iff}

abbrev packed_page : Response
packed_page = record {
  content_encoding = codes "gzip";
  content_length = pos 20;
  content_length_header = some (codes "20");
  body = raw;
  uncompressed = false;
}

abbrev page : Response
page = record packed_page {
  content_encoding = [];
  content_length = pos 40;
  content_length_header = some (codes "40");
}

abbrev server : Request → Tripped
server r =
    if text_eq r.accept_encoding (codes "gzip") then responded packed_page else responded page

abbrev get : Request
get = record { method = codes "GET"; accept_encoding = []; range = [] }

abbrev identity : Request
identity = record get { accept_encoding = codes "identity" }

-- packed on the wire, unpacked for the caller; and left alone where the caller asked
unpacks :
    (round_trip text_eq (pos 100) server get
      ≡ responded (unpack text_eq (pos 100) server packed_page))
    × (round_trip text_eq (pos 100) server identity ≡ responded page)
unfolding round_trip handle to_send add_gzip text_eq
unpacks = (refl, refl)

IsUnpacked-iff_example :
    (out : Response) × (round_trip text_eq (pos 100) server get ≡ responded out)
    × ((out.uncompressed ≡ true) ↔ IsUnpacked text_eq (pos 100) server get packed_page)
    × ((IsUnpacked text_eq (pos 100) server get packed_page → ⊥) → out ≡ packed_page)
    × (IsUnpacked text_eq (pos 100) server get packed_page
        → out ≡ record {
          content_encoding = [];
          content_length = negsuc 0;
          content_length_header = none;
          body = gunzipped raw (pos 100);
          uncompressed = true;
        })
    × ((add_gzip text_eq (pos 100) server get ≡ false) → to_send text_eq (pos 100) server get ≡ get)
unfolding to_send add_gzip text_eq
IsUnpacked-iff_example = IsUnpacked-iff text_eq (pos 100) server get packed_page refl refl
