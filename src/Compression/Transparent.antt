-- ===== src/Compression/Transparent.antt =====
-- compression.go, RoundTrip: what the caller sees.
use httpc.Prelude.{◌≡◌, ◌↔◌, Bool, true, false, none, [], arith, Bool-cases, inl, inr}
use httpc.Prelude.Text.{Text, codes, text_eq}
use httpc.Prelude.Int.{ℤ, pos, negsuc, eqb_ℤ}
use httpc.Compression.{
  Request, Response, gunzipped, Tripped, responded, add_gzip, to_send, is_gzip, unpack, handle,
  round_trip, is_empty,
}

module _ (equal_fold : Text → Text → Bool) (limit : ℤ) (base : Request → Tripped) where
  -- The transport asked for gzip itself, and the response is packed and not known to be empty.
  pub record IsUnpacked (req : Request) (r : Response) : Type 0 where
    pub no_encoding_asked : is_empty req.accept_encoding ≡ true
    pub no_range : is_empty req.range ≡ true
    pub not_head : text_eq req.method (codes "HEAD") ≡ false
    pub not_known_empty : eqb_ℤ r.content_length (pos 0) ≡ false
    pub packed : is_gzip equal_fold limit base r.content_encoding ≡ true

  -- What a caller gets for a response of the transport below that is not marked as uncompressed already: it
  -- is unpacked, which means that its body is read through gzip under the limit, with neither the encoding nor the length of the packed body left, just when the caller
  -- asked for no encoding and no range by a method other than HEAD, and the response is packed with gzip
  -- and not known to be empty, and then it is marked as uncompressed; otherwise it is the response as it came. A request with an encoding
  -- or a range of its own, or a HEAD, is sent as it is.
  pub IsUnpacked-iff :
      (req : Request) (r : Response)
      → r.uncompressed ≡ false
      → base (to_send equal_fold limit base req) ≡ responded r
      → (out : Response) × (round_trip equal_fold limit base req ≡ responded out)
        × ((out.uncompressed ≡ true) ↔ IsUnpacked req r)
        × ((IsUnpacked req r → ⊥) → out ≡ r)
        × (IsUnpacked req r
            → out ≡ record {
              content_encoding = [];
              content_length = negsuc 0;
              content_length_header = none;
              body = gunzipped r.body limit;
              uncompressed = true;
            })
        × ((add_gzip equal_fold limit base req ≡ false) → to_send equal_fold limit base req ≡ req)
  unfolding round_trip handle add_gzip to_send unpack
  IsUnpacked-iff req r packed arrived = (
    handle equal_fold limit base req r,
    rw (arrived, round_trip),
    (
      unpacked,
      λ h.
          let a = h.no_encoding_asked in
          let b = h.no_range in
          let d = h.not_head in let e = h.not_known_empty in let f = h.packed in ground arith,
    ),
    λ not_unpacked. elim (Bool-cases (handle equal_fold limit base req r).uncompressed) [
      | inl h ↦ absurd (not_unpacked (unpacked h))
      | inr h ↦ ground arith
    ],
    λ h.
        let a = h.no_encoding_asked in
        let b = h.no_range in
        let d = h.not_head in let e = h.not_known_empty in let f = h.packed in ground arith,
    λ h. ground arith,
  )
    where
      unpacked : (handle equal_fold limit base req r).uncompressed ≡ true → IsUnpacked req r
      unpacked h = record {
        no_encoding_asked = ground arith;
        no_range = ground arith;
        not_head = ground arith;
        not_known_empty = ground arith;
        packed = ground arith;
      }
