-- ===== src/Body.antt =====
-- client.go, limitedReadCloser, and compression.go, gzipReadCloser: the readers that the client puts
-- round a response body. A reader under them is any state with a `read`; the buffer `p` of a Read is
-- its length, and the bytes put into it come back in the result.
pub mod Limits
pub mod ReadAll
pub mod Gzip
mod Tests
use httpc.Prelude.{
  ℕ, ◌+◌, ◌≤◌, Bool, true, false, ◌&&◌, not, Option, none, some, List, [], ◌∷◌, ◌++◌, length,
  is_none, if◌then◌else◌,
}
use httpc.Prelude.Int.{ℤ, pos, ◌-ℤ◌, leb_ℤ, ltb_ℤ, pos_part}
use httpc.Errors.{
  Err, sentinel, wrap, is_err, eof, response_body_too_large, decompression_bomb_detected,
}

-- The bytes that a Read put into its buffer (the `n` it returns is their number) and its error.
pub record Chunk : Type 0 where
  pub bytes : List ℕ
  pub err : Option Err

-- An io.Reader: a Read of a buffer of `n` bytes. io.Reader promises that at most `n` are put in.
pub record Reader : Type 1 where
  pub State : Type 0
  pub read : State → ℕ → Chunk × State
  pub read_fits : (s : State) (n : ℕ) → length (read s n).0.bytes ≤ n

abbrev pub refused : Err → Chunk
refused e = record { bytes = []; err = some e }

module _ (under : Reader) where
  open under use {State, read}

  -- limitedReadCloser; `count` is the field `read`
  pub record LimitedReadCloser : Type 0 where
    pub rc : State
    pub limit : ℤ
    pub count : ℕ

  -- `p = p[:remaining]` where the buffer is longer
  abbrev pub cut : ℕ → ℤ → ℕ
  cut n remaining = if ltb_ℤ remaining (pos n) then pos_part remaining else n

  unfoldable pub limited_read : LimitedReadCloser → ℕ → Chunk × LimitedReadCloser
  limited_read l n =
      let remaining = l.limit -ℤ pos l.count in
      if leb_ℤ remaining (pos 0)
      then (refused (sentinel response_body_too_large), l)
      else (let (chunk, rc) = read l.rc (cut n remaining) in
          (chunk, record { rc = rc; limit = l.limit; count = l.count + length chunk.bytes }))

pub data Opened {ℓ} (S : Type ℓ) : Type ℓ where
  reader : S → Opened S
  failure : Err → Opened S

-- compress/gzip: NewReader reads the header from the body, and makes a reader of the decompressed
-- bytes or fails; either way the body has been read from.
pub record GzipPackage : Type 1 where
  pub Body : Type 0
  pub unpacked : Reader
  pub new_reader : Body → Opened unpacked.State × Body

module _ (gzip : GzipPackage) where
  open gzip use {Body, unpacked, new_reader}

  -- the fields zr and zerr: none yet, a reader, or the sticky error
  pub data Decoder : Type 0 where
    unread : Decoder
    decoding : unpacked.State → Decoder
    broken : Err → Decoder

  pub record GzipReadCloser : Type 0 where
    pub body : Body
    pub decoder : Decoder
    pub limit : ℤ
    pub bytes_read : ℕ

  -- A bare EOF is kept as it is; every other error is wrapped.
  abbrev pub sticky : Err → Err
  sticky e = if is_err eof e then e else wrap "failed to decode gzip response body" e

  abbrev pub opened : Opened unpacked.State → Decoder
  opened (failure e) = broken (sticky e)
  opened (reader z) = decoding z

  -- the first lines of Read, which construct the gzip.Reader once
  unfoldable pub ensure_decoder : GzipReadCloser → GzipReadCloser
  ensure_decoder g = elim g.decoder [
    | unread ↦ (let (r, body) = new_reader g.body in record g { body = body; decoder = opened r })
    | decoding z ↦ g
    | broken e ↦ g
  ]

  abbrev pub unpack : GzipReadCloser → unpacked.State → ℕ → Chunk × GzipReadCloser
  unpack g z n =
      let (chunk, z') = unpacked.read z n in
      (chunk, record g { decoder = decoding z'; bytes_read = g.bytes_read + length chunk.bytes })

  abbrev pub read_decoding : GzipReadCloser → unpacked.State → ℕ → Chunk × GzipReadCloser
  read_decoding g z n =
      let remaining = g.limit -ℤ pos g.bytes_read in
      if leb_ℤ g.limit (pos 0)
      then unpack g z n
      else if leb_ℤ remaining (pos 0)
      then (refused (sentinel decompression_bomb_detected), g)
      else unpack g z (if ltb_ℤ remaining (pos n) then pos_part remaining else n)

  abbrev pub read_by : Decoder → GzipReadCloser → ℕ → Chunk × GzipReadCloser
  read_by unread g n = (record { bytes = []; err = none }, g)  -- not after ensure_decoder
  read_by (decoding z) g n = read_decoding g z n
  read_by (broken e) g n = (refused e, g)

  unfoldable pub gzip_read : GzipReadCloser → ℕ → Chunk × GzipReadCloser
  unfolding ensure_decoder
  gzip_read g n = let g' = ensure_decoder g in read_by g'.decoder g' n
