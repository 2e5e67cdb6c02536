-- ===== src/Body/Gzip.antt =====
-- compression.go, gzipReadCloser: how much is decompressed, and the sticky error.
use httpc.Prelude.{
  ℕ, suc, ◌+◌, ◌-◌, ◌≤◌, ◌≡◌, ◌∙◌, refl, List, [], ◌∷◌, length, arith, if◌then◌else◌,
}
use httpc.Prelude.Int.{pos}
use httpc.Errors.{Err, wrap, is_err, eof}
use httpc.Body.{
  Chunk, GzipPackage, GzipReadCloser, Decoder, unread, decoding, broken, failure, ensure_decoder,
  gzip_read, read_by, refused, sticky,
}

module _ (gzip : GzipPackage) where
  open gzip use {unpacked, new_reader}

  -- The results of Reads of the given buffer sizes, one after the other.
  unfoldable pub reads : GzipReadCloser gzip → List ℕ → List Chunk
  reads g [] = []
  reads g (n ∷ ns) = let (chunk, g') = gzip_read gzip g n in chunk ∷ reads g' ns

  abbrev pub total : List Chunk → ℕ
  total [] = 0
  total (c ∷ cs) = length c.bytes + total cs

  -- What a Read may do to the counter.
  abbrev Counts : GzipReadCloser gzip → ℕ → Chunk × GzipReadCloser gzip → Type 0
  Counts g limit (chunk, g') =
      (g'.bytes_read ≡ g.bytes_read + length chunk.bytes)
      × (g'.bytes_read ≤ suc limit)
      × (g'.limit ≡ pos (suc limit))

  read_by-Counts :
      (d : Decoder gzip) (g : GzipReadCloser gzip) (n limit : ℕ)
      → g.limit ≡ pos (suc limit)
      → g.bytes_read ≤ suc limit
      → Counts g limit (read_by gzip d g n)
  read_by-Counts unread g n limit e h = (omega arith, h, e)
  read_by-Counts (broken x) g n limit e h = (omega arith, h, e)
  read_by-Counts (decoding z) g n limit e h =
      ground (arith, unpacked.read_fits z n, unpacked.read_fits z (suc limit - g.bytes_read))

  ensure_keeps :
      (g : GzipReadCloser gzip)
      → ((ensure_decoder gzip g).limit ≡ g.limit)
        × ((ensure_decoder gzip g).bytes_read ≡ g.bytes_read)
  unfolding ensure_decoder
  ensure_keeps g = ground arith

  gzip_read-Counts :
      (g : GzipReadCloser gzip) (n limit : ℕ)
      → g.limit ≡ pos (suc limit)
      → g.bytes_read ≤ suc limit
      → Counts g limit (gzip_read gzip g n)
  unfolding gzip_read
  gzip_read-Counts g n limit e h =
      let (same_limit, same_count) = ensure_keeps g in
      let counts =
        read_by-Counts (ensure_decoder gzip g).decoder (ensure_decoder gzip g) n limit
          (same_limit ∙ e) (omega arith) in
      (omega arith, counts.1, counts.2)

  -- Under a positive limit, whatever the body decompresses to and whatever the sizes of the Reads,
  -- no more bytes than the limit are delivered.
  pub total-le-limit :
      (g : GzipReadCloser gzip) (ns : List ℕ) (limit : ℕ)
      → g.limit ≡ pos (suc limit)
      → g.bytes_read ≤ suc limit
      → g.bytes_read + total (reads g ns) ≤ suc limit
  unfolding reads
  total-le-limit g [] limit e h = omega arith
  total-le-limit g (n ∷ ns) limit e h =
      let counts = gzip_read-Counts g n limit e h in
      omega (arith, counts, total-le-limit (gzip_read gzip g n).1 ns limit counts.2 counts.1)

  abbrev pub AllFail : Err → List Chunk → Type 0
  AllFail e [] = Unit
  AllFail e (c ∷ cs) = (c ≡ refused e) × AllFail e cs

  broken_read :
      (g : GzipReadCloser gzip) (e : Err) (n : ℕ)
      → g.decoder ≡ broken e
      → gzip_read gzip g n ≡ (refused e, g)
  unfolding gzip_read
  broken_read g e n b = ground arith

  broken_stays :
      (g : GzipReadCloser gzip) (e : Err) (ns : List ℕ)
      → g.decoder ≡ broken e
      → AllFail e (reads g ns)
  unfolding reads
  broken_stays g e [] b = tt
  broken_stays g e (n ∷ ns) b = rw (broken_read g e n b) (refl, broken_stays g e ns b)

  first_read :
      (g : GzipReadCloser gzip) (e : Err) (n : ℕ)
      → g.decoder ≡ unread
      → (new_reader g.body).0 ≡ failure e
      → gzip_read gzip g n ≡ (
        refused (sticky gzip e),
        record g { body = (new_reader g.body).1; decoder = broken (sticky gzip e) },
      )
  unfolding gzip_read
  first_read g e n u f = ground arith

  -- If the header of the gzip stream cannot be read, every Read delivers nothing and returns the same
  -- error: a bare EOF for a stream with no header at all, and otherwise the wrapped error.
  header_error_sticky :
      (g : GzipReadCloser gzip) (e : Err) (ns : List ℕ)
      → g.decoder ≡ unread
      → (new_reader g.body).0 ≡ failure e
      → AllFail
          (if is_err eof e then e else wrap "failed to decode gzip response body" e)
          (reads g ns)
  unfolding reads
  header_error_sticky g e [] u f = tt
  header_error_sticky g e (n ∷ ns) u f = rw (first_read g e n u f) (
    refl,
    broken_stays (record g { body = (new_reader g.body).1; decoder = broken (sticky gzip e) })
        (sticky gzip e) ns refl,
  )
