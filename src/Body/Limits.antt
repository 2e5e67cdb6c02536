-- ===== src/Body/Limits.antt =====
-- client.go, limitedReadCloser: how much passes, and what a caller that reads to the end gets.
use httpc.Prelude.{ℕ, ◌+◌, ◌-◌, ◌≤◌, ◌≡◌, ap, List, [], ◌∷◌, ◌++◌, length, length-append, arith}
use httpc.Prelude.Int.{pos_part}
use httpc.Body.{Reader, LimitedReadCloser, limited_read}

-- The bytes that Reads of the given buffer sizes deliver, one after the other.
unfoldable pub delivered : (under : Reader) → LimitedReadCloser under → List ℕ → List ℕ
delivered under l [] = []
delivered under l (n ∷ ns) =
    let (chunk, l') = limited_read under l n in chunk.bytes ++ delivered under l' ns

module _ (under : Reader) where
  -- The counter grows by what is delivered, and stays within the limit.
  limited_read-counts :
      (l : LimitedReadCloser under) (n : ℕ)
      → l.count ≤ pos_part l.limit
      → ((limited_read under l n).1.count ≡ l.count + length (limited_read under l n).0.bytes)
        × ((limited_read under l n).1.limit ≡ l.limit)
        × ((limited_read under l n).1.count ≤ pos_part l.limit)
  unfolding limited_read
  limited_read-counts l n h =
      ground (arith, under.read_fits l.rc n, under.read_fits l.rc (pos_part l.limit - l.count))

  -- Whatever the body under it sends and whatever the sizes of the Reads, a limitedReadCloser that
  -- has counted no more than its limit delivers at most the rest of its limit.
  delivered-le-limit :
      (l : LimitedReadCloser under) (ns : List ℕ)
      → l.count ≤ pos_part l.limit
      → l.count + length (delivered under l ns) ≤ pos_part l.limit
  unfolding delivered
  delivered-le-limit l [] h = omega arith
  delivered-le-limit l (n ∷ ns) h =
      let (chunk, l') = limited_read under l n in
      let step = limited_read-counts l n h in
      omega (
        arith,
        step,
        ap pos_part step.1,
        length-append chunk.bytes (delivered under l' ns),
        delivered-le-limit l' ns (rw step.1 step.2),
      )
