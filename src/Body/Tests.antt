-- ===== src/Body/Tests.antt =====
-- The readers on concrete bodies.
use httpc.Prelude.{
  ℕ, zero, suc, ◌+◌, ◌≤◌, ◌<◌, ◌≡◌, refl, true, false, Option, none, some, List, [], ◌∷◌, ◌++◌,
  length, take, drop, arith, leb, if◌then◌else◌, length-take-le, take-append-drop,
}
use httpc.Prelude.Int.{pos}
use httpc.Errors.{Err, sentinel, new, is_err, eof}
use httpc.Body.{Chunk, Reader, limited_read, GzipPackage, GzipReadCloser, unread, failure, Opened}
use httpc.Body.ReadAll.{
  Serves, EndsAlone, EndsWithLast, All, all_of, too_large, read_all, read_all_lem,
}
use httpc.Body.Gzip.{reads, total, total-le-limit}

-- bytes.Reader, whose EOF comes in a Read of its own
abbrev bytes_read : List ℕ → ℕ → Chunk × List ℕ
bytes_read [] n = (record { bytes = []; err = some (sentinel eof) }, [])
bytes_read (x ∷ xs) n = (record { bytes = take n (x ∷ xs); err = none }, drop n (x ∷ xs))

bytes_read_fits : (s : List ℕ) (n : ℕ) → length (bytes_read s n).0.bytes ≤ n
bytes_read_fits [] n = omega arith
bytes_read_fits (x ∷ xs) n = length-take-le n (x ∷ xs)

abbrev bytes_reader : Reader
bytes_reader = record { State = List ℕ; read = bytes_read; read_fits = bytes_read_fits }

bytes-gives : (s : List ℕ) (n : ℕ) → 1 ≤ n → (bytes_read s n).0.bytes ++ (bytes_read s n).1 ≡ s
bytes-gives [] n h = refl
bytes-gives (x ∷ xs) n h = take-append-drop n (x ∷ xs)

bytes-moves_on :
    (s : List ℕ) (n : ℕ)
    → 1 ≤ n
    → (bytes_read s n).0.err ≡ none
    → 1 ≤ length (bytes_read s n).0.bytes
bytes-moves_on [] n h e = absurd (ground arith)
bytes-moves_on (x ∷ xs) zero h e = absurd (omega arith)
bytes-moves_on (x ∷ xs) (suc n) h e = omega arith

bytes-ends :
    (s : List ℕ) (n : ℕ) (e : Err)
    → 1 ≤ n
    → (bytes_read s n).0.err ≡ some e
    → (e ≡ sentinel eof) × ((bytes_read s n).1 ≡ [])
bytes-ends [] n e h k = (ground arith, refl)
bytes-ends (x ∷ xs) n e h k = absurd (ground arith)

abbrev bytes_served : Serves bytes_reader
bytes_served = record {
  rest = λ s. s;
  last = sentinel eof;
  gives = bytes-gives;
  moves_on = bytes-moves_on;
  ends = bytes-ends;
}

bytes-EndsAlone : EndsAlone bytes_reader (λ i. 2) bytes_served (λ i. omega arith)
bytes-EndsAlone [] n e h k = refl
bytes-EndsAlone (x ∷ xs) n e h k = absurd (ground arith)

-- A body with a length: EOF comes with the last byte.
abbrev eager_read : List ℕ → ℕ → Chunk × List ℕ
eager_read xs n = (
  record { bytes = take n xs; err = if leb (length xs) n then some (sentinel eof) else none },
  drop n xs,
)

abbrev eager_reader : Reader
eager_reader = record { State = List ℕ; read = eager_read; read_fits = λ s n. length-take-le n s }

eager-moves_on :
    (s : List ℕ) (n : ℕ)
    → 1 ≤ n
    → (eager_read s n).0.err ≡ none
    → 1 ≤ length (eager_read s n).0.bytes
eager-moves_on [] n h e = absurd (ground arith)
eager-moves_on (x ∷ xs) zero h e = absurd (omega arith)
eager-moves_on (x ∷ xs) (suc n) h e = omega arith

drop_all : (n : ℕ) (xs : List ℕ) → length xs ≤ n → drop n xs ≡ []
drop_all zero [] h = refl
drop_all zero (x ∷ xs) h = absurd (omega arith)
drop_all (suc n) [] h = refl
drop_all (suc n) (x ∷ xs) h = drop_all n xs (omega arith)

drop_some : (n : ℕ) (xs : List ℕ) → n < length xs → 1 ≤ length (drop n xs)
drop_some zero xs h = omega arith
drop_some (suc n) [] h = absurd (omega arith)
drop_some (suc n) (x ∷ xs) h = drop_some n xs (omega arith)

eager-ends :
    (s : List ℕ) (n : ℕ) (e : Err)
    → (eager_read s n).0.err ≡ some e
    → (e ≡ sentinel eof) × (drop n s ≡ [])
eager-ends s n e k =
    let all_read : leb (length s) n ≡ true = ground arith in
    (ground arith, drop_all n s (ground arith))

abbrev eager_served : Serves eager_reader
eager_served = record {
  rest = λ s. s;
  last = sentinel eof;
  gives = λ s n h. take-append-drop n s;
  moves_on = eager-moves_on;
  ends = λ s n e h k. eager-ends s n e k;
}

eager-EndsWithLast : EndsWithLast eager_reader (λ i. 2) eager_served (λ i. omega arith)
eager-EndsWithLast s n h e =
    let more : leb (length s) n ≡ false = ground arith in drop_some n s (ground arith)

abbrev body : List ℕ
body = 1 ∷ 2 ∷ 3 ∷ []

abbrev bytes_of : ℕ → Option All
bytes_of limit =
    read_all bytes_reader (λ i. 2) 9 (record { rc = body; limit = pos limit; count = 0 }) []

abbrev eager_of : ℕ → Option All
eager_of limit =
    read_all eager_reader (λ i. 2) 9 (record { rc = body; limit = pos limit; count = 0 }) []

exactly_the_limit : bytes_of 3 ≡ some (record { bytes = body; err = some too_large })
unfolding is_err
exactly_the_limit =
    let (short, long, alone, with_last) =
      read_all_lem bytes_reader (λ i. 2) bytes_served (λ i. omega arith) 9 body 3 (omega arith) in
    alone bytes-EndsAlone (omega arith)

exactly_with_last : eager_of 3 ≡ some (record { bytes = body; err = none })
unfolding is_err
exactly_with_last =
    let (short, long, alone, with_last) =
      read_all_lem eager_reader (λ i. 2) eager_served (λ i. omega arith) 9 body 3 (omega arith) in
    with_last eager-EndsWithLast (omega arith) (omega arith)

below_the_limit : bytes_of 4 ≡ some (record { bytes = body; err = none })
unfolding read_all limited_read is_err
below_the_limit = refl

read_all_lem_example :
    (length body < 2 → eager_of 2 ≡ some (all_of body (sentinel eof)))
    × (2 < length body → eager_of 2 ≡ some (all_of (take 2 body) too_large))
    × (EndsAlone eager_reader (λ i. 2) eager_served (λ i. omega arith)
        → length body ≡ 2
        → eager_of 2 ≡ some (all_of body too_large))
    × (EndsWithLast eager_reader (λ i. 2) eager_served (λ i. omega arith)
        → length body ≡ 2
        → 1 ≤ 2
        → eager_of 2 ≡ some (all_of body (sentinel eof)))
read_all_lem_example =
    read_all_lem eager_reader (λ i. 2) eager_served (λ i. omega arith) 9 body 2 (omega arith)

-- A package whose decompressed bytes are the body's, and that wants a first byte.
abbrev opening : List ℕ → Opened (List ℕ) × List ℕ
opening [] = (failure (new "unexpected EOF"), [])
opening (x ∷ xs) = (Opened.reader xs, [])

abbrev plain : GzipPackage
plain = record { Body = List ℕ; unpacked = bytes_reader; new_reader = opening }

abbrev packed : List ℕ → GzipReadCloser plain
packed body = record { body = body; decoder = unread; limit = pos 2; bytes_read = 0 }

total-le-limit_example :
    0 + total plain (reads plain (packed (0 ∷ 1 ∷ 2 ∷ 3 ∷ [])) (1 ∷ 5 ∷ 5 ∷ [])) ≤ 2
total-le-limit_example =
    total-le-limit plain (packed (0 ∷ 1 ∷ 2 ∷ 3 ∷ [])) (1 ∷ 5 ∷ 5 ∷ []) 1 refl (omega arith)

abbrev no_header : Err
no_header = new "unexpected EOF"
