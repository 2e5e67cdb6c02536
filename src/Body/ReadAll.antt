-- ===== src/Body/ReadAll.antt =====
-- client.go, limitedReadCloser under a caller that reads to the end (io.ReadAll, io.Copy), over any body that
-- keeps the promises of io.Reader.
use httpc.Prelude.{
  ℕ, zero, suc, ◌+◌, ◌-◌, ◌≤◌, ◌<◌, ◌≡◌, ◌∙◌, ap, sym, refl, Option, none, some, List, [], ◌∷◌,
  ◌++◌, length, take, arith, ltb, if◌then◌else◌, Bool-cases, Option-cases, inl, inr, length-append,
  append_assoc,
}
use mathlib.Core.Path.{subst}
use mathlib.Core.List.{append-nil}
use httpc.Prelude.Int.{pos, ◌-ℤ◌}
use httpc.Errors.{Err, sentinel, is_err, eof, response_body_too_large}
use httpc.Body.{Chunk, Reader, LimitedReadCloser, limited_read}

-- What io.ReadAll returns: the bytes, and the error unless that is EOF.
pub record All : Type 0 where
  pub bytes : List ℕ
  pub err : Option Err

abbrev pub all_of : List ℕ → Err → All
all_of bs e = record { bytes = bs; err = if is_err eof e then none else some e }

abbrev pub too_large : Err
too_large = sentinel response_body_too_large

-- What io.Reader promises, to Reads with buffers of at least one byte: they give the bytes that are to come, in
-- order; one that returns no error gives one byte at least; and an error, which is always `last` (EOF,
-- or what broke the body off), comes when no byte is to come any more.
pub record Serves (under : Reader) : Type 0 where
  pub rest : under.State → List ℕ
  pub last : Err
  pub gives :
      (s : under.State) (n : ℕ)
      → 1 ≤ n
      → (under.read s n).0.bytes ++ rest (under.read s n).1 ≡ rest s
  pub moves_on :
      (s : under.State) (n : ℕ)
      → 1 ≤ n
      → (under.read s n).0.err ≡ none
      → 1 ≤ length (under.read s n).0.bytes
  pub ends :
      (s : under.State) (n : ℕ) (e : Err)
      → 1 ≤ n
      → (under.read s n).0.err ≡ some e
      → (e ≡ last) × (rest (under.read s n).1 ≡ [])

take-append :
    (b xs : List ℕ) (left : ℕ)
    → length b ≤ left
    → take left (b ++ xs) ≡ b ++ take (left - length b) xs
take-append [] xs left h = let e : left - 0 ≡ left = omega arith in rw e refl
take-append (x ∷ b) xs zero h = absurd (omega arith)
take-append (x ∷ b) xs (suc left) h =
    let e : suc left - suc (length b) ≡ left - length b = omega arith in
    rw e (ap (λ ys. x ∷ ys) (take-append b xs left (omega arith)))

nil_of_length : (xs : List ℕ) → length xs ≡ 0 → xs ≡ []
nil_of_length [] h = refl
nil_of_length (x ∷ xs) h = absurd (omega arith)

module _ (under : Reader) (size : ℕ → ℕ) where
  -- Reads, with buffers of any sizes, until one returns an error; none means that the fuel ran out.
  unfoldable pub read_all : ℕ → LimitedReadCloser under → List ℕ → Option All
  read_all zero l acc = none
  read_all (suc f) l acc =
      let chunk = (limited_read under l (size f)).0 in
      let rest = read_all f (limited_read under l (size f)).1 (acc ++ chunk.bytes) in
      elim chunk.err [ some e ↦ some (all_of (acc ++ chunk.bytes) e) | none ↦ rest ]

  -- One round of the loop, by the result of its Read.
  abbrev next : ℕ → List ℕ → Chunk × LimitedReadCloser under → Option All
  next f acc (chunk, l) =
      let rest = read_all f l (acc ++ chunk.bytes) in
      elim chunk.err [ some e ↦ some (all_of (acc ++ chunk.bytes) e) | none ↦ rest ]

  read_all-next :
      (f : ℕ) (acc : List ℕ) (l : LimitedReadCloser under) {r : Chunk × LimitedReadCloser under}
      → limited_read under l (size f) ≡ r
      → read_all (suc f) l acc ≡ next f acc r
  unfolding read_all
  read_all-next f acc l e = ap (next f acc) e

  abbrev at : under.State → ℕ → ℕ → LimitedReadCloser under
  at s limit count = record { rc = s; limit = pos limit; count = count }

  -- The buffer, cut to what is left of the limit.
  abbrev room : ℕ → ℕ → ℕ
  room left n = if ltb left n then left else n

  read_at_limit :
      (s : under.State) (limit count n : ℕ)
      → limit ≤ count
      → limited_read under (at s limit count) n
        ≡ (record { bytes = []; err = some too_large }, at s limit count)
  unfolding limited_read
  read_at_limit s limit count n h = ground arith

  read_below :
      (s : under.State) (limit count n : ℕ)
      → count < limit
      → let r = under.read s (room (limit - count) n) in
        limited_read under (at s limit count) n ≡ (r.0, at r.1 limit (count + length r.0.bytes))
  unfolding limited_read
  read_below s limit count n h =
      let left : (pos limit -ℤ pos count) ≡ pos (limit - count) = ground arith in
      elim (Bool-cases (ltb (limit - count) n)) [
        | inl a ↦ rw (left, a) (ground arith)
        | inr a ↦ rw (left, a) (ground arith)
      ]

  module _ (serves : Serves under) (filled : (i : ℕ) → 1 ≤ size i) where
    -- The error of the body comes in a Read of its own, as bytes.Reader has it; ...
    abbrev pub EndsAlone : Type 0
    EndsAlone =
        (s : under.State) (n : ℕ) (e : Err)
        → 1 ≤ n
        → (under.read s n).0.err ≡ some e
        → (under.read s n).0.bytes ≡ []

    -- ... or with the last byte, as a body of net/http with a length has it.
    abbrev pub EndsWithLast : Type 0
    EndsWithLast =
        (s : under.State) (n : ℕ)
        → 1 ≤ n
        → (under.read s n).0.err ≡ none
        → 1 ≤ length (serves.rest (under.read s n).1)

    -- What reading to the end gives, with `left` bytes of the limit and `rest` of the body to come.
    pub record Ending (left : ℕ) (acc rest : List ℕ) (result : Option All) : Type 0 where
      pub short : length rest < left → result ≡ some (all_of (acc ++ rest) serves.last)
      pub long : left < length rest → result ≡ some (all_of (acc ++ take left rest) too_large)
      pub exact_alone :
          EndsAlone → length rest ≡ left → result ≡ some (all_of (acc ++ rest) too_large)
      pub exact_with :
          EndsWithLast
          → length rest ≡ left
          → 1 ≤ left
          → result ≡ some (all_of (acc ++ rest) serves.last)

    full-Ending :
        (acc rest : List ℕ) (result : Option All)
        → result ≡ some (all_of (acc ++ []) too_large)
        → Ending 0 acc rest result
    full-Ending acc rest result e = record {
      short = λ h. absurd (omega arith);
      long = λ h. e;
      exact_alone = λ a h. rw (nil_of_length rest h) e;
      exact_with = λ a h k. absurd (omega arith);
    }

    -- The Read of the body that ends it, ...
    last-Ending :
        (s : under.State) (n left : ℕ) (acc : List ℕ) (e : Err) (result : Option All)
        → 1 ≤ n
        → n ≤ left
        → (under.read s n).0.err ≡ some e
        → result ≡ some (all_of (acc ++ (under.read s n).0.bytes) e)
        → Ending left acc (serves.rest s) result
    last-Ending s n left acc e result hn fits err r =
        let b = (under.read s n).0.bytes in
        let (is_last, gone) = serves.ends s n e hn err in
        let whole : b ≡ serves.rest s =
          sym (append-nil b) ∙ ap (λ t. b ++ t) (sym gone) ∙ serves.gives s n hn in
        let few = under.read_fits s n in
        let all : result ≡ some (all_of (acc ++ serves.rest s) serves.last) =
          rw (← whole, ← is_last) r in
        let same = ap length whole in
        record {
          short = λ h. all;
          long = λ h. absurd (omega arith);
          exact_alone = λ a h. let none_left = ap length (a s n e hn err) in absurd (omega arith);
          exact_with = λ a h k. all;
        }

    -- ... and one after which more may come.
    more-Ending :
        (s : under.State) (n left : ℕ) (acc : List ℕ) (result : Option All)
        → 1 ≤ n
        → n ≤ left
        → (under.read s n).0.err ≡ none
        → Ending
            (left - length (under.read s n).0.bytes)
            (acc ++ (under.read s n).0.bytes)
            (serves.rest (under.read s n).1)
            result
        → Ending left acc (serves.rest s) result
    more-Ending s n left acc result hn fits err h =
        let b = (under.read s n).0.bytes in
        let rest' = serves.rest (under.read s n).1 in
        let few = under.read_fits s n in
        let split = serves.gives s n hn in
        let sum : length b + length rest' ≡ length (serves.rest s) =
          sym (length-append b rest') ∙ ap length split in
        let joined : (acc ++ b) ++ rest' ≡ acc ++ serves.rest s =
          append_assoc acc b rest' ∙ ap (λ t. acc ++ t) split in
        let cut : (acc ++ b) ++ take (left - length b) rest' ≡ acc ++ take left (serves.rest s) =
          append_assoc acc b (take (left - length b) rest')
          ∙ ap (λ t. acc ++ t)
              (sym (take-append b rest' left (omega arith)) ∙ ap (take left) split) in
        record {
          short = λ k. h.short (omega arith) ∙ ap (λ t. some (all_of t serves.last)) joined;
          long = λ k. h.long (omega arith) ∙ ap (λ t. some (all_of t too_large)) cut;
          exact_alone =
              λ a k. h.exact_alone a (omega arith) ∙ ap (λ t. some (all_of t too_large)) joined;
          exact_with = λ a k l.
              let more = a s n hn err in
              h.exact_with a (omega arith) (omega arith)
              ∙ ap (λ t. some (all_of t serves.last)) joined;
        }

    read_all-Ending :
        (f : ℕ) (s : under.State) (limit count : ℕ) (acc : List ℕ)
        → length (serves.rest s) + 1 < f
        → Ending (limit - count) acc (serves.rest s) (read_all f (at s limit count) acc)
    read_all-Ending zero s limit count acc hf = absurd (omega arith)
    read_all-Ending (suc f) s limit count acc hf = elim (Bool-cases (ltb count limit)) [
      | inr full ↦
          let none_left : limit - count ≡ 0 = ground arith in
          rw none_left (
            full-Ending acc (serves.rest s) _ (
              read_all-next f acc (at s limit count)
                (read_at_limit s limit count (size f) (ground arith))))
      | inl below ↦
          let n = room (limit - count) (size f) in
          let big = filled f in
          let hn : 1 ≤ n = ground arith in
          let fits : n ≤ limit - count = ground arith in
          let step =
            read_all-next f acc (at s limit count)
              (read_below s limit count (size f) (ground arith)) in
          elim (Option-cases (under.read s n).0.err) [
            | inr (e, err) ↦
                last-Ending s n (limit - count) acc e _ hn fits err (step ∙ rw err refl)
            | inl err ↦
                let b = (under.read s n).0.bytes in
                let s' = (under.read s n).1 in
                let some_read = serves.moves_on s n hn err in
                let sum : length b + length (serves.rest s') ≡ length (serves.rest s) =
                  sym (length-append b (serves.rest s')) ∙ ap length (serves.gives s n hn) in
                let left : limit - (count + length b) ≡ limit - count - length b = omega arith in
                let go_on : read_all (suc f) (at s limit count) acc
                    ≡ read_all f (at s' limit (count + length b)) (acc ++ b) =
                  step ∙ rw err refl in
                more-Ending s n (limit - count) acc _ hn fits err (
                  rw (go_on, ← left)
                    (read_all-Ending f s' limit (count + length b) (acc ++ b) (omega arith)))
          ]
    ]

    -- Reading a body to the end through a limitedReadCloser, with buffers of any sizes but 0, over a body that
    -- keeps the promises of io.Reader, and each of whose Reads gives a byte or an error. A body that is shorter than the limit is read whole, and ends as it
    -- does without the limit, with EOF or the error that broke it off. Of one that is longer, the first
    -- `limit` bytes are read, and the error is ErrResponseBodyTooLarge. One that is exactly as long is
    -- read whole: where its error comes in a Read of its own, the error is ErrResponseBodyTooLarge; where
    -- that comes with the last byte, the body ends as it does without the limit, unless the limit is 0.
    -- Fuel for two Reads more than the body has bytes is enough.
    pub read_all_lem :
        (f : ℕ) (s : under.State) (limit : ℕ)
        → length (serves.rest s) + 1 < f
        → let body = serves.rest s in
          let result = read_all f (record { rc = s; limit = pos limit; count = 0 }) [] in
          (length body < limit → result ≡ some (all_of body serves.last))
          × (limit < length body → result ≡ some (all_of (take limit body) too_large))
          × (EndsAlone → length body ≡ limit → result ≡ some (all_of body too_large))
          × (EndsWithLast
              → length body ≡ limit
              → 1 ≤ limit
              → result ≡ some (all_of body serves.last))
    read_all_lem f s limit hf =
        let e : Ending limit [] (serves.rest s) (read_all f (at s limit 0) []) =
          subst (λ left. Ending left [] (serves.rest s) (read_all f (at s limit 0) []))
            (omega arith) (read_all-Ending f s limit 0 [] hf) in
        (e.short, e.long, e.exact_alone, e.exact_with)
