-- ===== src/Metrics/Ends.antt =====
-- The ends of a path that was split at its slashes, and of one that was joined.
use httpc.Prelude.{ℕ, ◌≡◌, refl, Bool, true, false, List, [], ◌∷◌, ◌++◌, all, arith}
use httpc.Prelude.Text.{Text, split_on, prepend}
use httpc.Metrics.{join_with}
use httpc.Prelude.Splits.{whole, is_cons}
use httpc.Metrics.Paths.{open_left, open_right}

module _ (sep : ℕ) where
  -- The first part, and the last one, are not empty.
  abbrev pub head_full : List Text → Bool
  head_full [] = false
  head_full (s ∷ ss) = is_cons s

  abbrev pub last_full : List Text → Bool
  last_full [] = false
  last_full (s ∷ []) = is_cons s
  last_full (s ∷ r ∷ ss) = last_full (r ∷ ss)

  prepend-head_full : (c : ℕ) (ss : List Text) → head_full (prepend c ss) ≡ true
  prepend-head_full c [] = refl
  prepend-head_full c (s ∷ ss) = refl

  prepend-last_full :
      (c : ℕ) (ss : List Text) → last_full ss ≡ true → last_full (prepend c ss) ≡ true
  prepend-last_full c [] h = refl
  prepend-last_full c (s ∷ []) h = refl
  prepend-last_full c (s ∷ r ∷ ss) h = h

  pub split-head_full :
      (c : ℕ) (t : Text) → open_left sep (c ∷ t) ≡ true → head_full (split_on sep (c ∷ t)) ≡ true
  unfolding split_on
  split-head_full c t h = ground (arith, prepend-head_full c (split_on sep t))

  last_full-cons : (s : Text) (ss : List Text) → last_full ss ≡ true → last_full (s ∷ ss) ≡ true
  last_full-cons s [] h = ground arith
  last_full-cons s (r ∷ ss) h = h

  pub split-last_full :
      (c : ℕ) (t : Text) → open_right sep (c ∷ t) ≡ true → last_full (split_on sep (c ∷ t)) ≡ true
  unfolding split_on
  split-last_full c [] h = ground arith
  split-last_full c (d ∷ t) h =
      let rest = split_on sep (d ∷ t) in
      ground (arith, split-last_full d t h, last_full-cons [] rest, prepend-last_full c rest)

  append-open_right :
      (s t : Text)
      → is_cons t ≡ true
      → open_right sep t ≡ true
      → open_right sep (s ++ sep ∷ t) ≡ true
  append-open_right s [] full h = absurd (ground arith)
  append-open_right [] (c ∷ t) full h = h
  append-open_right (d ∷ []) (c ∷ t) full h = h
  append-open_right (d ∷ e ∷ s) (c ∷ t) full h = append-open_right (e ∷ s) (c ∷ t) full h

  join-is_cons : (ss : List Text) → last_full ss ≡ true → is_cons (join_with sep ss) ≡ true
  unfolding join_with
  join-is_cons [] full = full
  join-is_cons (s ∷ []) full = full
  join-is_cons ([] ∷ r ∷ ss) full = refl
  join-is_cons ((c ∷ s) ∷ r ∷ ss) full = refl

  whole-open_right : (s : Text) → whole sep s ≡ true → open_right sep s ≡ true
  whole-open_right [] w = refl
  whole-open_right (c ∷ []) w = ground arith
  whole-open_right (c ∷ d ∷ s) w = ground (arith, whole-open_right (d ∷ s))

  pub join-open_right :
      (ss : List Text)
      → all (whole sep) ss ≡ true
      → last_full ss ≡ true
      → open_right sep (join_with sep ss) ≡ true
  unfolding join_with
  join-open_right [] w full = refl
  join-open_right (s ∷ []) w full = ground (arith, whole-open_right s)
  join-open_right (s ∷ r ∷ ss) w full =
      let t = join_with sep (r ∷ ss) in
      append-open_right s t (join-is_cons (r ∷ ss) full)
        (join-open_right (r ∷ ss) (ground arith) full)

  pub join-open_left :
      (ss : List Text)
      → all (whole sep) ss ≡ true
      → head_full ss ≡ true
      → open_left sep (join_with sep ss) ≡ true
  unfolding join_with
  join-open_left [] w full = refl
  join-open_left ([] ∷ ss) w full = absurd (ground arith)
  join-open_left ((c ∷ s) ∷ []) w full = ground arith
  join-open_left ((c ∷ s) ∷ r ∷ ss) w full = ground arith
