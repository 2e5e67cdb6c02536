-- ===== src/Metrics/Paths.antt =====
-- metrics_transport.go: joining and trimming, against splitting.
use httpc.Prelude.{ℕ, ◌≡◌, refl, Bool, true, not, ◌&&◌, List, [], ◌∷◌, all, ◌==◌, arith}
use httpc.Prelude.Text.{Text, split_on}
use httpc.Prelude.Splits.{whole, split-append, split_whole_lem}
use httpc.Metrics.{trim_left, trim_right, trim, put_front, join_with}

module _ (sep : ℕ) where
  -- Splitting what was joined gives the parts.
  pub split-join :
      (s : Text) (ss : List Text)
      → all (whole sep) (s ∷ ss) ≡ true
      → split_on sep (join_with sep (s ∷ ss)) ≡ s ∷ ss
  unfolding join_with
  split-join s [] w = ground (arith, split_whole_lem sep s)
  split-join s (r ∷ ss) w =
      ground (arith, split-append sep s (join_with sep (r ∷ ss)), split-join r ss)

  -- Neither end of a text is the separator.
  abbrev pub open_left : Text → Bool
  open_left [] = true
  open_left (c ∷ t) = not (c == sep)

  abbrev pub open_right : Text → Bool
  open_right [] = true
  open_right (c ∷ []) = not (c == sep)
  open_right (c ∷ d ∷ t) = open_right (d ∷ t)

  trim_left-open_left : (t : Text) → open_left (trim_left sep t) ≡ true
  unfolding trim_left
  trim_left-open_left [] = refl
  trim_left-open_left (c ∷ t) = ground (arith, trim_left-open_left t)

  put_front-open_right :
      (c : ℕ) (t : Text) → open_right t ≡ true → open_right (put_front sep c t) ≡ true
  put_front-open_right c [] h = ground arith
  put_front-open_right c (d ∷ t) h = h

  trim_right-open_right : (t : Text) → open_right (trim_right sep t) ≡ true
  unfolding trim_right
  trim_right-open_right [] = refl
  trim_right-open_right (c ∷ t) =
      put_front-open_right c (trim_right sep t) (trim_right-open_right t)

  put_front-open_left :
      (c : ℕ) (t : Text) → open_left (c ∷ t) ≡ true → open_left (put_front sep c t) ≡ true
  put_front-open_left c [] h = ground arith
  put_front-open_left c (d ∷ t) h = h

  trim_right-open_left : (t : Text) → open_left t ≡ true → open_left (trim_right sep t) ≡ true
  unfolding trim_right
  trim_right-open_left [] h = refl
  trim_right-open_left (c ∷ t) h = put_front-open_left c (trim_right sep t) h

  trim_left_open : (t : Text) → open_left t ≡ true → trim_left sep t ≡ t
  unfolding trim_left
  trim_left_open [] h = refl
  trim_left_open (c ∷ t) h = ground arith

  trim_right_open : (t : Text) → open_right t ≡ true → trim_right sep t ≡ t
  unfolding trim_right
  trim_right_open [] h = refl
  trim_right_open (c ∷ []) h = ground arith
  trim_right_open (c ∷ d ∷ t) h = ground (arith, trim_right_open (d ∷ t) h)

  -- A text is as Trim leaves it.
  abbrev pub trimmed : Text → Bool
  trimmed t = open_left t && open_right t

  pub trim-trimmed : (t : Text) → trimmed (trim sep t) ≡ true
  trim-trimmed t = ground (
    arith,
    trim_right-open_left (trim_left sep t) (trim_left-open_left t),
    trim_right-open_right (trim_left sep t),
  )

  pub trim_fixed : (t : Text) → trimmed t ≡ true → trim sep t ≡ t
  trim_fixed t h = ground (arith, trim_left_open t, trim_right_open t)
