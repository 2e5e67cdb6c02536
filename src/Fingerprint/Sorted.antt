-- ===== src/Fingerprint/Sorted.antt =====
-- Sorting of texts: what is in a sorted list, and that the order of the list before does not matter.
use httpc.Prelude.{◌≡◌, ◌⊎◌, inl, inr, refl, true, ◌||◌, List, [], ◌∷◌, arith}
use httpc.Prelude.Text.{Text, text_eq, text_mem}
use httpc.Fingerprint.{text_leb, insert_text, sort_texts}

text_leb_total : (s t : Text) → (text_leb s t ≡ true) ⊎ (text_leb t s ≡ true)
unfolding text_leb
text_leb_total [] t = inl refl
text_leb_total (c ∷ s) [] = inr refl
text_leb_total (c ∷ s) (d ∷ t) = ground (arith, text_leb_total s t)

text_leb_antisym : (s t : Text) → text_leb s t ≡ true → text_leb t s ≡ true → s ≡ t
unfolding text_leb
text_leb_antisym [] [] a b = refl
text_leb_antisym [] (d ∷ t) a b = absurd (ground arith)
text_leb_antisym (c ∷ s) [] a b = absurd (ground arith)
text_leb_antisym (c ∷ s) (d ∷ t) a b = ground (arith, text_leb_antisym s t)

text_leb_trans : (s t u : Text) → text_leb s t ≡ true → text_leb t u ≡ true → text_leb s u ≡ true
unfolding text_leb
text_leb_trans [] t u a b = refl
text_leb_trans (c ∷ s) [] u a b = absurd (ground arith)
text_leb_trans (c ∷ s) (d ∷ t) [] a b = absurd (ground arith)
text_leb_trans (c ∷ s) (d ∷ t) (e ∷ u) a b = ground (arith, text_leb_trans s t u)

mem-insert_text :
    (s t : Text) (ts : List Text) → text_mem s (insert_text t ts) ≡ (text_eq s t || text_mem s ts)
unfolding insert_text
mem-insert_text s t [] = ground arith
mem-insert_text s t (u ∷ ts) = ground (arith, mem-insert_text s t ts)

pub mem-sort_texts : (s : Text) (ts : List Text) → text_mem s (sort_texts ts) ≡ text_mem s ts
unfolding sort_texts
mem-sort_texts s [] = refl
mem-sort_texts s (t ∷ ts) = ground (arith, mem-insert_text s t (sort_texts ts), mem-sort_texts s ts)

pub insert_text_comm :
    (s t : Text) (ts : List Text)
    → insert_text s (insert_text t ts) ≡ insert_text t (insert_text s ts)
unfolding insert_text
insert_text_comm s t [] = ground (arith, text_leb_total s t, text_leb_antisym s t)
insert_text_comm s t (u ∷ ts) = ground (
  arith,
  insert_text_comm s t ts,
  text_leb_total s t,
  text_leb_total s u,
  text_leb_total t u,
  text_leb_antisym s t,
  text_leb_trans s t u,
  text_leb_trans t s u,
  text_leb_trans s u t,
  text_leb_trans t u s,
)
