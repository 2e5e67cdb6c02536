-- ===== src/Metrics/Templates.antt =====
-- metrics_transport.go, parameterizePath: the parts of a path and what stands for them.
use httpc.Prelude.{
  ℕ, ◌≡◌, refl, ap, ◌∙◌, Bool, true, not, ◌&&◌, List, [], ◌∷◌, map, all, arith, Bool-cases, inl,
  inr,
}
use httpc.Prelude.Text.{Text, text_eq, text_eq_iff, codes, split_on}
use httpc.Metrics.{
  is_uuid, is_sha, is_int, template_of, trim_left, trim_right, trim, join_with, parameterize_path,
}
use httpc.Prelude.Splits.{whole, is_cons, split-whole, split-is_cons}
use httpc.Metrics.Paths.{split-join, trimmed, trim-trimmed, trim_fixed}
use httpc.Metrics.Ends.{
  head_full, last_full, split-head_full, split-last_full, join-open_right, join-open_left,
}

abbrev pub slash : ℕ
slash = b'/'

-- The segments of a path.
abbrev pub segments : Text → List Text
segments p = split_on slash (trim slash p)

-- None of the patterns matches.
abbrev pub settled : Text → Bool
settled s = not (is_uuid s) && not (is_sha s) && not (is_int s)

id_settled : settled (codes "{id}") ≡ true
unfolding is_uuid is_sha is_int
id_settled = refl

hash_settled : settled (codes "{hash}") ≡ true
unfolding is_uuid is_sha is_int
hash_settled = refl

nil_settled : settled [] ≡ true
unfolding is_uuid is_sha is_int
nil_settled = refl

template_of-settled : (s : Text) → settled (template_of s) ≡ true
unfolding template_of
template_of-settled [] = nil_settled
template_of-settled (c ∷ s) = ground (arith, id_settled, hash_settled)

template_of_fixed : (s : Text) → settled s ≡ true → template_of s ≡ s
unfolding template_of
template_of_fixed [] h = refl
template_of_fixed (c ∷ s) h = ground arith

template_of-whole : (s : Text) → whole slash s ≡ true → whole slash (template_of s) ≡ true
unfolding template_of
template_of-whole [] h = refl
template_of-whole (c ∷ s) h = ground arith

template_of-is_cons : (s : Text) → is_cons (template_of s) ≡ is_cons s
unfolding template_of
template_of-is_cons [] = refl
template_of-is_cons (c ∷ s) = ground arith

map-whole :
    (ss : List Text) → all (whole slash) ss ≡ true → all (whole slash) (map template_of ss) ≡ true
map-whole [] h = refl
map-whole (s ∷ ss) h = ground (arith, template_of-whole s, map-whole ss)

map-settled : (ss : List Text) → all settled (map template_of ss) ≡ true
map-settled [] = refl
map-settled (s ∷ ss) = ground (arith, template_of-settled s, map-settled ss)

map_fixed : (ss : List Text) → all settled ss ≡ true → map template_of ss ≡ ss
map_fixed [] h = refl
map_fixed (s ∷ ss) h = ground (arith, template_of_fixed s, map_fixed ss)

map-head_full : (ss : List Text) → head_full slash (map template_of ss) ≡ head_full slash ss
map-head_full [] = refl
map-head_full (s ∷ ss) = template_of-is_cons s

map-last_full : (ss : List Text) → last_full slash (map template_of ss) ≡ last_full slash ss
map-last_full [] = refl
map-last_full (s ∷ []) = template_of-is_cons s
map-last_full (s ∷ r ∷ ss) = map-last_full (r ∷ ss)

nil_joined : trimmed slash (join_with slash (map template_of (split_on slash []))) ≡ true
unfolding join_with split_on template_of
nil_joined = refl

-- What parameterizePath joins is as Trim leaves it.
templates-trimmed :
    (t : Text)
    → trimmed slash t ≡ true
    → trimmed slash (join_with slash (map template_of (split_on slash t))) ≡ true
templates-trimmed [] h = nil_joined
templates-trimmed (c ∷ t) h =
    let parts = split_on slash (c ∷ t) in
    let ss = map template_of parts in
    let w : all (whole slash) ss ≡ true = map-whole parts (split-whole slash (c ∷ t)) in
    ground (
      arith,
      split-head_full slash c t,
      split-last_full slash c t,
      map-head_full parts,
      map-last_full parts,
      join-open_left slash ss w,
      join-open_right slash ss w,
    )

split-join-map :
    (ss : List Text)
    → all (whole slash) ss ≡ true
    → is_cons ss ≡ true
    → split_on slash (join_with slash (map template_of ss)) ≡ map template_of ss
split-join-map [] w full = absurd (ground arith)
split-join-map (s ∷ ss) w full =
    split-join slash (template_of s) (map template_of ss) (map-whole (s ∷ ss) w)

trim-cons : (t : Text) → trimmed slash t ≡ true → trim slash (slash ∷ t) ≡ t
unfolding trim_left
trim-cons t h = trim_fixed slash t h

abbrev joined : Text → Text
joined p = join_with slash (map template_of (segments p))

segments-cons-joined : (p : Text) → segments (slash ∷ joined p) ≡ map template_of (segments p)
segments-cons-joined p =
    let t = trim slash p in
    let tidy = templates-trimmed t (trim-trimmed slash p) in
    rw (trim-cons (joined p) tidy)
      (split-join-map (segments p) (split-whole slash t) (split-is_cons slash t))

root_joined : joined (codes "/") ≡ []
unfolding join_with split_on template_of trim_left trim_right
root_joined = refl

parameterize_path-joined : (c : ℕ) (t : Text) → parameterize_path (c ∷ t) ≡ slash ∷ joined (c ∷ t)
unfolding parameterize_path
parameterize_path-joined c t = elim (Bool-cases (text_eq (c ∷ t) (codes "/"))) [
  | inl same ↦ ground (arith, same, (text_eq_iff (c ∷ t) (codes "/")).0 same, root_joined)
  | inr other ↦ rw other refl
]

parameterize_nil : parameterize_path [] ≡ []
unfolding parameterize_path
parameterize_nil = refl

segments_nil : segments [] ≡ map template_of (segments [])
unfolding split_on template_of trim_left trim_right
segments_nil = refl

-- The template of a path is its own template.
parameterize_path_idem : (p : Text) → parameterize_path (parameterize_path p) ≡ parameterize_path p
parameterize_path_idem [] = ap parameterize_path parameterize_nil
parameterize_path_idem (c ∷ t) =
    let p = c ∷ t in
    rw
      (
        parameterize_path-joined c t,
        parameterize_path-joined slash (joined p),
        segments-cons-joined p,
        map_fixed (map template_of (segments p)) (map-settled (segments p)),
      )
      refl

-- The segments of the template of a path are the templates of its segments, however many
-- slashes it starts or ends with; and in none of them a UUID, a hash or
-- a number is left. The template of a template is itself.
pub parameterize_path_lem :
    (p : Text)
    → (segments (parameterize_path p) ≡ map template_of (segments p))
      × ((all settled (segments (parameterize_path p)) ≡ true)
          × (parameterize_path (parameterize_path p) ≡ parameterize_path p))
parameterize_path_lem [] = (
  rw parameterize_nil segments_nil,
  (rw (parameterize_nil, segments_nil) (map-settled (segments [])), parameterize_path_idem []),
)
parameterize_path_lem (c ∷ t) =
    let p = c ∷ t in
    let parts : segments (parameterize_path p) ≡ map template_of (segments p) =
      ap segments (parameterize_path-joined c t) ∙ segments-cons-joined p in
    (parts, (rw parts (map-settled (segments p)), parameterize_path_idem p))
