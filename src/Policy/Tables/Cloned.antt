-- ===== src/Policy/Tables/Cloned.antt =====
-- ssrf.go, cloneIPNets: the copy has the blocks of the original, and is made of memory of its own.
use httpc.Prelude.{ℕ, ◌≤◌, ◌<◌, ◌≡◌, ◌∙◌, refl, List, [], ◌∷◌, All, arith}
use mathlib.Core.Path.{ap₂}
use httpc.Policy.Tables.{
  Memory, copy_bytes, new_object, clone_ip_net, clone_ip_nets, read_net, read_nets,
}

-- Everything that a net is made of was allocated before `base`.
abbrev pub IsBelow : ℕ → Memory → ℕ → Type 0
IsBelow base m n = (n < base) × ((m.object n).ip < base) × ((m.object n).mask < base)

abbrev pub IsAbove : ℕ → Memory → ℕ → Type 0
IsAbove base m n = (base ≤ n) × (base ≤ (m.object n).ip) × (base ≤ (m.object n).mask)

-- Memory below `base` is as it was.
pub record Keeps (base : ℕ) (m m' : Memory) : Type 0 where
  pub grows : m.next ≤ m'.next
  pub arrays : (a : ℕ) → a < base → m'.array a ≡ m.array a
  pub objects : (a : ℕ) → a < base → m'.object a ≡ m.object a

clone_ip_net-Keeps :
    (base : ℕ) (m : Memory) (n : ℕ) → base ≤ m.next → Keeps base m (clone_ip_net m n).0
unfolding clone_ip_net copy_bytes new_object
clone_ip_net-Keeps base m n h = record {
  grows = omega arith;
  arrays = λ a below. ground arith;
  objects = λ a below. ground arith;
}

clone_ip_net-read :
    (m : Memory) (n : ℕ)
    → IsBelow m.next m n
    → read_net (clone_ip_net m n).0 (clone_ip_net m n).1 ≡ read_net m n
unfolding clone_ip_net copy_bytes new_object
clone_ip_net-read m n h = ground arith

clone_ip_net-IsAbove :
    (m : Memory) (n : ℕ) → IsAbove m.next (clone_ip_net m n).0 (clone_ip_net m n).1
unfolding clone_ip_net copy_bytes new_object
clone_ip_net-IsAbove m n = (ground arith, ground arith, ground arith)

pub Keeps-refl : (base : ℕ) (m : Memory) → Keeps base m m
Keeps-refl base m = record {
  grows = omega arith;
  arrays = λ a below. refl;
  objects = λ a below. refl;
}

pub Keeps-trans :
    (base later : ℕ) (m n o : Memory)
    → base ≤ later
    → Keeps base m n
    → Keeps later n o
    → Keeps base m o
Keeps-trans base later m n o le a b = record {
  grows = omega (arith, a.grows, b.grows);
  arrays = λ x below. b.arrays x (omega (arith, le)) ∙ a.arrays x below;
  objects = λ x below. b.objects x (omega (arith, le)) ∙ a.objects x below;
}

read_net-Keeps :
    (base : ℕ) (m m' : Memory) (n : ℕ)
    → Keeps base m m'
    → IsBelow base m n
    → read_net m' n ≡ read_net m n
read_net-Keeps base m m' n k (low, ip, mask) =
    ground (arith, k.objects n low, k.arrays (m.object n).ip ip, k.arrays (m.object n).mask mask)

pub read_nets-Keeps :
    (base : ℕ) (m m' : Memory) (ns : List ℕ)
    → Keeps base m m'
    → All (IsBelow base m) ns
    → read_nets m' ns ≡ read_nets m ns
read_nets-Keeps base m m' [] k h = refl
read_nets-Keeps base m m' (n ∷ ns) k h =
    ap₂ ◌∷◌ (read_net-Keeps base m m' n k h.0) (read_nets-Keeps base m m' ns k h.1)

IsBelow-later :
    (base : ℕ) (m m' : Memory) (ns : List ℕ)
    → Keeps base m m'
    → base ≤ m'.next
    → All (IsBelow base m) ns
    → All (IsBelow m'.next m') ns
IsBelow-later base m m' [] k le h = tt
IsBelow-later base m m' (n ∷ ns) k le ((low, ip, mask), h) =
    (ground (arith, k.objects n low), IsBelow-later base m m' ns k le h)

clone_ip_net-IsBelow : (m : Memory) (n : ℕ) → let (m', c) = clone_ip_net m n in IsBelow m'.next m' c
unfolding clone_ip_net copy_bytes new_object
clone_ip_net-IsBelow m n = (omega arith, ground arith, ground arith)

pub clone_ip_nets-Keeps :
    (base : ℕ) (m : Memory) (ns : List ℕ) → base ≤ m.next → Keeps base m (clone_ip_nets m ns).0
unfolding clone_ip_nets
clone_ip_nets-Keeps base m [] h = Keeps-refl base m
clone_ip_nets-Keeps base m (n ∷ ns) h =
    let first = clone_ip_net-Keeps base m n h in
    Keeps-trans base base m (clone_ip_net m n).0 _ (omega arith) first
      (clone_ip_nets-Keeps base (clone_ip_net m n).0 ns (omega (arith, first.grows)))

-- A copy has the blocks of the original.
pub clone_ip_nets-read :
    (m : Memory) (ns : List ℕ)
    → All (IsBelow m.next m) ns
    → read_nets (clone_ip_nets m ns).0 (clone_ip_nets m ns).1 ≡ read_nets m ns
unfolding clone_ip_nets
clone_ip_nets-read m [] h = refl
clone_ip_nets-read m (n ∷ ns) h =
    let m' = (clone_ip_net m n).0 in
    let first = clone_ip_net-Keeps m.next m n (omega arith) in
    let rest = clone_ip_nets-Keeps m'.next m' ns (omega arith) in
    ap₂ ◌∷◌
      (read_net-Keeps m'.next m' (clone_ip_nets m' ns).0 (clone_ip_net m n).1 rest
          (clone_ip_net-IsBelow m n)
        ∙ clone_ip_net-read m n h.0)
      (clone_ip_nets-read m' ns (IsBelow-later m.next m m' ns first first.grows h.1)
        ∙ read_nets-Keeps m.next m m' ns first h.1)

IsAbove-Keeps :
    (base : ℕ) (m m' : Memory) (n : ℕ)
    → n < m.next
    → Keeps m.next m m'
    → IsAbove base m n
    → IsAbove base m' n
IsAbove-Keeps base m m' n low k h = ground (arith, k.objects n low)

pub clone_ip_nets-IsAbove :
    (base : ℕ) (m : Memory) (ns : List ℕ)
    → base ≤ m.next
    → All (IsAbove base (clone_ip_nets m ns).0) (clone_ip_nets m ns).1
unfolding clone_ip_nets
clone_ip_nets-IsAbove base m [] h = tt
clone_ip_nets-IsAbove base m (n ∷ ns) h =
    let m' = (clone_ip_net m n).0 in
    let first = clone_ip_net-Keeps base m n h in
    let (low, at, to) = clone_ip_net-IsAbove m n in
    (
      IsAbove-Keeps base m' (clone_ip_nets m' ns).0 (clone_ip_net m n).1
          (clone_ip_net-IsBelow m n).0 (clone_ip_nets-Keeps m'.next m' ns (omega arith))
          (omega (arith, h), omega (arith, h), omega (arith, h)),
      clone_ip_nets-IsAbove base m' ns (omega (arith, first.grows)),
    )
