-- ===== src/Policy/Tables/Copied.antt =====
-- ssrf.go, PrivateIPNets and MetadataIPNets: a caller cannot change the tables.
use httpc.Prelude.{
  ℕ, zero, suc, ◌≤◌, ◌≡◌, refl, Option, none, some, List, [], ◌∷◌, All, arith, Option-cases, inl,
  inr,
}
use mathlib.Core.Path.{subst}
use httpc.Policy.Tables.{
  Slices, Memory, Package, update, clone_ip_nets, get_private_ip_nets, get_metadata_ip_nets,
  read_nets, Write, write_ip, write_mask, assign, replace_ip, replace_mask, get_elem?, write_at,
  write, writes, target, source,
}
use httpc.Policy.Tables.Cloned.{
  IsBelow, IsAbove, Keeps, Keeps-refl, Keeps-trans, read_nets-Keeps, clone_ip_nets-Keeps,
  clone_ip_nets-read, clone_ip_nets-IsAbove,
}

get_elem?-All : (P : ℕ → Type 0) (xs : List ℕ) (i x : ℕ) → All P xs → get_elem? xs i ≡ some x → P x
get_elem?-All P [] i x h e = absurd (ground arith)
get_elem?-All P (y ∷ ys) zero x h e = let same : y ≡ x = ground arith in subst P same h.0
get_elem?-All P (y ∷ ys) (suc i) x h e = get_elem?-All P ys i x h.1 e

module _ (base : ℕ) where
  -- One object is changed, and holds slices from `base` on.
  IsAbove-update :
      (m m' : Memory) (o : ℕ) (s : Slices) (ns : List ℕ)
      → m'.object ≡ update m.object o s
      → base ≤ s.ip
      → base ≤ s.mask
      → All (IsAbove base m) ns
      → All (IsAbove base m') ns
  IsAbove-update m m' o s [] e a b h = tt
  IsAbove-update m m' o s (n ∷ ns) e a b (h, hs) =
      (rw e (ground arith), IsAbove-update m m' o s ns e a b hs)

  IsAbove-same :
      (m m' : Memory) (ns : List ℕ)
      → m'.object ≡ m.object
      → All (IsAbove base m) ns
      → All (IsAbove base m') ns
  IsAbove-same m m' [] e h = tt
  IsAbove-same m m' (n ∷ ns) e (h, hs) = (rw e h, IsAbove-same m m' ns e hs)

  -- A write through one of the nets that the caller holds touches no memory below `base`.
  write_at-Keeps :
      (m : Memory) (o : ℕ) (w : Write) (from : Option ℕ)
      → IsAbove base m o
      → base ≤ m.next
      → Keeps base m (write_at m (some o) w from)
  write_at-Keeps m o (write_ip i bytes) from h le = record {
    grows = omega arith;
    arrays = λ a b. ground arith;
    objects = λ a b. refl;
  }
  write_at-Keeps m o (write_mask i bytes) from h le = record {
    grows = omega arith;
    arrays = λ a b. ground arith;
    objects = λ a b. refl;
  }
  write_at-Keeps m o (assign i j) none h le = Keeps-refl base m
  write_at-Keeps m o (assign i j) (some p) h le = record {
    grows = omega arith;
    arrays = λ a b. refl;
    objects = λ a b. ground arith;
  }
  write_at-Keeps m o (replace_ip i bytes) from h le = record {
    grows = omega arith;
    arrays = λ a b. ground arith;
    objects = λ a b. ground arith;
  }
  write_at-Keeps m o (replace_mask i bytes) from h le = record {
    grows = omega arith;
    arrays = λ a b. ground arith;
    objects = λ a b. ground arith;
  }

  -- ... and leaves the caller with nets of its own.
  write_at-IsAbove :
      (held : List ℕ) (m : Memory) (o : ℕ) (w : Write) (from : Option ℕ)
      → All (IsAbove base m) held
      → IsAbove base m o
      → ((p : ℕ) → from ≡ some p → IsAbove base m p)
      → base ≤ m.next
      → All (IsAbove base (write_at m (some o) w from)) held
  write_at-IsAbove held m o (write_ip i bytes) from hs h source le =
      IsAbove-same m (write_at m (some o) (write_ip i bytes) from) held refl hs
  write_at-IsAbove held m o (write_mask i bytes) from hs h source le =
      IsAbove-same m (write_at m (some o) (write_mask i bytes) from) held refl hs
  write_at-IsAbove held m o (assign i j) none hs h source le = hs
  write_at-IsAbove held m o (assign i j) (some p) hs h source le =
      let (low, ip, mask) = source p refl in
      IsAbove-update m (write_at m (some o) (assign i j) (some p)) o (m.object p) held refl ip mask
        hs
  write_at-IsAbove held m o (replace_ip i bytes) from hs h source le =
      IsAbove-update m (write_at m (some o) (replace_ip i bytes) from) o
        (record (m.object o) { ip = m.next }) held refl le h.2 hs
  write_at-IsAbove held m o (replace_mask i bytes) from hs h source le =
      IsAbove-update m (write_at m (some o) (replace_mask i bytes) from) o
        (record (m.object o) { mask = m.next }) held refl h.1 le hs

  write_kept :
      (held : List ℕ) (m : Memory) (w : Write)
      → All (IsAbove base m) held
      → base ≤ m.next
      → Keeps base m (write held m w) × All (IsAbove base (write held m w)) held
  unfolding write
  write_kept held m w hs le = elim (Option-cases (get_elem? held (target w))) [
    | inl e ↦ rw e (Keeps-refl base m, hs)
    | inr (o, e) ↦
        let own = get_elem?-All (IsAbove base m) held (target w) o hs e in
        let from = get_elem? held (source w) in
        rw e (
          write_at-Keeps m o w from own le,
          write_at-IsAbove held m o w from hs own
              (λ p f. get_elem?-All (IsAbove base m) held (source w) p hs f) le,
        )
  ]

  writes-Keeps :
      (held : List ℕ) (m : Memory) (ws : List Write)
      → All (IsAbove base m) held
      → base ≤ m.next
      → Keeps base m (writes held m ws)
  unfolding writes
  writes-Keeps held m [] hs le = Keeps-refl base m
  writes-Keeps held m (w ∷ ws) hs le =
      let (kept, own) = write_kept held m w hs le in
      Keeps-trans base base m (write held m w) _ (omega arith) kept
        (writes-Keeps held (write held m w) ws own (omega (arith, kept.grows)))

-- Whatever is written through a copy, the nets that were there before the copy stay as they were.
clone_ip_nets-writes :
    (m : Memory) (table there : List ℕ) (ws : List Write)
    → All (IsBelow m.next m) there
    → let (m', copies) = clone_ip_nets m table in
      read_nets (writes copies m' ws) there ≡ read_nets m there
clone_ip_nets-writes m table there ws h =
    let (m', copies) = clone_ip_nets m table in
    let cloned = clone_ip_nets-Keeps m.next m table (omega arith) in
    let own = clone_ip_nets-IsAbove m.next m table (omega arith) in
    let kept = writes-Keeps m.next copies m' ws own cloned.grows in
    read_nets-Keeps m.next m (writes copies m' ws) there
      (Keeps-trans m.next m.next m m' _ (omega arith) cloned kept) h

-- A caller of PrivateIPNets gets the blocks of that table, one of MetadataIPNets those of the other; and
-- whatever it then writes through the list that it got, to the bytes, the slices and the nets that it
-- can reach, in any order, both tables keep their blocks.
pub tables_kept :
    (p : Package) (ws : List Write)
    → All (IsBelow p.memory.next p.memory) p.private_nets
    → All (IsBelow p.memory.next p.memory) p.metadata_nets
    → let (q, privates) = get_private_ip_nets p in
      let (r, metadata) = get_metadata_ip_nets p in
      let m = writes privates q.memory ws in
      let n = writes metadata r.memory ws in
      (read_nets q.memory privates ≡ read_nets p.memory p.private_nets)
      × (read_nets r.memory metadata ≡ read_nets p.memory p.metadata_nets)
      × (read_nets m p.private_nets ≡ read_nets p.memory p.private_nets)
      × (read_nets m p.metadata_nets ≡ read_nets p.memory p.metadata_nets)
      × (read_nets n p.private_nets ≡ read_nets p.memory p.private_nets)
      × (read_nets n p.metadata_nets ≡ read_nets p.memory p.metadata_nets)
unfolding get_private_ip_nets get_metadata_ip_nets
tables_kept p ws h k =
    let m = p.memory in
    (
      clone_ip_nets-read m p.private_nets h,
      clone_ip_nets-read m p.metadata_nets k,
      clone_ip_nets-writes m p.private_nets p.private_nets ws h,
      clone_ip_nets-writes m p.private_nets p.metadata_nets ws k,
      clone_ip_nets-writes m p.metadata_nets p.private_nets ws h,
      clone_ip_nets-writes m p.metadata_nets p.metadata_nets ws k,
    )
