-- ===== src/Policy/Tables.antt =====
-- ssrf.go: PrivateIPNets and MetadataIPNets, the copies of the tables that a caller gets. A *net.IPNet is
-- the address of an object, whose two fields are slices; of a slice there is the address of its array.
pub mod Cloned
pub mod Copied
mod Tests
use httpc.Prelude.{ℕ, zero, suc, ◌+◌, Option, none, some, List, [], ◌∷◌, ◌==◌, if◌then◌else◌}
use httpc.Net.{IpNet}

pub record Slices : Type 0 where
  pub ip : ℕ
  pub mask : ℕ

-- Addresses from `next` on are free.
pub record Memory : Type 0 where
  pub next : ℕ
  pub array : ℕ → List ℕ
  pub object : ℕ → Slices

abbrev pub update {ℓ} : {A : Type ℓ} → (ℕ → A) → ℕ → A → ℕ → A
update f i a j = if i == j then a else f j

-- `append([]byte(nil), s...)`: a new array with the bytes of the slice
unfoldable pub copy_bytes : Memory → ℕ → Memory × ℕ
copy_bytes m s = (record m { next = m.next + 1; array = update m.array m.next (m.array s) }, m.next)

-- `&net.IPNet{...}`: a new object
unfoldable pub new_object : Memory → Slices → Memory × ℕ
new_object m s = (record m { next = m.next + 1; object = update m.object m.next s }, m.next)

-- the body of the loop
unfoldable pub clone_ip_net : Memory → ℕ → Memory × ℕ
clone_ip_net m n =
    let (m', ip) = copy_bytes m (m.object n).ip in
    let (m'', mask) = copy_bytes m' (m'.object n).mask in
    new_object m'' (record { ip = ip; mask = mask })

unfoldable pub clone_ip_nets : Memory → List ℕ → Memory × List ℕ
clone_ip_nets m [] = (m, [])
clone_ip_nets m (n ∷ ns) =
    let (m', copy) = clone_ip_net m n in
    let (m'', copies) = clone_ip_nets m' ns in (m'', copy ∷ copies)

-- The blocks that a list of *net.IPNet stands for.
abbrev pub read_net : Memory → ℕ → IpNet
read_net m n = record { ip = m.array (m.object n).ip; mask = m.array (m.object n).mask }

abbrev pub read_nets : Memory → List ℕ → List IpNet
read_nets m [] = []
read_nets m (n ∷ ns) = read_net m n ∷ read_nets m ns

-- The tables of the package: privateIPNets and metadataIPNets.
pub record Package : Type 0 where
  pub memory : Memory
  pub private_nets : List ℕ
  pub metadata_nets : List ℕ

-- PrivateIPNets
unfoldable pub get_private_ip_nets : Package → Package × List ℕ
get_private_ip_nets p =
    let (m, copies) = clone_ip_nets p.memory p.private_nets in (record p { memory = m }, copies)

-- MetadataIPNets
unfoldable pub get_metadata_ip_nets : Package → Package × List ℕ
get_metadata_ip_nets p =
    let (m, copies) = clone_ip_nets p.memory p.metadata_nets in (record p { memory = m }, copies)

-- What a caller may do with the nets that it was given, each by its place in the list: write to the
-- bytes of an address or of a mask, copy one net over another, and put a slice of its own in.
pub data Write : Type 0 where
  write_ip : ℕ → List ℕ → Write
  write_mask : ℕ → List ℕ → Write
  assign : ℕ → ℕ → Write
  replace_ip : ℕ → List ℕ → Write
  replace_mask : ℕ → List ℕ → Write

abbrev pub get_elem? : List ℕ → ℕ → Option ℕ
get_elem? [] i = none
get_elem? (x ∷ xs) zero = some x
get_elem? (x ∷ xs) (suc i) = get_elem? xs i

-- a write to the object at an address
abbrev pub write_at : Memory → Option ℕ → Write → Option ℕ → Memory
write_at m none w from = m
write_at m (some o) (write_ip i bytes) from = record m {
  array = update m.array (m.object o).ip bytes;
}
write_at m (some o) (write_mask i bytes) from = record m {
  array = update m.array (m.object o).mask bytes;
}
write_at m (some o) (assign i j) none = m
write_at m (some o) (assign i j) (some p) = record m { object = update m.object o (m.object p) }
write_at m (some o) (replace_ip i bytes) from = record m {
  next = m.next + 1;
  array = update m.array m.next bytes;
  object = update m.object o (record (m.object o) { ip = m.next });
}
write_at m (some o) (replace_mask i bytes) from = record m {
  next = m.next + 1;
  array = update m.array m.next bytes;
  object = update m.object o (record (m.object o) { mask = m.next });
}

abbrev pub target : Write → ℕ
target (write_ip i bytes) = i
target (write_mask i bytes) = i
target (assign i j) = i
target (replace_ip i bytes) = i
target (replace_mask i bytes) = i

abbrev pub source : Write → ℕ
source (assign i j) = j
source _ = 0

unfoldable pub write : List ℕ → Memory → Write → Memory
write held m w = write_at m (get_elem? held (target w)) w (get_elem? held (source w))

unfoldable pub writes : List ℕ → Memory → List Write → Memory
writes held m [] = m
writes held m (w ∷ ws) = writes held (write held m w) ws
