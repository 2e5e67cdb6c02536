-- ===== src/Policy/Tables/Tests.antt =====
-- The tables in a concrete memory, and a caller that writes through its copy.
use httpc.Prelude.{ℕ, ◌≡◌, refl, List, [], ◌∷◌, ◌==◌, arith, if◌then◌else◌}
use httpc.Policy.Tables.{
  Memory, Package, get_private_ip_nets, get_metadata_ip_nets, clone_ip_nets, clone_ip_net,
  copy_bytes, new_object, read_nets, Write, write_ip, assign, replace_mask, write, writes,
}
use httpc.Policy.Tables.Copied.{tables_kept}

-- 10.0.0.0/8 at address 2, and 169.254.169.254/32 at address 5
abbrev package_memory : Memory
package_memory = record {
  next = 6;
  array = λ a.
      if a == 0
      then 10 ∷ 0 ∷ 0 ∷ 0 ∷ []
      else if a == 1
      then 255 ∷ 0 ∷ 0 ∷ 0 ∷ []
      else if a == 3
      then 169 ∷ 254 ∷ 169 ∷ 254 ∷ []
      else 255 ∷ 255 ∷ 255 ∷ 255 ∷ [];
  object = λ a. if a == 2 then record { ip = 0; mask = 1 } else record { ip = 3; mask = 4 };
}

abbrev tables : Package
tables = record { memory = package_memory; private_nets = 2 ∷ []; metadata_nets = 5 ∷ [] }

abbrev spoil : List Write
spoil = write_ip 0 (0 ∷ 0 ∷ 0 ∷ 0 ∷ []) ∷ replace_mask 0 [] ∷ assign 0 0 ∷ []

abbrev held : Package × List ℕ
held = get_private_ip_nets tables

spoiled :
    read_nets (writes held.1 held.0.memory spoil) held.1
    ≡ record { ip = 0 ∷ 0 ∷ 0 ∷ 0 ∷ []; mask = [] } ∷ []
unfolding get_private_ip_nets clone_ip_nets clone_ip_net copy_bytes new_object writes write
spoiled = refl

tables_kept_example :
    let (q, privates) = get_private_ip_nets tables in
    let (r, metadata) = get_metadata_ip_nets tables in
    let m = writes privates q.memory spoil in
    let n = writes metadata r.memory spoil in
    (read_nets q.memory privates ≡ read_nets package_memory (2 ∷ []))
    × (read_nets r.memory metadata ≡ read_nets package_memory (5 ∷ []))
    × (read_nets m (2 ∷ []) ≡ read_nets package_memory (2 ∷ []))
    × (read_nets m (5 ∷ []) ≡ read_nets package_memory (5 ∷ []))
    × (read_nets n (2 ∷ []) ≡ read_nets package_memory (2 ∷ []))
    × (read_nets n (5 ∷ []) ≡ read_nets package_memory (5 ∷ []))
tables_kept_example = tables_kept tables spoil (omega arith) (omega arith)
