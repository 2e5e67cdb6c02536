-- ===== src/Disk/Totals.antt =====
-- How the size of the files of a directory changes.
use httpc.Prelude.{◌+◌, ◌≡◌, [], ◌∷◌, arith}
use httpc.Prelude.Text.{Text, text_eq_iff}
use httpc.Prelude.Dict.{lookup, insert, delete, NodupKeys, delete_absent}
use httpc.Disk.{Entry, Disk, entry_size, total, size_at}

pub total-insert :
    (name : Text) (e : Entry) (d : Disk)
    → total (insert name e d) + size_at name d ≡ total d + entry_size e
unfolding total insert lookup
total-insert name e [] = omega arith
total-insert name e ((j, w) ∷ d) = ground (arith, total-insert name e d)

pub total-delete :
    (name : Text) (d : Disk) → NodupKeys d → total (delete name d) + size_at name d ≡ total d
unfolding total delete lookup
total-delete name [] h = omega arith
total-delete name ((j, w) ∷ d) (fresh, h) =
    ground (arith, total-delete name d h, delete_absent name d, text_eq_iff j name)
