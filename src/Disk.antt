-- ===== src/Disk.antt =====
-- The files of one directory, as the calls of package os see them: a name has an entry, with its
-- bytes and its modification time, or is a directory. The failures of the calls are arguments of
-- the code that makes them.
pub mod Totals
use httpc.Prelude.{ℕ, ◌+◌, Bool, Option, none, some, List, [], ◌∷◌, length, if◌then◌else◌}
use httpc.Prelude.Text.{Text}
use httpc.Prelude.Dict.{Dict, lookup, insert, delete}

pub record Entry : Type 0 where
  pub is_dir : Bool
  pub content : List ℕ
  pub mod_time : ℕ

abbrev pub Disk : Type 0
Disk = Dict Entry

-- os.Rename, where it succeeds
unfoldable pub rename : Text → Text → Disk → Disk
rename from to d = elim (lookup from d) [ none ↦ d | some e ↦ insert to e (delete from d) ]

-- what an entry counts for in the size of a cache; a directory is not counted
abbrev pub entry_size : Entry → ℕ
entry_size e = if e.is_dir then 0 else length e.content

-- the sum over ReadDir
unfoldable pub total : Disk → ℕ
total [] = 0
total ((name, e) ∷ d) = let rest = total d in entry_size e + rest

abbrev pub size_at : Text → Disk → ℕ
size_at name d = elim (lookup name d) [ none ↦ 0 | some e ↦ entry_size e ]
