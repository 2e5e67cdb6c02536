-- ===== src/FileCache/Writers.antt =====
-- filecache.go, Set, call by call: several Sets at once over one directory, together with operations that
-- remove files. What a Set does between two calls of package os is one step.
use httpc.Prelude.{ℕ, ◌≡◌, Bool, true, false, none, some, List, [], ◌∷◌, take}
use httpc.Prelude.Text.{Text}
use httpc.Prelude.Dict.{Dict, lookup, insert, delete}
use httpc.Disk.{Disk, Entry, rename}
use httpc.FileCache.{fresh_file}

-- A Set under way, by the name of its temporary file: the file it is for, its data, and whether
-- these are written to the end, and when.
pub record Writer : Type 0 where
  pub target : Text
  pub content : List ℕ
  pub is_written : Bool
  pub time : ℕ

-- The directory, the Sets under way, and what all Sets so far have offered for a file.
pub record Shared : Type 0 where
  pub disk : Disk
  pub writers : Dict Writer
  pub offers : List (Text × List ℕ)

-- os.CreateTemp
unfoldable pub create_temp : Text → Text → List ℕ → ℕ → Shared → Shared
create_temp tmp target content now s = record {
  disk = insert tmp (fresh_file [] now) s.disk;
  writers =
      insert tmp (record { target = target; content = content; is_written = false; time = now })
        s.writers;
  offers = (target, content) ∷ s.offers;
}

-- A write to an open file that has no name any more is not seen in the directory.
unfoldable pub overwrite : Text → Entry → Disk → Disk
overwrite name e d = elim (lookup name d) [ none ↦ d | some old ↦ insert name e d ]

-- tmpFile.Write, while it has written n bytes ...
unfoldable pub write_part : Text → Writer → ℕ → ℕ → Shared → Shared
write_part tmp wr n now s = record s {
  disk = overwrite tmp (fresh_file (take n wr.content) now) s.disk;
}

-- ... and when it returns without an error
unfoldable pub write_whole : Text → Writer → ℕ → Shared → Shared
write_whole tmp wr now s = record s {
  disk = overwrite tmp (fresh_file wr.content now) s.disk;
  writers = insert tmp (record wr { is_written = true; time = now }) s.writers;
}

-- os.Rename; where there is no temporary file any more, it fails
unfoldable pub rename_temp : Text → Writer → Shared → Shared
rename_temp tmp wr s = record s {
  disk = rename tmp wr.target s.disk;
  writers = delete tmp s.writers;
}

-- os.Remove of the temporary file, on the error paths
unfoldable pub remove_temp : Text → Shared → Shared
remove_temp tmp s = record s { disk = delete tmp s.disk; writers = delete tmp s.writers }

-- os.Remove of any file, by Get, Del, Clear or CleanExpired
unfoldable pub remove_file : Text → Shared → Shared
remove_file name s = record s { disk = delete name s.disk }

-- Names of temporary files are told from those of entries by their start.
module _ (is_tmp : Text → Bool) where
  pub data Step : Shared → Shared → Type 0 where
    creates :
        (s : Shared) (tmp target : Text) (content : List ℕ) (now : ℕ)
        → is_tmp tmp ≡ true
        → is_tmp target ≡ false
        → lookup tmp s.writers ≡ none
        → Step s (create_temp tmp target content now s)
    writes_part :
        (s : Shared) (tmp : Text) (wr : Writer) (n now : ℕ)
        → lookup tmp s.writers ≡ some wr
        → wr.is_written ≡ false
        → Step s (write_part tmp wr n now s)
    writes_whole :
        (s : Shared) (tmp : Text) (wr : Writer) (now : ℕ)
        → lookup tmp s.writers ≡ some wr
        → wr.is_written ≡ false
        → Step s (write_whole tmp wr now s)
    renames :
        (s : Shared) (tmp : Text) (wr : Writer)
        → lookup tmp s.writers ≡ some wr
        → wr.is_written ≡ true
        → Step s (rename_temp tmp wr s)
    gives_up :
        (s : Shared) (tmp : Text) (wr : Writer)
        → lookup tmp s.writers ≡ some wr
        → Step s (remove_temp tmp s)
    removes : (s : Shared) (name : Text) → Step s (remove_file name s)

  pub data Reaches : Shared → Shared → Type 0 where
    start : (s : Shared) → Reaches s s
    step : (s t u : Shared) → Reaches s t → Step t u → Reaches s u
