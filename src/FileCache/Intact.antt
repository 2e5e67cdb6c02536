-- ===== src/FileCache/Intact.antt =====
-- filecache.go, Set: the invariant of Sets that interleave, and the steps that write and remove files.
use httpc.Prelude.{
  ℕ, ◌≡◌, sym, ◌∙◌, ◌⊎◌, inl, inr, Bool, true, false, none, some, List, [], ◌∷◌, take, arith,
  Bool-cases,
}
use mathlib.Core.Path.{subst}
use httpc.Prelude.Text.{Text, text_eq, text_eq_iff, text_eq_refl}
use httpc.Prelude.Dict.{Dict, lookup, insert, delete, lookup-insert, lookup-delete}
use httpc.Disk.{Disk, Entry}
use httpc.FileCache.{fresh_file}
use httpc.FileCache.Writers.{
  Writer, Shared, overwrite, write_part, write_whole, remove_temp, remove_file,
}

-- Some Set has been called with this content for this file.
abbrev pub Offered : Text → List ℕ → List (Text × List ℕ) → Type 0
Offered name content [] = ⊥
Offered name content ((target, offer) ∷ offers) =
    ((target ≡ name) × (offer ≡ content)) ⊎ Offered name content offers

module _ (is_tmp : Text → Bool) (first : Disk) where
  pub record IsUnbroken (s : Shared) : Type 0 where
    pub whole :
        (tmp : Text) (wr : Writer)
        → lookup tmp s.writers ≡ some wr
        → wr.is_written ≡ true
        → (lookup tmp s.disk ≡ none) ⊎ (lookup tmp s.disk ≡ some (fresh_file wr.content wr.time))
    pub apart :
        (tmp : Text) (wr : Writer)
        → lookup tmp s.writers ≡ some wr
        → (is_tmp tmp ≡ true) × (is_tmp wr.target ≡ false)
    pub offered :
        (tmp : Text) (wr : Writer)
        → lookup tmp s.writers ≡ some wr
        → Offered wr.target wr.content s.offers
    pub entries :
        (name : Text) (e : Entry)
        → is_tmp name ≡ false
        → lookup name s.disk ≡ some e
        → (lookup name first ≡ some e) ⊎ Offered name e.content s.offers

  lookup-overwrite :
      (name j : Text) (e : Entry) (d : Disk)
      → text_eq name j ≡ false
      → lookup j (overwrite name e d) ≡ lookup j d
  unfolding overwrite
  lookup-overwrite name j e d other = ground (arith, lookup-insert name j e d)

  overwrite_self :
      (name : Text) (e : Entry) (d : Disk)
      → (lookup name (overwrite name e d) ≡ none) ⊎ (lookup name (overwrite name e d) ≡ some e)
  unfolding overwrite
  overwrite_self name e d = ground (arith, lookup-insert name name e d, text_eq_refl name)

  -- A temporary file has another name than an entry.
  pub other_name : (tmp j : Text) → is_tmp tmp ≡ true → is_tmp j ≡ false → text_eq tmp j ≡ false
  other_name tmp j a b = ground (arith, text_eq_iff tmp j)

  pub remove_file-IsUnbroken :
      (s : Shared) (name : Text) → IsUnbroken s → IsUnbroken (remove_file name s)
  unfolding remove_file
  remove_file-IsUnbroken s name h = record {
    whole = λ tmp wr under done.
        ground (arith, h.whole tmp wr under done, lookup-delete name tmp s.disk);
    apart = h.apart;
    offered = h.offered;
    entries =
        λ j e entry found. h.entries j e entry (ground (arith, found, lookup-delete name j s.disk));
  }

  pub remove_temp-IsUnbroken :
      (s : Shared) (tmp : Text) → IsUnbroken s → IsUnbroken (remove_temp tmp s)
  unfolding remove_temp
  remove_temp-IsUnbroken s tmp h =
      let under : (j : Text) (wr : Writer)
          → lookup j (delete tmp s.writers) ≡ some wr
          → lookup j s.writers ≡ some wr =
        λ j wr e. ground (arith, e, lookup-delete tmp j s.writers) in
      record {
        whole = λ j wr e done.
            ground (arith, h.whole j wr (under j wr e) done, lookup-delete tmp j s.disk);
        apart = λ j wr e. h.apart j wr (under j wr e);
        offered = λ j wr e. h.offered j wr (under j wr e);
        entries = λ j e entry found.
            h.entries j e entry (ground (arith, found, lookup-delete tmp j s.disk));
      }

  pub write_part-IsUnbroken :
      (s : Shared) (tmp : Text) (wr : Writer) (n now : ℕ)
      → lookup tmp s.writers ≡ some wr
      → wr.is_written ≡ false
      → IsUnbroken s
      → IsUnbroken (write_part tmp wr n now s)
  unfolding write_part
  write_part-IsUnbroken s tmp wr n now mine not_yet h =
      let e' = fresh_file (take n wr.content) now in
      record {
        whole = λ j v under done. elim (Bool-cases (text_eq tmp j)) [
          | inl same ↦
              let e = (text_eq_iff tmp j).0 same in
              absurd (ground (arith, e, mine, under, not_yet, done))
          | inr other ↦ rw (lookup-overwrite tmp j e' s.disk other) (h.whole j v under done)
        ];
        apart = h.apart;
        offered = h.offered;
        entries = λ j e entry found.
            let other = other_name tmp j (h.apart tmp wr mine).0 entry in
            h.entries j e entry (sym (lookup-overwrite tmp j e' s.disk other) ∙ found);
      }

  pub insert-cases :
      (k j : Text) (u v : Writer) (ws : Dict Writer)
      → lookup j (insert k u ws) ≡ some v
      → ((k ≡ j) × (u ≡ v)) ⊎ ((text_eq k j ≡ false) × (lookup j ws ≡ some v))
  insert-cases k j u v ws e = ground (arith, e, lookup-insert k j u ws, text_eq_iff k j)

  pub write_whole-IsUnbroken :
      (s : Shared) (tmp : Text) (wr : Writer) (now : ℕ)
      → lookup tmp s.writers ≡ some wr
      → IsUnbroken s
      → IsUnbroken (write_whole tmp wr now s)
  unfolding write_whole
  write_whole-IsUnbroken s tmp wr now mine h =
      let e' = fresh_file wr.content now in
      let done : Writer = record wr { is_written = true; time = now } in
      record {
        whole = λ j v under is_done. elim (insert-cases tmp j done v s.writers under) [
          | inl (same, e) ↦ rw (sym same, sym e) (overwrite_self tmp e' s.disk)
          | inr (other, before) ↦
              rw (lookup-overwrite tmp j e' s.disk other) (h.whole j v before is_done)
        ];
        apart = λ j v under. elim (insert-cases tmp j done v s.writers under) [
          | inl (same, e) ↦ rw (sym same, sym e) (h.apart tmp wr mine)
          | inr (other, before) ↦ h.apart j v before
        ];
        offered = λ j v under. elim (insert-cases tmp j done v s.writers under) [
          | inl (same, e) ↦
              subst (λ u. Offered u.target u.content s.offers) e (h.offered tmp wr mine)
          | inr (other, before) ↦ h.offered j v before
        ];
        entries = λ j e entry found.
            let other = other_name tmp j (h.apart tmp wr mine).0 entry in
            h.entries j e entry (sym (lookup-overwrite tmp j e' s.disk other) ∙ found);
      }
