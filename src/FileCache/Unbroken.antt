-- ===== src/FileCache/Unbroken.antt =====
-- filecache.go, Set: however Sets and removals interleave, an entry is never a part of what a Set wrote.
use httpc.Prelude.{
  ℕ, ◌≡◌, ap, sym, ◌∙◌, ◌⊎◌, inl, inr, refl, Bool, true, false, none, some, List, [], ◌∷◌, arith,
  Option-cases,
}
use mathlib.Core.Path.{subst}
use httpc.Prelude.Text.{Text, text_eq, text_eq_iff, text_eq_refl}
use httpc.Prelude.Dict.{lookup, insert, delete, lookup-insert, lookup-delete, insert-insert}
use httpc.Disk.{Disk, Entry, rename}
use httpc.FileCache.{fresh_file}
use httpc.FileCache.Setting.{store, finish, publish}
use httpc.FileCache.Spec.{calm_set}
use httpc.FileCache.Writers.{
  Writer, Shared, create_temp, overwrite, write_whole, rename_temp, Step, creates, writes_part,
  writes_whole, renames, gives_up, removes, Reaches, start, step,
}
use httpc.FileCache.Intact.{
  Offered, IsUnbroken, other_name, insert-cases, remove_file-IsUnbroken, remove_temp-IsUnbroken,
  write_part-IsUnbroken, write_whole-IsUnbroken,
}

module _ (is_tmp : Text → Bool) (first : Disk) where
  -- What a rename leaves at a name
  lookup-rename :
      (from to j : Text) (d : Disk)
      → (lookup j (rename from to d) ≡ lookup j d)
        ⊎ ((lookup j (rename from to d) ≡ none)
            ⊎ ((to ≡ j) × (lookup j (rename from to d) ≡ lookup from d)))
  unfolding rename
  lookup-rename from to j d = elim (Option-cases (lookup from d)) [
    | inl gone ↦ ground (arith, gone)
    | inr (e, there) ↦ ground (
      arith,
      there,
      lookup-insert to j e (delete from d),
      lookup-delete from j d,
      text_eq_iff to j,
    )
  ]

  create_temp-IsUnbroken :
      (s : Shared) (tmp target : Text) (content : List ℕ) (now : ℕ)
      → is_tmp tmp ≡ true
      → is_tmp target ≡ false
      → IsUnbroken is_tmp first s
      → IsUnbroken is_tmp first (create_temp tmp target content now s)
  unfolding create_temp
  create_temp-IsUnbroken s tmp target content now temporary entry h =
      let fresh : Writer = record {
        target = target;
        content = content;
        is_written = false;
        time = now;
      } in
      let empty = fresh_file [] now in
      record {
        whole = λ j v under is_done.
            elim (insert-cases is_tmp first tmp j fresh v s.writers under) [
              | inl (same, e) ↦ absurd (ground (arith, e, is_done))
              | inr (other, before) ↦
                  ground
                    (arith, other, lookup-insert tmp j empty s.disk, h.whole j v before is_done)
            ];
        apart = λ j v under. elim (insert-cases is_tmp first tmp j fresh v s.writers under) [
          | inl (same, e) ↦ rw (sym same, sym e) (temporary, entry)
          | inr (other, before) ↦ h.apart j v before
        ];
        offered = λ j v under. elim (insert-cases is_tmp first tmp j fresh v s.writers under) [
          | inl (same, e) ↦
              subst (λ u. Offered u.target u.content ((target, content) ∷ s.offers)) e
                (inl (refl, refl))
          | inr (other, before) ↦ inr (h.offered j v before)
        ];
        entries = λ j e is_entry found.
            let other = other_name is_tmp first tmp j temporary is_entry in
            elim (h.entries j e is_entry
              (ground (arith, found, other, lookup-insert tmp j empty s.disk))) [
                | inl old ↦ inl old
                | inr offer ↦ inr (inr offer)
              ];
      }

  rename_temp-IsUnbroken :
      (s : Shared) (tmp : Text) (wr : Writer)
      → lookup tmp s.writers ≡ some wr
      → wr.is_written ≡ true
      → IsUnbroken is_tmp first s
      → IsUnbroken is_tmp first (rename_temp tmp wr s)
  unfolding rename_temp
  rename_temp-IsUnbroken s tmp wr mine done h =
      let under : (j : Text) (v : Writer)
          → lookup j (delete tmp s.writers) ≡ some v
          → (text_eq tmp j ≡ false) × (lookup j s.writers ≡ some v) =
        λ j v e. ground (arith, e, lookup-delete tmp j s.writers) in
      record {
        whole = λ j v e is_done.
            let (other, before) = under j v e in
            let mine_not =
              other_name is_tmp first j wr.target (h.apart j v before).0 (h.apart tmp wr mine).1 in
            elim (lookup-rename tmp wr.target j s.disk) [
              | inl same ↦ rw same (h.whole j v before is_done)
              | inr (inl gone) ↦ inl gone
              | inr (inr (e', moved)) ↦
                  absurd (ground (arith, e', mine_not, text_eq_iff j wr.target))
            ];
        apart = λ j v e. h.apart j v (under j v e).1;
        offered = λ j v e. h.offered j v (under j v e).1;
        entries = λ j e is_entry found. elim (lookup-rename tmp wr.target j s.disk) [
          | inl same ↦ h.entries j e is_entry (sym same ∙ found)
          | inr (inl gone) ↦ absurd (ground (arith, gone, found))
          | inr (inr (e', moved)) ↦
              let content : wr.content ≡ e.content =
                ground (arith, moved, found, h.whole tmp wr mine done) in
              inr (
                subst (λ c. Offered j c s.offers) content
                  (subst (λ t. Offered t wr.content s.offers) e' (h.offered tmp wr mine)))
        ];
      }

  Step-IsUnbroken :
      {s t : Shared} → Step is_tmp s t → IsUnbroken is_tmp first s → IsUnbroken is_tmp first t
  Step-IsUnbroken (creates s tmp target content now a b c) h =
      create_temp-IsUnbroken s tmp target content now a b h
  Step-IsUnbroken (writes_part s tmp wr n now a b) h =
      write_part-IsUnbroken is_tmp first s tmp wr n now a b h
  Step-IsUnbroken (writes_whole s tmp wr now a b) h =
      write_whole-IsUnbroken is_tmp first s tmp wr now a h
  Step-IsUnbroken (renames s tmp wr a b) h = rename_temp-IsUnbroken s tmp wr a b h
  Step-IsUnbroken (gives_up s tmp wr a) h = remove_temp-IsUnbroken is_tmp first s tmp h
  Step-IsUnbroken (removes s name) h = remove_file-IsUnbroken is_tmp first s name h

  reaches-IsUnbroken :
      {s t : Shared} → Reaches is_tmp s t → IsUnbroken is_tmp first s → IsUnbroken is_tmp first t
  reaches-IsUnbroken (start s) h = h
  reaches-IsUnbroken (step s t u run last) h = Step-IsUnbroken last (reaches-IsUnbroken run h)

  at_start : IsUnbroken is_tmp first (record { disk = first; writers = []; offers = [] })
  unfolding lookup
  at_start = record {
    whole = λ tmp wr e. absurd (ground arith);
    apart = λ tmp wr e. absurd (ground arith);
    offered = λ tmp wr e. absurd (ground arith);
    entries = λ j e is_entry found. inl found;
  }

  -- The steps of one Set alone do what `store` does.
  steps-store :
      (s : Shared) (tmp target : Text) (wr : Writer) (now : ℕ)
      → wr.target ≡ target
      → (rename_temp tmp wr (write_whole tmp wr now (create_temp tmp target wr.content now s))).disk
        ≡ (store (calm_set tmp) target wr.content now s.disk).0
  unfolding store finish publish rename_temp write_whole create_temp overwrite
  steps-store s tmp target wr now same =
      let empty = fresh_file [] now in
      let full = fresh_file wr.content now in
      let file : overwrite tmp full (insert tmp empty s.disk) ≡ insert tmp full s.disk = ground (
        arith,
        lookup-insert tmp tmp empty s.disk,
        text_eq_refl tmp,
        insert-insert tmp empty full s.disk,
      ) in
      ap (λ d. rename tmp wr.target d) file ∙ ap (λ t. rename tmp t (insert tmp full s.disk)) same

  -- However any number of Sets, each of them between any two of its calls of package os, and removals of any
  -- files interleave: a file that is not a temporary one is, at any moment, one that was there at first, or
  -- has the whole content that some Set offered for it. This takes of CreateTemp that its
  -- names are told from those of entries, and that no two Sets under way have the same.
  pub reached_whole :
      (s : Shared) (name : Text) (e : Entry)
      → Reaches is_tmp (record { disk = first; writers = []; offers = [] }) s
      → is_tmp name ≡ false
      → lookup name s.disk ≡ some e
      → (lookup name first ≡ some e) ⊎ Offered name e.content s.offers
  reached_whole s name e run is_entry found =
      let h = reaches-IsUnbroken run at_start in h.entries name e is_entry found
