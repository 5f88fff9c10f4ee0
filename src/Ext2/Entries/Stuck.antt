-- ===== src/Ext2/Entries/Stuck.antt =====
-- A directory entry of length zero, in `entries` of kernel/ext2.h.
use networking_p.Prelude.{
  ℕ, zero, suc, ◌+◌, ◌^◌, ◌≤◌, ◌<◌, ◌≡◌, refl, ap, ◌∙◌, true, ltb, lt→ltb, some, List, [], ◌∷◌,
  ◌++◌, append_assoc, All, length, length-append, drop, arith,
}
use networking_p.Prelude.Words.{u32}
use networking_p.BlockIo.{BlockIo}
use networking_p.BlockIo.Image.{IsImage}
use networking_p.Ext2.Entries.{DirEntry, entry_at, running, visit, entries_loop}
use networking_p.Ext2.Entries.Stored.{
  StoredEntry, IsStored, entry_bytes, dir_bytes, length-entry_bytes, entry_at-stored, walk_step,
  next_entry,
}

-- The entry can be read, and its length is zero.
pub record IsEmpty (s : StoredEntry) : Type 0 where
  pub inode_word : s.entry.inode < 2 ^ 32
  pub no_size : s.entry.total_size ≡ 0

module _ (d : BlockIo) (content : List ℕ) (v : IsImage d content) where
  -- A walk at an entry that leads back to itself does not end.
  stays :
      (fuel offset : ℕ) (e : DirEntry)
      → offset < length content
      → entry_at d offset ≡ some e
      → e.total_size ≡ 0
      → entries_loop d fuel offset ≡ running
  unfolding entries_loop visit
  stays zero offset e lt found none_left =
      let inside : ltb offset d.size_in_bytes ≡ true = lt→ltb _ _ (omega (arith, v.size)) in
      rw inside refl
  stays (suc fuel) offset e lt found none_left =
      let place : u32 (offset + e.total_size) ≡ offset = omega (arith, v.word, none_left) in
      walk_step d content v fuel offset e lt found
      ∙ ap (λ (k : ℕ). visit e (entries_loop d fuel k)) place
      ∙ ap (visit e) (stays fuel offset e lt found none_left)

  moves_on :
      (fuel offset : ℕ) (e : DirEntry)
      → offset < length content
      → entry_at d offset ≡ some e
      → ((f : ℕ) → entries_loop d f (u32 (offset + e.total_size)) ≡ running)
      → entries_loop d fuel offset ≡ running
  unfolding entries_loop visit
  moves_on zero offset e lt found rest =
      let inside : ltb offset d.size_in_bytes ≡ true = lt→ltb _ _ (omega (arith, v.size)) in
      rw inside refl
  moves_on (suc fuel) offset e lt found rest =
      walk_step d content v fuel offset e lt found ∙ ap (visit e) (rest fuel)

-- A directory in which an entry of length zero follows entries that are well formed: however many
-- rounds it is given, the walk does not end, and so `find` does not return.
pub entries_loop-running :
    (d : BlockIo) (content : List ℕ) (ss : List StoredEntry) (s : StoredEntry) (rest : List ℕ)
    (fuel offset : ℕ)
    → IsImage d content
    → All IsStored ss
    → IsEmpty s
    → drop offset content ≡ dir_bytes ss ++ (entry_bytes s ++ rest)
    → offset + length (dir_bytes ss) + 8 + length s.entry.name ≤ length content
    → entries_loop d fuel offset ≡ running
unfolding dir_bytes
entries_loop-running d content [] s rest fuel offset v stored w here within =
    stays d content v fuel offset s.entry (omega arith)
      (entry_at-stored d content v s rest offset here (omega arith) w.inode_word
        (omega (arith, w.no_size)))
      w.no_size
entries_loop-running d content (x ∷ ss) s rest fuel offset v stored w here within =
    let behind = dir_bytes ss ++ (entry_bytes s ++ rest) in
    let here' = here ∙ append_assoc (entry_bytes x) (dir_bytes ss) (entry_bytes s ++ rest) in
    let ok = stored.0 in
    let bytes = length-entry_bytes x ok in
    let both = length-append (entry_bytes x) (dir_bytes ss) in
    let place : u32 (offset + x.entry.total_size) ≡ offset + x.entry.total_size =
      omega (arith, v.word, bytes, both) in
    moves_on d content v fuel offset x.entry (omega (arith, bytes, both, ok.whole))
      (entry_at-stored d content v x behind offset here' (omega (arith, bytes, both, ok.whole))
        ok.inode_word ok.size_word)
      (λ f.
        ap (entries_loop d f) place
        ∙ entries_loop-running d content ss s rest f (offset + x.entry.total_size) v stored.1 w
            (next_entry d content v x behind offset ok here') (omega (arith, bytes, both)))
