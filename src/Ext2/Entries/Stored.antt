-- ===== src/Ext2/Entries/Stored.antt =====
-- Directories laid out as ext2 stores them, read by `entries` of kernel/ext2.h.
use networking_p.Prelude.{
  ℕ, zero, suc, ◌+◌, ◌/◌, ◌%◌, ◌^◌, ◌≤◌, ◌<◌, ◌≡◌, refl, sym, ap, ◌∙◌, true, false, ltb, lt→ltb,
  le→ltb, some, List, [], ◌∷◌, ◌++◌, append_assoc, map, All, length, length-append, take, drop,
  drop-drop, drop-append, take-append_left, arith,
}
use networking_p.Prelude.Words.{u32}
use networking_p.BlockIo.{BlockIo, read_thing}
use networking_p.BlockIo.Image.{IsImage}
use networking_p.Ext2.Layout.{is_dir}
use networking_p.Ext2.Node.{Node, node_io}
use networking_p.Ext2.Node.Content.{IsFile, file_bytes, node_io-IsImage, read_thing-IsImage}
use networking_p.Ext2.Entries.{DirEntry, entry_at, finished, visit, entries_loop, entries}

-- An entry with what the code skips: the type of the file, and the bytes up to the next entry.
pub record StoredEntry : Type 0 where
  pub entry : DirEntry
  pub file_type : ℕ
  pub padding : List ℕ

-- The fields fit, and the length is that of the whole entry.
pub record IsStored (s : StoredEntry) : Type 0 where
  pub inode_word : s.entry.inode < 2 ^ 32
  pub size_word : s.entry.total_size < 2 ^ 16
  pub name_byte : length s.entry.name < 256
  pub whole : s.entry.total_size ≡ 8 + length s.entry.name + length s.padding

unfoldable pub entry_bytes : StoredEntry → List ℕ
entry_bytes s =
    let i = s.entry.inode in
    let t = s.entry.total_size in
    i % 256
    ∷ i / 256 % 256
    ∷ i / 2 ^ 16 % 256
    ∷ i / 2 ^ 24
    ∷ t % 256
    ∷ t / 256
    ∷ length s.entry.name
    ∷ s.file_type
    ∷ (s.entry.name ++ s.padding)

unfoldable pub dir_bytes : List StoredEntry → List ℕ
dir_bytes [] = []
dir_bytes (s ∷ ss) = entry_bytes s ++ dir_bytes ss

pub length-entry_bytes :
    (s : StoredEntry) → IsStored s → length (entry_bytes s) ≡ s.entry.total_size
unfolding entry_bytes
length-entry_bytes s v = omega (arith, v.whole, length-append s.entry.name s.padding)

module _ (d : BlockIo) (content : List ℕ) (v : IsImage d content) (s : StoredEntry) (rest : List ℕ)
    (offset : ℕ) (here : drop offset content ≡ entry_bytes s ++ rest)
    (within : offset + 8 + length s.entry.name ≤ length content) where
  -- A read `k` bytes behind the start of the entry.
  read_behind :
      (k n : ℕ)
      → k + n ≤ 8 + length s.entry.name
      → read_thing d (u32 (offset + k)) n ≡ some (take n (drop k (entry_bytes s ++ rest)))
  read_behind k n inside =
      let place : u32 (offset + k) ≡ offset + k = omega (arith, v.word) in
      rw place (
        read_thing-IsImage d content (offset + k) n v (omega arith)
        ∙ ap (λ (xs : List ℕ). some (take n xs))
            (sym (drop-drop k offset content) ∙ ap (drop k) here))

  read_inode : read_thing d offset 4 ≡ some (take 4 (entry_bytes s ++ rest))
  read_inode =
      read_thing-IsImage d content offset 4 v (omega arith)
      ∙ ap (λ (xs : List ℕ). some (take 4 xs)) here

  pub entry_at-stored :
      s.entry.inode < 2 ^ 32 → s.entry.total_size < 2 ^ 16 → entry_at d offset ≡ some s.entry
  unfolding entry_at entry_bytes
  entry_at-stored inode_word size_word =
      let name = s.entry.name in
      let same : (name ++ s.padding) ++ rest ≡ name ++ (s.padding ++ rest) =
        append_assoc name s.padding rest in
      let name_read : read_thing d (u32 (offset + 8)) (length name) ≡ some name =
        read_behind 8 (length name) (omega arith)
        ∙ ap (λ (xs : List ℕ). some (take (length name) xs)) same
        ∙ ap some (take-append_left name (s.padding ++ rest)) in
      rw (read_inode, read_behind 4 2 (omega arith), read_behind 6 1 (omega arith), name_read)
        (ground arith)

module _ (d : BlockIo) (content : List ℕ) (v : IsImage d content) where
  walk_end : (fuel offset : ℕ) → offset ≡ length content → entries_loop d fuel offset ≡ finished []
  unfolding entries_loop
  walk_end zero offset e =
      let at_end : ltb offset d.size_in_bytes ≡ false = le→ltb _ _ (omega (arith, v.size)) in
      rw at_end refl
  walk_end (suc fuel) offset e =
      let at_end : ltb offset d.size_in_bytes ≡ false = le→ltb _ _ (omega (arith, v.size)) in
      rw (entries_loop, at_end) refl

  pub walk_step :
      (fuel offset : ℕ) (e : DirEntry)
      → offset < length content
      → entry_at d offset ≡ some e
      → entries_loop d (suc fuel) offset
        ≡ visit e (entries_loop d fuel (u32 (offset + e.total_size)))
  unfolding entries_loop
  walk_step fuel offset e lt found =
      let inside : ltb offset d.size_in_bytes ≡ true = lt→ltb _ _ (omega (arith, v.size)) in
      rw (entries_loop, inside, found) refl

  -- Behind an entry lies what is laid out behind it.
  pub next_entry :
      (s : StoredEntry) (rest : List ℕ) (offset : ℕ)
      → IsStored s
      → drop offset content ≡ entry_bytes s ++ rest
      → drop (offset + s.entry.total_size) content ≡ rest
  next_entry s rest offset w here =
      let total = s.entry.total_size in
      let skip : total ≡ length (entry_bytes s) + 0 = omega (arith, length-entry_bytes s w) in
      sym (drop-drop total offset content)
      ∙ ap (drop total) here
      ∙ ap (λ (k : ℕ). drop k (entry_bytes s ++ rest)) skip
      ∙ drop-append (entry_bytes s) rest 0

  -- From the start of an entry on, the walk finds the entries that are laid out there.
  entries_loop-dir_bytes :
      (ss : List StoredEntry) (fuel offset : ℕ)
      → All IsStored ss
      → drop offset content ≡ dir_bytes ss
      → offset + length (dir_bytes ss) ≡ length content
      → length (dir_bytes ss) ≤ fuel
      → entries_loop d fuel offset ≡ finished (map (λ (s : StoredEntry). s.entry) ss)
  unfolding dir_bytes visit
  entries_loop-dir_bytes [] fuel offset stored here size enough = walk_end fuel offset (omega arith)
  entries_loop-dir_bytes (s ∷ ss) zero offset stored here size enough = absurd (
      omega (
        arith,
        length-append (entry_bytes s) (dir_bytes ss),
        length-entry_bytes s stored.0,
        stored.0.whole,
      ))
  entries_loop-dir_bytes (s ∷ ss) (suc fuel) offset stored here size enough =
      let total = s.entry.total_size in
      let w = stored.0 in
      let bytes = length-entry_bytes s w in
      let both = length-append (entry_bytes s) (dir_bytes ss) in
      let found =
        entry_at-stored d content v s (dir_bytes ss) offset here
          (omega (arith, bytes, both, w.whole)) w.inode_word w.size_word in
      let place : u32 (offset + total) ≡ offset + total = omega (arith, v.word, bytes, both) in
      let next = next_entry s (dir_bytes ss) offset w here in
      walk_step fuel offset s.entry (omega (arith, bytes, both, w.whole)) found
      ∙ ap (λ (k : ℕ). visit s.entry (entries_loop d fuel k)) place
      ∙ ap (visit s.entry) (
          entries_loop-dir_bytes ss fuel (offset + total) stored.1 next (omega (arith, bytes, both))
            (omega (arith, bytes, both, w.whole)))

-- A directory whose blocks hold entries laid out one after the other is read back as these entries:
-- numbers, lengths and names, in order, whatever the padding and the block size, also where an entry
-- lies across blocks.
pub entries-dir_bytes :
    (n : Node) (content : List ℕ) (count : ℕ) (ss : List StoredEntry)
    → IsFile n content count
    → is_dir n.data_of ≡ true
    → All IsStored ss
    → file_bytes n content count ≡ dir_bytes ss
    → entries n ≡ finished (map (λ (s : StoredEntry). s.entry) ss)
unfolding entries
entries-dir_bytes n content count ss f dir stored laid =
    let v = node_io-IsImage n content count f in
    let size : n.data_of.size_low ≡ length (dir_bytes ss) = v.size ∙ ap length laid in
    rw dir (
      entries_loop-dir_bytes (node_io n) (file_bytes n content count) v ss n.data_of.size_low 0
        stored laid (omega (arith, ap length laid)) (omega (arith, size)))
