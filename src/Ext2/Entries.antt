-- ===== src/Ext2/Entries.antt =====
-- `entries`, `find` and `entry_count` of `Node` in kernel/ext2.h and kernel/ext2.cc.
pub mod Stored
pub mod Stuck
use networking_p.Prelude.{
  ℕ, zero, suc, ◌+◌, Bool, true, false, ltb, if◌then◌else◌, Option, none, some, List, [], ◌∷◌,
}
use networking_p.Prelude.Assert.{◌>>=◌, ◌>>◌, assert}
use networking_p.Prelude.Words.{u32}
use networking_p.Wire.{byte, load16}
use networking_p.BlockIo.{BlockIo, read_thing}
use networking_p.RamDisk.{streq}
use networking_p.Ext2.Layout.{load32, is_dir}
use networking_p.Ext2.Node.{Node, node_io}

-- What `work` is called with, and the length of the entry.
pub record DirEntry : Type 0 where
  pub inode : ℕ
  pub total_size : ℕ
  pub name : List ℕ

-- The reads of one round.
unfoldable pub entry_at : BlockIo → ℕ → Option DirEntry
entry_at d offset = do
  inode ← read_thing d offset 4
  total_size ← read_thing d (u32 (offset + 4)) 2
  name_length ← read_thing d (u32 (offset + 6)) 1
  name ← read_thing d (u32 (offset + 8)) (byte name_length 0)
  some (record { inode = load32 inode 0; total_size = load16 total_size 0; name = name })

-- `running` is a walk that has not come to the end of the directory within its fuel.
pub data Walk : Type 0 where
  finished : List DirEntry → Walk
  stopped : Walk
  running : Walk

unfoldable pub visit : DirEntry → Walk → Walk
visit e (finished es) = finished (e ∷ es)
visit e stopped = stopped
visit e running = running

-- The loop: the entries that `work` sees, in order.
unfoldable pub entries_loop : BlockIo → ℕ → ℕ → Walk
entries_loop d zero offset = if ltb offset d.size_in_bytes then running else finished []
entries_loop d (suc fuel) offset = elim (ltb offset d.size_in_bytes) [
  | false ↦ finished []
  | true ↦ elim (entry_at d offset) [
    | none ↦ stopped
    | some e ↦ visit e (entries_loop d fuel (u32 (offset + e.total_size)))
  ]
]

-- An entry takes a byte at least unless its length is zero, so the size of the directory is enough.
unfoldable pub entries : Node → Walk
entries n = if is_dir n.data_of then entries_loop (node_io n) n.data_of.size_low 0 else stopped

-- The number for a name: that of the last entry with the name, or 0.
unfoldable pub find_in : List DirEntry → List ℕ → ℕ → ℕ
find_in [] name out = out
find_in (e ∷ es) name out = find_in es name (if streq name e.name then e.inode else out)

-- `none` if the walk does not finish.
unfoldable pub node_find : Node → List ℕ → Option ℕ
node_find n name = elim (entries n) [ finished es ↦ some (find_in es name 0) | _ ↦ none ]

unfoldable pub count_entries : List DirEntry → ℕ → ℕ
count_entries [] count = count
count_entries (e ∷ es) count = count_entries es (u32 (count + 1))

unfoldable pub entry_count : Node → Option ℕ
entry_count n = elim (entries n) [ finished es ↦ some (count_entries es 0) | _ ↦ none ]
