-- ===== src/Tests/Disk.antt =====
-- Runs of kernel/block_io.cc, kernel/ramdisk.cc and kernel/ext2.cc on a disk of three blocks.
use networking_p.Prelude.{
  ℕ, ◌+◌, ◌-◌, min, ◌≡◌, refl, ltb, leb, ◌&&◌, ◌==◌, if◌then◌else◌, none, some, List, [], ◌∷◌, ◌++◌,
  map, length, take, drop, replicate, get_or, ◌*◌, arith, ◌≤◌, ◌<◌, zero, suc,
}
use networking_p.BlockIo.{got, error, read_all}
use networking_p.BlockIo.Image.{IsImage, read_all-IsImage}
use networking_p.RamDisk.{Module, ram_disk, ram_disk-IsImage}
use networking_p.Ext2.Layout.{is_dir}
use networking_p.Ext2.Node.{Node, node_io}
use networking_p.Ext2.Node.Content.{IsFile, file_bytes, gather, block_ref, node_io-IsImage}
use networking_p.Ext2.Entries.{finished, running, entries, entries_loop}
use networking_p.Ext2.Entries.Stored.{
  StoredEntry, IsStored, entry_bytes, dir_bytes, entries-dir_bytes,
}
use networking_p.Ext2.Entries.Stuck.{entries_loop-running}
use networking_p.Ext2.Mount.{Ext2, get_node}
use networking_p.Ext2.Mount.Nodes.{IsMounted, node_at, get_node-IsMounted}

-- ".", number 2, and "hi", number 5, which fills the block.
abbrev dot : StoredEntry
dot = record {
  entry = record { inode = 2; total_size = 12; name = 46 ∷ [] };
  file_type = 2;
  padding = 0 ∷ 0 ∷ 0 ∷ [];
}

abbrev hi : StoredEntry
hi = record {
  entry = record { inode = 5; total_size = 500; name = 104 ∷ 105 ∷ [] };
  file_type = 1;
  padding = replicate 490 0;
}

-- An entry of length zero.
abbrev empty_entry : StoredEntry
empty_entry = record {
  entry = record { inode = 7; total_size = 0; name = [] };
  file_type = 0;
  padding = [];
}

abbrev stored : List StoredEntry
stored = dot ∷ hi ∷ []

abbrev memory : List ℕ
memory = dir_bytes stored ++ (entry_bytes empty_entry ++ replicate 1016 7)

abbrev disk_module : Module
disk_module = record { path = 100 ∷ []; memory = memory; size = 1400 }

abbrev content : List ℕ
content = take 1400 memory

disk : IsImage (ram_disk disk_module) content
unfolding dir_bytes entry_bytes
disk = ram_disk-IsImage disk_module (omega arith) (omega arith)

ram_disk-IsImage_example : IsImage (ram_disk disk_module) content
unfolding dir_bytes entry_bytes
ram_disk-IsImage_example = ram_disk-IsImage disk_module (omega arith) (omega arith)

-- Across the end of the first block.
read_all-IsImage_example : read_all (ram_disk disk_module) 510 1000 ≡ (
    if ltb (length content) 510
    then (if ◌==◌ 1000 0 then got 0 [] else error)
    else got
        (min 1000 (length content - 510))
        (take (min 1000 (length content - 510)) (drop 510 content)))
read_all-IsImage_example = read_all-IsImage (ram_disk disk_module) content 510 1000 disk

abbrev root : Node
root = record {
  number = 2;
  block_size = 512;
  data_of = record {
    mode = 0x41ed;
    size_low = 512;
    n_links = 2;
    n_sectors = 1;
    blocks = replicate 60 0;
  };
  device = ram_disk disk_module;
}

root-IsFile : IsFile root content 1
unfolding dir_bytes entry_bytes block_ref
root-IsFile = record {
  device = disk;
  block_pos = omega arith;
  size_word = omega arith;
  covered = omega arith;
  sectors = omega arith;
  indexed = omega arith;
  indirect = λ lt. absurd (omega arith);
  inside = inside;
}
  where
    inside : (b : ℕ) → b < 1 → block_ref root content b * 512 + 512 ≤ length content
    inside zero lt = omega arith
    inside (suc b) lt = absurd (omega arith)

node_io-IsImage_example : IsImage (node_io root) (file_bytes root content 1)
node_io-IsImage_example = node_io-IsImage root content 1 root-IsFile

dot-IsStored : IsStored dot
dot-IsStored = omega arith

hi-IsStored : IsStored hi
hi-IsStored = omega arith

entries-dir_bytes_example : entries root ≡ finished (map (λ (s : StoredEntry). s.entry) stored)
unfolding dir_bytes entry_bytes is_dir file_bytes gather block_ref
entries-dir_bytes_example =
    entries-dir_bytes root content 1 stored root-IsFile refl (dot-IsStored, (hi-IsStored, tt)) refl

-- The walk of the whole disk as one directory, which comes to the entry of length zero.
entries_loop-running_example : entries_loop (ram_disk disk_module) 1000 0 ≡ running
unfolding dir_bytes entry_bytes
entries_loop-running_example =
    entries_loop-running (ram_disk disk_module) content stored empty_entry
      (take 880 (replicate 1016 7)) 1000 0 disk (dot-IsStored, (hi-IsStored, tt)) (omega arith) refl
      (omega arith)

-- One group of three nodes, in the third block.
abbrev fs : Ext2
fs = record {
  device = ram_disk disk_module;
  block_size = 512;
  number_of_nodes = 3;
  number_of_blocks = 3;
  inode_size = 128;
  n_groups = 1;
  inode_tables = 1 ∷ [];
  inodes_per_group = 3;
}

fs-IsMounted : IsMounted fs content
unfolding dir_bytes entry_bytes
fs-IsMounted = record {
  device = disk;
  some_nodes = omega arith;
  node_room = omega arith;
  nodes_in_groups = omega arith;
  table = table;
}
  where
    table :
        (g : ℕ)
        → g < 1
        → (get_or (let ts : List ℕ = 1 ∷ [] in ts) g 0 ≤ 3)
          × (get_or (let ts : List ℕ = 1 ∷ [] in ts) g 0 * 512 + 3 * 128 ≤ length content)
    table zero lt = (omega arith, omega arith)
    table (suc g) lt = absurd (omega arith)

get_node-IsMounted_example :
    get_node fs 2 ≡ (if ltb 0 2 && leb 2 3 then some (node_at fs content 2) else none)
get_node-IsMounted_example = get_node-IsMounted fs content 2 fs-IsMounted
