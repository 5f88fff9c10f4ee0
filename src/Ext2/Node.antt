-- ===== src/Ext2/Node.antt =====
-- `Node` of kernel/ext2.cc and kernel/ext2.h: a file, directory or link as a block device over the
-- device of the file system. `none` is a failed assertion or the panic.
pub mod Content
use networking_p.Prelude.{
  ℕ, ◌+◌, ◌-◌, ◌*◌, ◌/◌, leb, ltb, ◌==◌, if◌then◌else◌, Option, none, some, List, take,
}
use networking_p.Prelude.Assert.{◌>>=◌, ◌>>◌, assert}
use networking_p.Prelude.Words.{u32}
use networking_p.BlockIo.{BlockIo, read_all, read_thing}
use networking_p.Ext2.Layout.{NodeData, load32, is_symlink}

pub record Node : Type 0 where
  pub number : ℕ
  pub block_size : ℕ
  pub data_of : NodeData
  pub device : BlockIo

-- The number of the device's block that holds block `index`: one of the twelve direct entries, or
-- an entry of the indirect block. The panic is for what lies behind those.
unfoldable pub block_index : Node → ℕ → Option ℕ
block_index n index =
    let refs_per_block = n.block_size / 4 in
    if ltb index 12
    then some (load32 n.data_of.blocks (4 * index))
    else if ltb index (12 + refs_per_block)
    then (do
      entry ←
          read_thing n.device (u32 (load32 n.data_of.blocks 48 * n.block_size + (index - 12) * 4)) 4
      some (load32 entry 0))
    else none

unfoldable pub node_read_block : Node → ℕ → Option (List ℕ)
node_read_block n index = do
  assert (ltb index (n.data_of.n_sectors / (n.block_size / 512)))
  k ← block_index n index
  read_thing n.device (u32 (k * n.block_size)) n.block_size

abbrev pub node_io : Node → BlockIo
node_io n = record {
  block_size = n.block_size;
  size_in_bytes = n.data_of.size_low;
  read_block = node_read_block n;
}

-- A short name lies in the node itself.
unfoldable pub get_symbol : Node → Option (List ℕ)
get_symbol n =
    let sz = n.data_of.size_low in
    do
      assert (is_symlink n.data_of)
      if leb sz 60 then some (take sz n.data_of.blocks) else read_thing (node_io n) 0 sz
