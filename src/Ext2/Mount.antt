-- ===== src/Ext2/Mount.antt =====
-- `Ext2` of kernel/ext2.cc: mounting, and nodes by number. A division by zero and a shift by 32 or
-- more are `none` too.
pub mod Nodes
use networking_p.Prelude.{
  ℕ, zero, suc, ◌+◌, ◌-◌, ◌*◌, ◌/◌, ◌%◌, ◌^◌, Bool, true, false, not, ltb, leb, ◌==◌, Option, none,
  some, List, [], ◌∷◌, length, get_or,
}
use networking_p.Prelude.Assert.{◌>>=◌, ◌>>◌, assert}
use networking_p.Prelude.Words.{u32}
use networking_p.BlockIo.{BlockIo, read_thing, read_all}
use networking_p.Ext2.Layout.{
  SuperBlock, load_super_block, super_block_size, block_group_size, inode_table_at, node_data_size,
  load_node_data,
}
use networking_p.Ext2.Node.{Node}
use networking_p.Ext2.Entries.{node_find}

pub record Ext2 : Type 0 where
  pub device : BlockIo
  pub block_size : ℕ
  pub number_of_nodes : ℕ
  pub number_of_blocks : ℕ
  pub inode_size : ℕ
  pub n_groups : ℕ
  pub inode_tables : List ℕ
  pub inodes_per_group : ℕ

-- Where `get_node` reads.
unfoldable pub node_offset : Ext2 → ℕ → ℕ → ℕ
node_offset fs table_base index_in_group =
    u32 (table_base * fs.block_size + index_in_group * fs.inode_size)

unfoldable pub get_node : Ext2 → ℕ → Option Node
get_node fs number =
    let index = number - 1 in
    let group_index = index / fs.inodes_per_group in
    let table_base = get_or fs.inode_tables group_index 0 in
    do
      assert (ltb 0 number)
      assert (leb number fs.number_of_nodes)
      assert (not (fs.inodes_per_group == 0))
      assert (ltb group_index fs.n_groups)
      assert (leb table_base fs.number_of_blocks)
      bytes ←
          read_thing fs.device (node_offset fs table_base (index % fs.inodes_per_group))
            node_data_size
      some (record {
        number = number;
        block_size = fs.block_size;
        data_of = load_node_data bytes;
        device = fs.device;
      })

-- The loop over the groups.
unfoldable pub inode_tables_of : List ℕ → ℕ → ℕ → List ℕ
inode_tables_of table i zero = []
inode_tables_of table i (suc left) = inode_table_at table i ∷ inode_tables_of table (i + 1) left

-- The fields that the constructor fills in from the superblock and the group table.
unfoldable pub ext2_of : BlockIo → SuperBlock → ℕ → ℕ → List ℕ → Ext2
ext2_of device sb block_size n_groups table = record {
  device = device;
  block_size = block_size;
  number_of_nodes = sb.inodes_count;
  number_of_blocks = sb.blocks_count;
  inode_size = sb.inode_size;
  n_groups = n_groups;
  inode_tables = inode_tables_of table 0 n_groups;
  inodes_per_group = sb.inodes_per_group;
}

-- The constructor: the file system and its root node. A group table of 2^32 bytes or more never passes
-- the assertion on what `read_all` returns, since the count that it is given is cut to 32 bits.
unfoldable pub mount : BlockIo → Option (Ext2 × Node)
mount device = do
  bytes ← read_thing device 1024 super_block_size
  let sb = load_super_block bytes
  let shift = u32 (sb.log_block_size + 10)
  assert (ltb shift 32)
  assert (not (sb.blocks_per_group == 0))
  let block_size = 2 ^ shift
  let n_groups = u32 (sb.blocks_count + sb.blocks_per_group + 2 ^ 32 - 1) / sb.blocks_per_group
  assert (leb sb.blocks_count (u32 (n_groups * sb.blocks_per_group)))
  let table_size = block_group_size * n_groups
  assert (ltb table_size (2 ^ 32))
  table ← read_thing device (u32 ((1024 / block_size + 1) * block_size)) table_size
  let fs = ext2_of device sb block_size n_groups table
  root ← get_node fs 2
  some (fs, root)

-- `find(dir, name)`: the inner `none` is the null reference.
unfoldable pub find : Ext2 → Node → List ℕ → Option (Option Node)
find fs dir name = do
  number ← node_find dir name
  elim (number == 0) [ true ↦ some none | false ↦ (do node ← get_node fs number; some (some node)) ]
