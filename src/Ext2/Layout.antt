-- ===== src/Ext2/Layout.antt =====
-- The structs of kernel/ext2.h as they lie on the device, little-endian: the fields that the code
-- reads, at their offsets. `direct0` to `indirect_3` are kept as the 60 bytes that they take, since
-- the code addresses them as an array and, for a symbolic link, as text.
use networking_p.Prelude.{ℕ, ◌+◌, ◌*◌, ◌/◌, ◌^◌, Bool, ◌==◌, List, take, drop}
use networking_p.Wire.{load16}

abbrev pub load32 : List ℕ → ℕ → ℕ
load32 mem i = load16 mem i + 2 ^ 16 * load16 mem (i + 2)

pub record SuperBlock : Type 0 where
  pub inodes_count : ℕ
  pub blocks_count : ℕ
  pub log_block_size : ℕ
  pub blocks_per_group : ℕ
  pub inodes_per_group : ℕ
  pub inode_size : ℕ

-- `sizeof(SuperBlock)`, `sizeof(BlockGroup)` and `sizeof(NodeData)`.
abbrev pub super_block_size : ℕ
super_block_size = 140

abbrev pub block_group_size : ℕ
block_group_size = 32

abbrev pub node_data_size : ℕ
node_data_size = 128

unfoldable pub load_super_block : List ℕ → SuperBlock
load_super_block mem = record {
  inodes_count = load32 mem 0;
  blocks_count = load32 mem 4;
  log_block_size = load32 mem 24;
  blocks_per_group = load32 mem 32;
  inodes_per_group = load32 mem 40;
  inode_size = load16 mem 88;
}

-- `groupTable[i].inode_table`
abbrev pub inode_table_at : List ℕ → ℕ → ℕ
inode_table_at table i = load32 table (block_group_size * i + 8)

pub record NodeData : Type 0 where
  pub mode : ℕ
  pub size_low : ℕ
  pub n_links : ℕ
  pub n_sectors : ℕ
  pub blocks : List ℕ

unfoldable pub load_node_data : List ℕ → NodeData
load_node_data mem = record {
  mode = load16 mem 0;
  size_low = load32 mem 4;
  n_links = load16 mem 26;
  n_sectors = load32 mem 28;
  blocks = take 60 (drop 40 mem);
}

unfoldable pub get_type : NodeData → ℕ
get_type n = n.mode / 2 ^ 12

unfoldable pub is_dir : NodeData → Bool
unfolding get_type
is_dir n = get_type n == 4

unfoldable pub is_file : NodeData → Bool
unfolding get_type
is_file n = get_type n == 8

unfoldable pub is_symlink : NodeData → Bool
unfolding get_type
is_symlink n = get_type n == 0xa
