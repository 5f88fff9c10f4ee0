-- ===== src/Ext2/Mount/Nodes.antt =====
-- Nodes by number, in a file system whose tables lie on the device: `get_node` and `find` of
-- kernel/ext2.cc and kernel/ext2.h.
use networking_p.Prelude.{
  ℕ, ◌+◌, ◌-◌, ◌*◌, ◌/◌, ◌%◌, ◌≤◌, ◌<◌, ◌≡◌, refl, ◌∙◌, true, false, ◌&&◌, ltb, leb, lt→ltb, ltb→lt,
  ◌==◌, ne→==, Bool-cases, inl, inr, if◌then◌else◌, none, some, List, length, get_or, take, drop,
  arith,
}
use native.Mathlib.Nat.{mod-lt, mul-le-mul_right, div-lt_iff_lt-mul}
use networking_p.Prelude.Words.{u32}
use networking_p.BlockIo.Image.{IsImage}
use networking_p.Ext2.Layout.{load_node_data, node_data_size}
use networking_p.Ext2.Node.{Node}
use networking_p.Ext2.Node.Content.{read_thing-IsImage}
use networking_p.Ext2.Mount.{Ext2, node_offset, get_node}

-- The table of every group lies on the device that holds `content`, with room for a node in each of
-- its places.
pub record IsMounted (fs : Ext2) (content : List ℕ) : Type 0 where
  pub device : IsImage fs.device content
  pub some_nodes : 0 < fs.inodes_per_group
  pub node_room : node_data_size ≤ fs.inode_size
  pub nodes_in_groups : fs.number_of_nodes ≤ fs.n_groups * fs.inodes_per_group
  pub table :
      (g : ℕ)
      → g < fs.n_groups
      → (get_or fs.inode_tables g 0 ≤ fs.number_of_blocks)
        × (get_or fs.inode_tables g 0 * fs.block_size + fs.inodes_per_group * fs.inode_size
            ≤ length content)

-- Where node `number` lies: its place in the table of its group.
unfoldable pub inode_place : Ext2 → ℕ → ℕ
inode_place fs number =
    get_or fs.inode_tables ((number - 1) / fs.inodes_per_group) 0 * fs.block_size
    + (number - 1) % fs.inodes_per_group * fs.inode_size

abbrev pub node_at : Ext2 → List ℕ → ℕ → Node
node_at fs content number = record {
  number = number;
  block_size = fs.block_size;
  data_of = load_node_data (take node_data_size (drop (inode_place fs number) content));
  device = fs.device;
}

module _ (fs : Ext2) (content : List ℕ) (v : IsMounted fs content) (number : ℕ) (pos : 0 < number)
    (le : number ≤ fs.number_of_nodes) where
  group_lt : (number - 1) / fs.inodes_per_group < fs.n_groups
  group_lt = (div-lt_iff_lt-mul v.some_nodes).1 (omega (arith, v.nodes_in_groups))

  inode_fits : inode_place fs number + node_data_size ≤ length content
  unfolding inode_place
  inode_fits =
      let g = (number - 1) / fs.inodes_per_group in
      let i = (number - 1) % fs.inodes_per_group in
      let before : i + 1 ≤ fs.inodes_per_group = omega (arith, mod-lt (number - 1) v.some_nodes) in
      let last = mul-le-mul_right fs.inode_size before in
      omega (arith, (v.table g group_lt).1, last, v.node_room)

  get_node-some : get_node fs number ≡ some (node_at fs content number)
  unfolding get_node node_offset inode_place
  get_node-some =
      let g = (number - 1) / fs.inodes_per_group in
      let table = get_or fs.inode_tables g 0 in
      let place = inode_place fs number in
      let wrap : u32 (table * fs.block_size + (number - 1) % fs.inodes_per_group * fs.inode_size)
          ≡ place =
        omega (arith, inode_fits, v.device.word) in
      let nonzero : ltb 0 number ≡ true = lt→ltb _ _ pos in
      let numbered : leb number fs.number_of_nodes ≡ true = ground arith in
      let divided : (fs.inodes_per_group == 0) ≡ false =
        ne→== _ _ (λ e. absurd (omega (arith, v.some_nodes))) in
      let grouped : ltb g fs.n_groups ≡ true = lt→ltb _ _ group_lt in
      let placed : leb table fs.number_of_blocks ≡ true = ground (arith, (v.table g group_lt).0) in
      rw
        (
          nonzero,
          numbered,
          divided,
          grouped,
          placed,
          wrap,
          read_thing-IsImage fs.device content place node_data_size v.device inode_fits,
        )
        refl

-- A node is found exactly for the numbers from 1 to the number of nodes, and it is the one that lies
-- at its place in the table of its group; for any other number the assertions fail.
pub get_node-IsMounted :
    (fs : Ext2) (content : List ℕ) (number : ℕ)
    → IsMounted fs content
    → get_node fs number ≡ (
        if ltb 0 number && leb number fs.number_of_nodes
        then some (node_at fs content number)
        else none)
unfolding get_node
get_node-IsMounted fs content number v = elim (Bool-cases (ltb 0 number)) [
  | inl pos ↦ elim (Bool-cases (leb number fs.number_of_nodes)) [
    | inl le ↦
        let chosen : some (node_at fs content number) ≡ (
            if ltb 0 number && leb number fs.number_of_nodes
            then some (node_at fs content number)
            else none) =
          rw (pos, le) refl in
        get_node-some fs content v number (ltb→lt _ _ pos) (ground arith) ∙ chosen
    | inr gt ↦ rw (pos, gt) refl
  ]
  | inr zero ↦ rw zero refl
]
