-- ===== src/Ext2/Node/Content.antt =====
-- What a node holds: the blocks of the device that its direct and indirect entries name, in order.
use networking_p.Prelude.{
  ℕ, zero, suc, ◌+◌, ◌-◌, ◌*◌, ◌/◌, ◌^◌, ◌≤◌, ◌<◌, min, ◌≡◌, refl, sym, ap, ◌∙◌, true, false, ltb,
  lt→ltb, le→ltb, ltb→le, ==_refl, Bool-cases, inl, inr, if◌then◌else◌, some, List, [], ◌++◌,
  length, length-append, take, drop, take_comm, drop-take, take-append_left, drop-append,
  length-take, length-drop, arith,
}
use networking_p.Prelude.Words.{u32}
use networking_p.BlockIo.{BlockIo, got, read_all, read_thing}
use networking_p.BlockIo.Image.{IsImage, read_all-IsImage}
use networking_p.Ext2.Layout.{load32}
use networking_p.Ext2.Node.{Node, block_index, node_read_block, node_io}

-- The template `read` gives the bytes, if they are all there.
pub read_thing-IsImage :
    (d : BlockIo) (content : List ℕ) (offset n : ℕ)
    → IsImage d content
    → offset + n ≤ length content
    → read_thing d offset n ≡ some (take n (drop offset content))
unfolding read_thing
read_thing-IsImage d content offset n v within =
    let all : min n (length content - offset) ≡ n = omega arith in
    let inside : ltb (length content) offset ≡ false = le→ltb _ _ (omega arith) in
    let same : read_all d offset n ≡ got n (take n (drop offset content)) =
      read_all-IsImage d content offset n v ∙ simp (inside, all) in
    rw (read_thing, same, ==_refl n) refl

-- Block `b` of the file as a block of the device, by the tables alone.
unfoldable pub block_ref : Node → List ℕ → ℕ → ℕ
block_ref n content b =
    if ltb b 12
    then load32 n.data_of.blocks (4 * b)
    else load32 (take 4 (drop (load32 n.data_of.blocks 48 * n.block_size + (b - 12) * 4) content)) 0

-- `count` blocks of the device, those that `ref` names from `b` on.
unfoldable pub gather : (ℕ → ℕ) → List ℕ → ℕ → ℕ → ℕ → List ℕ
gather ref content size b zero = []
gather ref content size b (suc count) =
    take size (drop (ref b * size) content) ++ gather ref content size (b + 1) count

-- A node whose blocks all lie on a device that holds `content`.
pub record IsFile (n : Node) (content : List ℕ) (count : ℕ) : Type 0 where
  pub device : IsImage n.device content
  pub block_pos : 0 < n.block_size
  pub size_word : n.data_of.size_low < 2 ^ 32
  pub covered : n.data_of.size_low ≤ count * n.block_size
  pub sectors : count ≤ n.data_of.n_sectors / (n.block_size / 512)
  pub indexed : count ≤ 12 + n.block_size / 4
  pub indirect :
      12 < count → load32 n.data_of.blocks 48 * n.block_size + n.block_size ≤ length content
  pub inside :
      (b : ℕ) → b < count → block_ref n content b * n.block_size + n.block_size ≤ length content

unfoldable pub file_bytes : Node → List ℕ → ℕ → List ℕ
file_bytes n content count =
    take n.data_of.size_low (gather (block_ref n content) content n.block_size 0 count)

module _ (ref : ℕ → ℕ) (content : List ℕ) (size : ℕ) where
  abbrev slice : ℕ → List ℕ
  slice b = take size (drop (ref b * size) content)

  length-slice : (b : ℕ) → ref b * size + size ≤ length content → length (slice b) ≡ size
  length-slice b inside =
      length-take size (drop (ref b * size) content)
      ∙ omega (arith, length-drop (ref b * size) content)

  length-gather :
      (b count : ℕ)
      → ((i : ℕ) → i < b + count → ref i * size + size ≤ length content)
      → length (gather ref content size b count) ≡ count * size
  unfolding gather
  length-gather b zero inside = omega arith
  length-gather b (suc count) inside =
      length-append (slice b) (gather ref content size (b + 1) count)
      ∙ (let rest = length-gather (b + 1) count (λ i lt. inside i (omega arith)) in
          omega (arith, length-slice b (inside b (omega arith)), rest))

  -- Block `b + i` of what was gathered.
  drop-gather :
      (b count i : ℕ)
      → ((j : ℕ) → j < b + count → ref j * size + size ≤ length content)
      → i < count
      → take size (drop (i * size) (gather ref content size b count)) ≡ slice (b + i)
  unfolding gather
  drop-gather b zero i inside lt = absurd (omega arith)
  drop-gather b (suc count) zero inside lt =
      let rest = gather ref content size (b + 1) count in
      let here : b + 0 ≡ b = omega arith in
      let nothing : 0 * size ≡ 0 = omega arith in
      rw (here, nothing)
        (ap (λ (k : ℕ). take k (slice b ++ rest)) (sym (length-slice b (inside b (omega arith))))
          ∙ take-append_left (slice b) rest)
  drop-gather b (suc count) (suc i) inside lt =
      let rest = gather ref content size (b + 1) count in
      let here : b + suc i ≡ b + 1 + i = omega arith in
      let skip : suc i * size ≡ length (slice b) + i * size =
        omega (arith, length-slice b (inside b (omega arith))) in
      rw (here, skip)
        (ap (take size) (drop-append (slice b) rest (i * size))
          ∙ drop-gather (b + 1) count i (λ j less. inside j (omega arith)) (omega arith))

module _ (n : Node) (content : List ℕ) (count : ℕ) (v : IsFile n content count) where
  abbrev ref : ℕ → ℕ
  ref = block_ref n content

  block_index-some : (b : ℕ) → b < count → block_index n b ≡ some (ref b)
  unfolding block_index block_ref
  block_index-some b lt = elim (Bool-cases (ltb b 12)) [
    | inl direct ↦ rw direct refl
    | inr behind ↦
        let table = load32 n.data_of.blocks 48 * n.block_size in
        let large : 12 ≤ b = ltb→le b 12 behind in
        let indexed : ltb b (12 + n.block_size / 4) ≡ true =
          lt→ltb _ _ (omega (arith, v.indexed)) in
        let fits = v.indirect (omega arith) in
        let entry : table + (b - 12) * 4 + 4 ≤ length content = omega (arith, v.indexed) in
        let place : u32 (table + (b - 12) * 4) ≡ table + (b - 12) * 4 =
          omega (arith, v.device.word) in
        rw (behind, indexed, place, read_thing-IsImage n.device content _ 4 v.device entry) refl
  ]

  node_read_block-some :
      (b : ℕ) → b < count → node_read_block n b ≡ some (slice ref content n.block_size b)
  unfolding node_read_block
  node_read_block-some b lt =
      let allowed : ltb b (n.data_of.n_sectors / (n.block_size / 512)) ≡ true =
        lt→ltb _ _ (omega (arith, v.sectors)) in
      let inside = v.inside b lt in
      let place : u32 (ref b * n.block_size) ≡ ref b * n.block_size =
        omega (arith, v.device.word, v.block_pos) in
      rw (allowed, block_index-some b lt, place)
        (read_thing-IsImage n.device content _ _ v.device inside)

  same_bytes :
      (b : ℕ)
      → b < count
      → take (n.data_of.size_low - b * n.block_size) (slice ref content n.block_size b)
        ≡ take n.block_size (drop (b * n.block_size) (file_bytes n content count))
  unfolding file_bytes
  same_bytes b lt =
      let all = gather ref content n.block_size 0 count in
      let start = b * n.block_size in
      let left = n.data_of.size_low - start in
      let here : 0 + b ≡ b = omega arith in
      let at_b : take n.block_size (drop start all) ≡ slice ref content n.block_size b =
        drop-gather ref content n.block_size 0 count b (λ i less. v.inside i (omega arith)) lt
        ∙ ap (λ (k : ℕ). slice ref content n.block_size k) here in
      ap (take left) (sym at_b)
      ∙ take_comm left n.block_size (drop start all)
      ∙ ap (take n.block_size) (sym (drop-take start n.data_of.size_low all))

-- A node is a device in its own right: it holds the bytes of its blocks, cut to its size.
pub node_io-IsImage :
    (n : Node) (content : List ℕ) (count : ℕ)
    → IsFile n content count
    → IsImage (node_io n) (file_bytes n content count)
unfolding file_bytes
node_io-IsImage n content count v = record {
  block_pos = v.block_pos;
  size = sym size;
  word = omega (arith, size, v.size_word);
  block = λ b lt.
      let few = within b (rw (sym size) lt) in
      (
        slice (block_ref n content) content n.block_size b,
        node_read_block-some n content count v b few,
        length-slice (block_ref n content) content n.block_size b (v.inside b few),
        rw size (same_bytes n content count v b few),
      );
}
  where
    within : (b : ℕ) → b * n.block_size < n.data_of.size_low → b < count
    within b lt = grind (arith, v.covered)

    size : length (file_bytes n content count) ≡ n.data_of.size_low
    size =
        length-take n.data_of.size_low (gather (block_ref n content) content n.block_size 0 count)
        ∙ omega (
          arith,
          v.covered,
          length-gather (block_ref n content) content n.block_size 0 count
              (λ i lt. v.inside i (omega arith)),
        )
