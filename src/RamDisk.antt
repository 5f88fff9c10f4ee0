-- ===== src/RamDisk.antt =====
-- kernel/ramdisk.cc: a disk that is a module loaded by the boot loader, with `streq` of
-- kernel/machine.S. The wait for the timer in `read_block` changes no state and is left out.
use networking_p.Prelude.{
  ℕ, ◌+◌, ◌-◌, ◌*◌, ◌/◌, ◌^◌, ◌≤◌, ◌<◌, ◌≡◌, sym, ap, ◌∙◌, Bool, true, false, not, ltb, lt→ltb,
  ◌==◌, if◌then◌else◌, Option, none, some, List, [], ◌∷◌, length, get_or, take, drop, take_comm,
  drop-take, length-take, length-drop, arith,
}
use networking_p.Prelude.Words.{u32}
use networking_p.BlockIo.{BlockIo, size_in_blocks}
use networking_p.BlockIo.Image.{IsImage}

-- `streq`: the strings agree up to a zero. Past its end a string has zeros.
unfoldable pub streq : List ℕ → List ℕ → Bool
streq [] b = get_or b 0 0 == 0
streq (x ∷ a) [] = x == 0
streq (x ∷ a) (y ∷ b) =
    let rest = streq a b in if not (x == y) then false else if x == 0 then true else rest

-- A module: its path, the memory from its address on, and its size.
pub record Module : Type 0 where
  pub path : List ℕ
  pub memory : List ℕ
  pub size : ℕ

-- `none` is the panic.
unfoldable pub find_module : List Module → List ℕ → Option Module
find_module [] name = none
find_module (m ∷ ms) name = if streq m.path name then some m else find_module ms name

abbrev pub disk_block : ℕ
disk_block = 512

unfoldable pub ram_read_block : Module → ℕ → Option (List ℕ)
ram_read_block m block =
    if ltb block (size_in_blocks disk_block (u32 m.size))
    then some (take disk_block (drop (u32 (disk_block * block)) m.memory))
    else none

abbrev pub ram_disk : Module → BlockIo
ram_disk m = record {
  block_size = disk_block;
  size_in_bytes = u32 m.size;
  read_block = ram_read_block m;
}

module _ (m : Module) (word : m.size + disk_block < 2 ^ 32)
    (room : (m.size + 511) / 512 * 512 ≤ length m.memory) where
  abbrev module_bytes : List ℕ
  module_bytes = take m.size m.memory

  length-module_bytes : length module_bytes ≡ m.size
  length-module_bytes = omega (arith, length-take m.size m.memory)

  ram_read_block-some :
      (b : ℕ) → b * 512 < m.size → ram_read_block m b ≡ some (take 512 (drop (512 * b) m.memory))
  unfolding ram_read_block size_in_blocks
  ram_read_block-some b lt =
      let inside : ltb b (u32 (u32 m.size + 512 + 2 ^ 32 - 1) / 512) ≡ true =
        lt→ltb _ _ (omega arith) in
      let place : u32 (512 * b) ≡ 512 * b = omega arith in simp (inside, place)

  block_bytes :
      (b : ℕ)
      → take (m.size - b * 512) (take 512 (drop (512 * b) m.memory))
        ≡ take 512 (drop (b * 512) module_bytes)
  block_bytes b =
      let place : 512 * b ≡ b * 512 = omega arith in
      rw place (
        take_comm (m.size - b * 512) 512 (drop (b * 512) m.memory)
        ∙ ap (take 512) (sym (drop-take (b * 512) m.size m.memory)))

-- The disk holds the module's bytes, if there is memory up to the end of its last block.
pub ram_disk-IsImage :
    (m : Module)
    → m.size + disk_block < 2 ^ 32
    → (m.size + 511) / 512 * 512 ≤ length m.memory
    → IsImage (ram_disk m) (take m.size m.memory)
ram_disk-IsImage m word room = record {
  block_pos = omega arith;
  size = omega (arith, size);
  word = omega (arith, size);
  block = λ b lt.
      let inside : b * 512 < m.size = omega (arith, size) in
      (
        take 512 (drop (512 * b) m.memory),
        ram_read_block-some m word room b inside,
        length-take 512 (drop (512 * b) m.memory) ∙ omega (arith, length-drop (512 * b) m.memory),
        rw size (block_bytes m word room b),
      );
}
  where
    size : length (take m.size m.memory) ≡ m.size
    size = length-module_bytes m word room
