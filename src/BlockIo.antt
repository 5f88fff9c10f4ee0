-- ===== src/BlockIo.antt =====
-- kernel/block_io.cc and kernel/block_io.h: reads of bytes over reads of whole blocks. Offsets and
-- counts are `uint32_t`, results `int64_t`. The virtual methods are a record; `none` is a failed
-- assertion or a panic, which stops the machine.
pub mod Image
use networking_p.Prelude.{
  ℕ, zero, suc, ◌+◌, ◌-◌, ◌/◌, ◌%◌, ◌^◌, min, Bool, true, false, ltb, ◌==◌, if◌then◌else◌, Option,
  none, some, List, [], ◌++◌, take, drop,
}
use networking_p.Prelude.Words.{u32}

pub record BlockIo : Type 0 where
  pub block_size : ℕ
  pub size_in_bytes : ℕ
  pub read_block : ℕ → Option (List ℕ)

-- `size_in_blocks()`, of the block size and the size in bytes.
unfoldable pub size_in_blocks : ℕ → ℕ → ℕ
size_in_blocks block_size size = u32 (size + block_size + 2 ^ 32 - 1) / block_size

-- `stopped` is a failed assertion, `error` the result -1; `got n bytes` is the result `n` with
-- `bytes` written to the buffer, and `running` a loop that has not ended within its fuel.
pub data ReadResult : Type 0 where
  stopped : ReadResult
  error : ReadResult
  got : ℕ → List ℕ → ReadResult
  running : ReadResult

-- The block's bytes from `skip` on, `n` of them.
unfoldable pub read_part : BlockIo → ℕ → ℕ → ℕ → ReadResult
read_part d block_number skip n = elim (d.read_block block_number) [
  | none ↦ stopped
  | some block ↦ got n (take n (drop skip block))
]

-- `read(offset, desired_n, buffer)`. The two assertions of its first part hold for every input, as
-- do those of the branches.
unfoldable pub read : BlockIo → ℕ → ℕ → ReadResult
read d offset desired_n =
    let n = min desired_n (d.size_in_bytes - offset) in
    let offset_in_block = offset % d.block_size in
    let actual_n = min (d.block_size - offset_in_block) n in
    if ltb d.size_in_bytes offset
    then error
    else if offset == d.size_in_bytes
    then got 0 []
    else if actual_n == d.block_size
    then (if offset_in_block == 0
        then read_part d (offset / d.block_size) 0 d.block_size
        else stopped)
    else read_part d (offset / d.block_size) offset_in_block actual_n

-- The loop of `read_all`, with what it has read so far.
unfoldable pub read_loop : BlockIo → ℕ → ℕ → ℕ → ℕ → List ℕ → ReadResult
read_loop d zero offset n total bytes = if n == 0 then got total bytes else running
read_loop d (suc fuel) offset n total bytes = elim (n == 0) [
  | true ↦ got total bytes
  | false ↦ elim (read d offset n) [
    | stopped ↦ stopped
    | error ↦ error
    | running ↦ running
    | got count more ↦ elim (count == 0) [
      | true ↦ got total bytes
      | false ↦ read_loop d fuel (u32 (offset + count)) (n - count) (total + count) (bytes ++ more)
    ]
  ]
]

-- Each round reads a byte at least, so `n` rounds are enough.
unfoldable pub read_all : BlockIo → ℕ → ℕ → ReadResult
read_all d offset n = read_loop d n offset n 0 []

-- The template `read(offset, thing)` for a thing of `n` bytes: `none` if its assertion fails.
unfoldable pub read_thing : BlockIo → ℕ → ℕ → Option (List ℕ)
read_thing d offset n = elim (read_all d offset n) [
  | got count bytes ↦ if count == n then some bytes else none
  | _ ↦ none
]
