-- ===== src/Heap.antt =====
-- kernel/heap.cc: the allocator of the kernel, in blocks of 64-bit words with the block's size in its
-- first and last word. The array is a function of the index of a word; `base` is its address. Indices
-- and sizes are `uint64_t`, where the code does not put them in an `int`. The lock is held throughout
-- a call. `none` is a failed assertion or a panic. The checks of `sanity` are switched off by `safe`,
-- which nothing sets.
pub mod Words
pub mod Tiles
pub mod Links
pub mod Search
pub mod Order
pub mod Claim
pub mod Release
pub mod Start
pub mod Runs
pub mod Promises
use networking_p.Prelude.{
  ℕ, zero, suc, ◌+◌, ◌-◌, ◌*◌, ◌/◌, ◌%◌, ◌^◌, ltb, leb, ◌==◌, Bool, true, false, ◌&&◌, ◌||◌,
  if◌then◌else◌, Option, none, some,
}
use networking_p.Prelude.Assert.{◌>>=◌, ◌>>◌, assert}
use networking_p.Prelude.Words.{u64}

pub record Heap : Type 0 where
  pub base : ℕ
  pub array : ℕ → ℕ
  pub len : ℕ
  pub avail : ℕ
  pub n_malloc : ℕ
  pub n_free : ℕ
  pub n_leak : ℕ

-- `array[i] = v`
unfoldable pub store : ℕ → ℕ → Heap → Heap
store i v h = record h { array = λ k. if k == i then v else h.array k }

unfoldable pub is_taken : Heap → ℕ → Bool
is_taken h i = h.array i % 2 == 1

unfoldable pub size : Heap → ℕ → ℕ
size h i = h.array i / 2 * 2

unfoldable pub header_from_footer : Heap → ℕ → ℕ
header_from_footer h i = u64 (i + 2 ^ 64 - size h i + 1)

unfoldable pub footer_from_header : Heap → ℕ → ℕ
footer_from_header h i = u64 (i + size h i + 2 ^ 64 - 1)

unfoldable pub left : Heap → ℕ → ℕ
left h i = header_from_footer h (u64 (i + 2 ^ 64 - 1))

unfoldable pub right : Heap → ℕ → ℕ
right h i = u64 (i + size h i)

unfoldable pub next : Heap → ℕ → ℕ
next h i = h.array (u64 (i + 1))

unfoldable pub prev : Heap → ℕ → ℕ
prev h i = h.array (u64 (i + 2))

unfoldable pub set_next : ℕ → ℕ → Heap → Heap
set_next i x h = store (u64 (i + 1)) x h

unfoldable pub set_prev : ℕ → ℕ → Heap → Heap
set_prev i x h = store (u64 (i + 2)) x h

unfoldable pub remove : ℕ → Heap → Heap
remove i h =
    let before = prev h i in
    let after = next h i in
    let h1 = if before == 0 then record h { avail = after } else set_next before after h in
    if after == 0 then h1 else set_prev after before h1

-- The words at the two ends of a block.
unfoldable pub set_ends : ℕ → ℕ → Heap → Heap
set_ends i v h = let h1 = store i v h in store (footer_from_header h1 i) v h1

-- The part of `makeAvail` that puts the block at the head of the list.
unfoldable pub push : ℕ → Heap → Heap
push i h =
    let h1 = set_prev i 0 (set_next i h.avail h) in
    let h2 = if h1.avail == 0 then h1 else set_prev h1.avail i h1 in record h2 { avail = i }

unfoldable pub make_avail : ℕ → ℕ → Heap → Option Heap
make_avail i entry_count h = do
  assert (entry_count % 2 == 0)
  some (push i (set_ends i entry_count h))

unfoldable pub make_taken : ℕ → ℕ → Heap → Option Heap
make_taken i entry_count h = do assert (entry_count % 2 == 0); some (set_ends i (entry_count + 1) h)

-- `heap::init(base, bytes)` on a fresh heap, whose globals are zero.
unfoldable pub init : ℕ → ℕ → (ℕ → ℕ) → Option Heap
init base bytes array = do
  let aligned_base = u64 (u64 (base + 8 + 15) / 16 * 16 + 2 ^ 64 - 8)
  assert (aligned_base % 16 == 8)
  assert (leb base aligned_base)
  let delta = aligned_base - base
  assert (ltb delta 16)
  assert (leb delta bytes)
  let room = (bytes - delta) / 16 * 16
  assert (room % 16 == 0)
  assert (ltb 64 room)
  let len = room / 8
  h1 ← make_taken 0 2 (record {
    base = aligned_base;
    array = array;
    len = len;
    avail = 0;
    n_malloc = 0;
    n_free = 0;
    n_leak = 0;
  })
  h2 ← make_avail 2 (len - 4) h1
  make_taken (len - 2) 2 h2

-- `int x = n`, read again as a `uint64_t`: the sign is extended.
unfoldable pub to_int : ℕ → ℕ
to_int n = if ltb (n % 2 ^ 32) (2 ^ 31) then n % 2 ^ 32 else 2 ^ 64 - 2 ^ 32 + n % 2 ^ 32

-- `entries` of `malloc`: the words for so many bytes and the two ends of the block.
unfoldable pub entries_for : ℕ → ℕ
entries_for bytes =
    let needed = u64 (bytes + 7) / 8 + 2 in
    let entries = if ltb needed 4 then 4 else needed in
    if entries % 2 == 1 then entries + 1 else entries

-- The loop of `malloc`: `it` and `mx`. `none` is the panic, or a loop that has not ended within its
-- rounds.
unfoldable pub search : Heap → ℕ → ℕ → ℕ → ℕ → ℕ → ℕ → Option (ℕ × ℕ)
search h entries zero p count_down mx it = if p == 0 then some (it, mx) else none
search h entries (suc fuel) p count_down mx it = elim (p == 0) [
  | true ↦ some (it, mx)
  | false ↦ elim (is_taken h p) [
    | true ↦ none
    | false ↦ elim (leb entries (size h p)) [
      | false ↦ search h entries fuel (next h p) count_down mx it
      | true ↦
          let better = ltb (size h p) mx in
          let mx' = if better then size h p else mx in
          let it' = if better then p else it in
          elim (count_down - 1 == 0 || size h p == entries) [
            | true ↦ some (it', mx')
            | false ↦ search h entries fuel (next h p) (count_down - 1) mx' it'
          ]
    ]
  ]
]

-- The block that was found is cut in two if four words or more are left.
unfoldable pub take_block : ℕ → ℕ → ℕ → Heap → Option Heap
take_block it mx entries h =
    let extra = to_int (u64 (mx + 2 ^ 64 - entries)) in
    if leb 4 extra && ltb extra (2 ^ 63)
    then make_taken it entries h >>= make_avail (u64 (it + entries)) extra
    else make_taken it mx h

-- What `malloc` does with what it found: the pointer, 0 if nothing was found.
unfoldable pub hand_out : ℕ → ℕ → ℕ → Heap → Option (ℕ × Heap)
hand_out it mx entries h = elim (it == 0) [
  | true ↦ some (0, h)
  | false ↦ do
    h1 ← take_block it mx entries (remove it h)
    let res = u64 (h.base + 8 * u64 (it + 1))
    some (res, if res == 0 then h1 else record h1 { n_malloc = u64 (h1.n_malloc + 1) })
]

-- No list has more blocks than the heap has words, so `len` rounds are enough.
unfoldable pub malloc : ℕ → Heap → Option (ℕ × Heap)
malloc bytes h = elim (bytes == 0) [
  | true ↦ some (h.base, h)
  | false ↦ do
    (it, mx) ← search h (entries_for bytes) h.len h.avail 20 (2 ^ 64 - 1) 0
    hand_out it mx (entries_for bytes) h
]

-- The block on the left is taken in if it is available: the index and the size of the two.
unfoldable pub join_left : ℕ → ℕ → ℕ → Heap → ℕ × ℕ × Heap
join_left left_index idx sz h =
    if is_taken h left_index
    then (idx, sz, h)
    else (let h1 = remove left_index h in (left_index, to_int (u64 (sz + size h1 left_index)), h1))

unfoldable pub join_right : ℕ → ℕ → Heap → ℕ × Heap
join_right right_index sz h =
    if is_taken h right_index
    then (sz, h)
    else (let h1 = remove right_index h in (to_int (u64 (sz + size h1 right_index)), h1))

unfoldable pub free_block : ℕ → Heap → Option Heap
free_block idx h =
    let (idx1, sz1, h1) = join_left (to_int (left h idx)) idx (to_int (size h idx)) h in
    let (sz2, h2) = join_right (to_int (right h idx)) sz1 h1 in make_avail idx1 sz2 h2

unfoldable pub free : ℕ → Heap → Option Heap
free p h =
    if p == 0
    then some h
    else if p == h.base
    then some h
    else free_block (to_int (u64 (u64 (p + 2 ^ 64 - h.base) / 8 + 2 ^ 64 - 1)))
        (record h { n_free = u64 (h.n_free + 1) })

-- `operator new`, `operator new[]`
unfoldable pub operator_new : ℕ → Heap → Option (ℕ × Heap)
operator_new bytes h = do (p, g) ← malloc bytes h; if p == 0 then none else some (p, g)

-- `operator delete`, `operator delete[]`, with the size or without
unfoldable pub operator_delete : ℕ → Heap → Option Heap
operator_delete p h = free p h

-- `leak(p, flag)`
unfoldable pub leak : Bool → Heap → Heap
leak flag h = if flag then record h { n_leak = u64 (h.n_leak + 1) } else h
