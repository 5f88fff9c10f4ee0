-- ===== src/PhysMem.antt =====
-- kernel/physmem.cc and kernel/physmem.h: the allocator of physical frames, `PhysMem`, with the
-- arrays and lists it works on. Free frames are linked through their own first words, so the memory
-- is part of the state, as a function of the address of a word; so is the array `frame_state`. The
-- ranges are objects of the heap that nothing else refers to, and are a list here. Addresses and
-- lengths are `uint64_t`. `none` is a panic or a failed assertion. `hhdm` is `Sys::hhdm_offset`.
pub mod Memory
pub mod Usable
pub mod Ranges
pub mod Owned
pub mod Steps
pub mod Twice
pub mod Claim
pub mod Outcome
pub mod Release
use networking_p.Prelude.{
  ℕ, zero, suc, ◌+◌, ◌-◌, ◌*◌, ◌%◌, ◌^◌, Bool, true, false, not, ◌&&◌, ◌||◌, ltb, leb, ◌==◌,
  if◌then◌else◌, Option, none, some, List, [], ◌∷◌,
}
use networking_p.Prelude.Assert.{◌>>=◌, ◌>>◌, assert}
use networking_p.Prelude.Words.{u64, ◌<<◌, ◌>>>◌}

abbrev pub log_frame_size : ℕ
log_frame_size = 12

abbrev pub frame_size : ℕ
frame_size = 2 ^ 12

-- `LIMINE_MEMMAP_USABLE`
abbrev pub memmap_usable : ℕ
memmap_usable = 0

-- `limine_memmap_entry`
pub record MemMapEntry : Type 0 where
  pub base : ℕ
  pub length : ℕ
  pub kind : ℕ

pub record Range : Type 0 where
  pub base : ℕ
  pub length : ℕ

-- The members of `PhysMem`, `frame_state` and the memory. A null pointer is 0.
pub record PhysMem : Type 0 where
  pub avail : ℕ
  pub free_ranges : List Range
  pub total_memory : ℕ
  pub frame_state : ℕ → ℕ
  pub memory : ℕ → ℕ

-- `PPN(val)`: 48 bits of a page number.
abbrev pub ppn_of : ℕ → ℕ
ppn_of val = val % 2 ^ 48

-- `VA(ppn)`: the address of the frame in the direct map.
abbrev pub frame_va : ℕ → ℕ → ℕ
frame_va hhdm ppn = u64 (u64 (ppn << log_frame_size) + hhdm)

-- `AvailFrame::ppn`, of the frame's address.
unfoldable pub frame_ppn : ℕ → ℕ → ℕ
frame_ppn hhdm frame = ppn_of (u64 (frame + 2 ^ 64 - hhdm) >>> log_frame_size)

-- Bits 47 to 63 are equal.
unfoldable pub check_canonical : ℕ → Option ℕ
check_canonical va = do assert (ltb va (2 ^ 47) || leb (2 ^ 64 - 2 ^ 47) va); some va

-- The body of the loop of `pa_in_usable_range`.
unfoldable pub usable_at : MemMapEntry → ℕ → Bool
usable_at e pa =
    let end = u64 (e.base + e.length) in
    if not (e.kind == memmap_usable)
    then false
    else if ltb e.length frame_size
    then false
    else if ltb end e.base
    then false
    else leb e.base pa && leb pa (end - frame_size)

unfoldable pub usable_in : List MemMapEntry → ℕ → Bool
usable_in [] pa = false
usable_in (e ∷ es) pa = if usable_at e pa then true else usable_in es pa

-- `none` is a null response.
unfoldable pub pa_in_usable_range : Option (List MemMapEntry) → ℕ → Bool
pa_in_usable_range none pa = false
pa_in_usable_range (some entries) pa = usable_in entries pa

unfoldable pub ppn_is_tracked : ℕ → Bool
ppn_is_tracked ppn = ltb ppn (2 ^ 16)

unfoldable pub write : (ℕ → ℕ) → ℕ → ℕ → ℕ → ℕ
write memory a v x = if x == a then v else memory x

-- The loop of the constructor; the last entry comes first.
unfoldable pub add_ranges : List MemMapEntry → PhysMem → PhysMem
add_ranges [] s = s
add_ranges (e ∷ es) s =
    if e.kind == memmap_usable
    then add_ranges es (record s {
      free_ranges = record { base = e.base; length = e.length } ∷ s.free_ranges;
      total_memory = u64 (s.total_memory + e.length);
    })
    else add_ranges es s

-- The object before its constructor runs: globals are zero.
abbrev pub unconstructed : (ℕ → ℕ) → PhysMem
unconstructed memory = record {
  avail = 0;
  free_ranges = [];
  total_memory = 0;
  frame_state = λ ppn. 0;
  memory = memory;
}

unfoldable pub phys_mem : Option (List MemMapEntry) → (ℕ → ℕ) → PhysMem
phys_mem none memory = unconstructed memory
phys_mem (some entries) memory = add_ranges entries (unconstructed memory)

-- `frame_state[ppn] = state` if the number is tracked.
unfoldable pub mark : (ℕ → ℕ) → ℕ → ℕ → ℕ → ℕ
mark frame_state ppn state = if ppn_is_tracked ppn then write frame_state ppn state else frame_state

-- The first branch of `alloc`: the frame at the head of the list.
unfoldable pub take_avail : ℕ → PhysMem → ℕ × PhysMem
take_avail hhdm s =
    let ppn = frame_ppn hhdm s.avail in
    (ppn, record s { avail = s.memory s.avail; frame_state = mark s.frame_state ppn 1 })

-- The ranges after the first frame of the first one is taken.
unfoldable pub rest_ranges : Range → List Range → List Range
rest_ranges r rs =
    let length = u64 (r.length + 2 ^ 64 - frame_size) in
    if length == 0 then rs else record { base = u64 (r.base + frame_size); length = length } ∷ rs

-- The second: the first frame of the first range, with the number that `PPN(pa)` gives it, which has no
-- mask.
unfoldable pub take_range : Range → List Range → PhysMem → ℕ × PhysMem
take_range r rs s = (
  r.base >>> log_frame_size,
  record s {
    free_ranges = rest_ranges r rs;
    frame_state = mark s.frame_state (r.base >>> log_frame_size) 1;
  },
)

-- The loop that clears `n` words from an address on.
unfoldable pub zero_words : (ℕ → ℕ) → ℕ → ℕ → ℕ → ℕ
zero_words memory ptr zero = memory
zero_words memory ptr (suc n) = zero_words (write memory ptr 0) (ptr + 8) n

unfoldable pub zero_frame : ℕ → ℕ × PhysMem → Option (ℕ × PhysMem)
zero_frame hhdm (ppn, s) = do
  ptr ← check_canonical (frame_va hhdm ppn)
  some (ppn, record s { memory = zero_words s.memory ptr 512 })

unfoldable pub alloc : ℕ → PhysMem → Option (ℕ × PhysMem)
alloc hhdm s = elim (s.avail == 0) [
  | false ↦ zero_frame hhdm (take_avail hhdm s)
  | true ↦ elim s.free_ranges [ [] ↦ none | r ∷ rs ↦ zero_frame hhdm (take_range r rs s) ]
]

-- `frame->next = avail; avail = frame`
unfoldable pub push_frame : ℕ → PhysMem → PhysMem
push_frame frame s = record s { memory = write s.memory frame s.avail; avail = frame }

-- The part of `free` under the lock: a tracked frame that is not in use is left as it is.
unfoldable pub put_back : ℕ → ℕ → PhysMem → PhysMem
put_back frame ppn s =
    if ppn_is_tracked ppn && not (s.frame_state ppn == 1)
    then s
    else push_frame frame (record s { frame_state = mark s.frame_state ppn 2 })

unfoldable pub free : ℕ → Option (List MemMapEntry) → ℕ → PhysMem → Option PhysMem
free hhdm memmap ppn s =
    if ppn == 0
    then some s
    else if not (pa_in_usable_range memmap (u64 (ppn << log_frame_size)))
    then some s
    else (do frame ← check_canonical (frame_va hhdm ppn); some (put_back frame ppn s))
