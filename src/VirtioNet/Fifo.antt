-- ===== src/VirtioNet/Fifo.antt =====
-- The receive ring of the fake backend in kernel/virtio_net.cc as a queue of frames: slots are
-- taken and given back in turn, so the slot of a used element is its place in the ring.
pub mod Inject
pub mod Receive
pub mod Run
use networking_p.Prelude.{
  ℕ, zero, suc, ◌+◌, ◌-◌, ◌%◌, ◌^◌, ◌≤◌, ◌<◌, ◌≡◌, ◌≢◌, refl, ap, ap₂, ◌∙◌, Bool, true, false, ltb,
  leb, if◌then◌else◌, some, List, [], ◌∷◌, ◌++◌, length, set, take, take-copy_bytes, sym, none,
  Option, ==-cases, Bool-cases, ltb→lt, ltb→le, length-copy_bytes, length-set, length-take,
  get_or-set_self, get_or-set_ne, tests, inl, inr, arith,
}
use networking_p.Prelude.Words.{u16, u32}
use networking_p.VirtioNet.State.{
  queue_size, desc_f_write, max_frame_size, NetState, FrameSlot, UsedElem, zero_slot, zero_elem,
  slot_at, elem_at, next_index,
}
use networking_p.VirtioNet.Fake.{
  probe, find_free_rx_slot, fill_slot, push_used, push_avail, inject, fake_recv, reset_slot,
  Received, error, nothing, frame,
}

-- Place `i` holds a frame: its element names its slot, which is occupied.
unfoldable pub Holds : NetState → ℕ → Type 0
Holds s i =
    ((elem_at s.rx_used i).id ≡ i)
    × ((slot_at s.rx_slots i).occupied ≡ true)
    × (0 < (elem_at s.rx_used i).len)
    × ((elem_at s.rx_used i).len ≤ max_frame_size)

-- How many places behind the reader `i` lies.
abbrev pub ahead : NetState → ℕ → ℕ
ahead s i = (i + 8 - s.rx_used_consume % 8) % 8

pub record IsFifo (s : NetState) : Type 0 where
  used_size : length s.rx_used.ring ≡ 8
  slots_size : length s.rx_slots ≡ 8
  room : (i : ℕ) → i < 8 → length (slot_at s.rx_slots i).bytes ≡ max_frame_size
  consume_word : s.rx_used_consume < 2 ^ 16
  ready_bound : s.rx_ready ≤ 8
  produced : s.rx_used.idx ≡ (s.rx_used_consume + s.rx_ready) % 2 ^ 16
  probe_next : s.rx_next_probe ≡ s.rx_used.idx % 8
  filled : (i : ℕ) → i < 8 → ahead s i < s.rx_ready → Holds s i
  free : (i : ℕ) → i < 8 → s.rx_ready ≤ ahead s i → (slot_at s.rx_slots i).occupied ≡ false

-- The frame at a place, and the frames of `n` places from `h` on.
abbrev pub frame_at : NetState → ℕ → List ℕ
frame_at s i = take (elem_at s.rx_used i).len (slot_at s.rx_slots i).bytes

unfoldable pub frames : NetState → ℕ → ℕ → List (List ℕ)
frames s h zero = []
frames s h (suc n) = frame_at s (h % 8) ∷ frames s (h + 1) n

-- The frames that wait to be received, in order.
abbrev pub waiting : NetState → List (List ℕ)
waiting s = frames s s.rx_used_consume s.rx_ready

pub frames-ext :
    (s t : NetState) (h k n : ℕ)
    → h % 8 ≡ k % 8
    → ((i j : ℕ) → j < n → i ≡ (h + j) % 8 → frame_at s i ≡ frame_at t i)
    → frames s h n ≡ frames t k n
unfolding frames
frames-ext s t h k zero e same = refl
frames-ext s t h k (suc n) e same =
    ap₂ ◌∷◌ (same (h % 8) 0 (omega arith) (omega arith) ∙ ap (λ (i : ℕ). frame_at t i) e) (
      frames-ext s t (h + 1) (k + 1) n (omega arith)
        (λ i j lt q. same i (suc j) (omega arith) (omega arith)))

pub frames_last :
    (s : NetState) (h n i : ℕ)
    → i ≡ (h + n) % 8
    → frames s h (suc n) ≡ frames s h n ++ frame_at s i ∷ []
unfolding frames
frames_last s h zero i e =
    let here : h % 8 ≡ i = omega arith in ap (λ (j : ℕ). frame_at s j ∷ []) here
frames_last s h (suc n) i e =
    ap (◌∷◌ (frame_at s (h % 8))) (frames_last s (h + 1) n i (omega arith))

pub length-frames : (s : NetState) (h n : ℕ) → length (frames s h n) ≡ n
unfolding frames
length-frames s h zero = refl
length-frames s h (suc n) = ap suc (length-frames s (h + 1) n)
