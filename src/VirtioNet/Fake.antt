-- ===== src/VirtioNet/Fake.antt =====
-- The rings of the fake backend in kernel/virtio_net.cc: reset, slot search, reclaim, completion,
-- and the bodies of `net_send_raw`, `net_recv_raw` and `net_fake_inject_rx` that work on them.
use networking_p.Prelude.{
  ℕ, zero, suc, ◌+◌, ◌-◌, ◌%◌, ◌^◌, Bool, true, false, not, ◌&&◌, ◌||◌, ltb, leb, ◌==◌,
  if◌then◌else◌, Option, none, some, List, [], ◌∷◌, get_or, set, take, copy_bytes, map,
}
use networking_p.Prelude.Words.{u16, u32}
use networking_p.VirtioNet.State.{
  queue_size, max_frame_size, desc_f_write, Descriptor, AvailRing, UsedRing, FrameSlot, NetState,
  zero_desc, zero_avail, zero_used, slot_at, elem_at, next_index,
}

unfoldable pub reset_slot : FrameSlot → FrameSlot
reset_slot s = record s { len = 0; occupied = false }

-- The descriptors that `reset_rings_locked` writes, from index `i` on.
reset_tx_desc : ℕ → ℕ → List Descriptor
reset_tx_desc i zero = []
reset_tx_desc i (suc n) = record zero_desc { addr = i } ∷ reset_tx_desc (i + 1) n

abbrev pub rx_desc_of : ℕ → Descriptor
rx_desc_of i = record { addr = i; len = max_frame_size; flags = desc_f_write; next = 0 }

reset_rx_desc : ℕ → ℕ → List Descriptor
reset_rx_desc i zero = []
reset_rx_desc i (suc n) = rx_desc_of i ∷ reset_rx_desc (i + 1) n

count_up : ℕ → ℕ → List ℕ
count_up i zero = []
count_up i (suc n) = i ∷ count_up (i + 1) n

unfoldable pub reset_rings : NetState → NetState
unfolding reset_tx_desc reset_rx_desc count_up
reset_rings s = record s {
  tx_desc = reset_tx_desc 0 queue_size;
  rx_desc = reset_rx_desc 0 queue_size;
  tx_avail = zero_avail;
  rx_avail = record { flags = 0; idx = queue_size; ring = count_up 0 queue_size };
  tx_used = zero_used;
  rx_used = zero_used;
  tx_slots = map reset_slot s.tx_slots;
  rx_slots = map reset_slot s.rx_slots;
  tx_next_probe = 0;
  tx_used_consume = 0;
  tx_pending = 0;
  rx_next_probe = 0;
  rx_used_consume = 0;
  rx_ready = 0;
  last_fake_tx_len = 0;
  last_fake_tx_valid = false;
}

-- The loop that both slot searches share: the first free slot from `start` on, round the ring,
-- with `left` of the eight rounds to go.
unfoldable pub probe : List FrameSlot → ℕ → ℕ → ℕ → Option ℕ
probe slots start scanned zero = none
probe slots start scanned (suc left) =
    let slot = u16 ((start + scanned) % queue_size) in
    if not (slot_at slots slot).occupied then some slot else probe slots start (scanned + 1) left

unfoldable pub find_free_tx_slot : NetState → Option ℕ × NetState
find_free_tx_slot s =
    if leb queue_size s.tx_pending
    then (none, s)
    else elim (probe s.tx_slots s.tx_next_probe 0 queue_size) [
      | none ↦ (none, s)
      | some slot ↦ (some slot, record s { tx_next_probe = next_index slot })
    ]

unfoldable pub find_free_rx_slot : NetState → Option ℕ × NetState
find_free_rx_slot s =
    if leb queue_size s.rx_ready
    then (none, s)
    else elim (probe s.rx_slots s.rx_next_probe 0 queue_size) [
      | none ↦ (none, s)
      | some slot ↦ (some slot, record s { rx_next_probe = next_index slot })
    ]

-- The body of the loop of `reclaim_tx_locked`.
unfoldable pub reclaim_step : NetState → NetState
reclaim_step s =
    let slot = u16 (elem_at s.tx_used (s.tx_used_consume % queue_size)).id in
    let s' =
      if ltb slot queue_size && (slot_at s.tx_slots slot).occupied
      then record s {
        tx_slots = set s.tx_slots slot (reset_slot (slot_at s.tx_slots slot));
        tx_desc = set s.tx_desc slot (record (get_or s.tx_desc slot zero_desc) { len = 0 });
        tx_pending = if ltb 0 s.tx_pending then s.tx_pending - 1 else s.tx_pending;
      }
      else s in
    record s' { tx_used_consume = u16 (s.tx_used_consume + 1) }

-- The loop, with `fuel` rounds at most.
unfoldable pub reclaim_loop : ℕ → NetState → NetState
reclaim_loop zero s = s
reclaim_loop (suc fuel) s = elim (s.tx_used_consume == s.tx_used.idx) [
  | true ↦ s
  | false ↦ reclaim_loop fuel (reclaim_step s)
]

-- The counters are `uint16_t`, so the way round from one to the other is the number of rounds.
unfoldable pub reclaim_tx : NetState → NetState
reclaim_tx s = reclaim_loop (u16 (s.tx_used.idx + 2 ^ 16 - s.tx_used_consume)) s

-- `used.ring[idx % 8] = {slot, len}; ++used.idx`
unfoldable pub push_used : UsedRing → ℕ → ℕ → UsedRing
push_used r slot len = record r {
  idx = u16 (r.idx + 1);
  ring = set r.ring (r.idx % queue_size) (record { id = slot; len = u32 len });
}

unfoldable pub complete_tx : NetState → ℕ → ℕ → NetState
complete_tx s slot len = record s { tx_used = push_used s.tx_used slot len }

-- `avail.ring[idx % 8] = slot; ++avail.idx`
unfoldable pub push_avail : AvailRing → ℕ → AvailRing
push_avail r slot = record r { idx = u16 (r.idx + 1); ring = set r.ring (r.idx % queue_size) slot }

-- A frame written to a slot: `copy_bytes`, the length, the mark.
unfoldable pub fill_slot : FrameSlot → List ℕ → ℕ → FrameSlot
fill_slot s bytes len = record {
  bytes = copy_bytes s.bytes bytes len;
  len = u16 len;
  occupied = true;
}

-- `net_send_raw` from the slot search on, with the fake backend.
unfoldable pub fake_send : NetState → List ℕ → ℕ → Bool × NetState
fake_send s bytes len =
    let (found, s1) = find_free_tx_slot (reclaim_tx s) in
    elim found [
      | none ↦ (false, s1)
      | some slot ↦
          let s2 = record s1 {
            tx_slots = set s1.tx_slots slot (fill_slot (slot_at s1.tx_slots slot) bytes len);
            tx_desc =
                set s1.tx_desc slot (record { addr = slot; len = u32 len; flags = 0; next = 0 });
            tx_avail = push_avail s1.tx_avail slot;
            tx_pending = u16 (s1.tx_pending + 1);
            last_fake_tx = copy_bytes s1.last_fake_tx bytes len;
            last_fake_tx_len = u16 len;
            last_fake_tx_valid = true;
          } in
          (true, reclaim_tx (complete_tx s2 slot len))
    ]

-- What a receive returns: an `int`, with the bytes that it wrote to `out`.
pub data Received : Type 0 where
  error : Received
  nothing : Received
  frame : List ℕ → Received

-- `net_recv_raw` from the ring test on, with the fake backend.
unfoldable pub fake_recv : NetState → ℕ → Received × NetState
fake_recv s max_len =
    let elem = elem_at s.rx_used (s.rx_used_consume % queue_size) in
    let slot = u16 elem.id in
    let consumed = record s { rx_used_consume = u16 (s.rx_used_consume + 1) } in
    if s.rx_used_consume == s.rx_used.idx
    then (nothing, s)
    else if leb queue_size slot || not (slot_at s.rx_slots slot).occupied
    then (nothing, consumed)
    else if ltb max_len elem.len
    then (error, s)
    else (
      if elem.len == 0 then nothing else frame (take elem.len (slot_at s.rx_slots slot).bytes),
      record consumed {
        rx_ready = if ltb 0 s.rx_ready then s.rx_ready - 1 else s.rx_ready;
        rx_avail = push_avail s.rx_avail slot;
        rx_slots = set s.rx_slots slot (reset_slot (slot_at s.rx_slots slot));
        rx_desc = set s.rx_desc slot (rx_desc_of slot);
      },
    )

-- `net_fake_inject_rx` from the slot search on.
unfoldable pub inject : NetState → List ℕ → ℕ → Bool × NetState
inject s bytes len =
    let (found, s1) = find_free_rx_slot s in
    elim found [
      | none ↦ (false, s1)
      | some slot ↦ (
        true,
        record s1 {
          rx_slots = set s1.rx_slots slot (fill_slot (slot_at s1.rx_slots slot) bytes len);
          rx_desc =
              set s1.rx_desc slot
                (record { addr = slot; len = u32 len; flags = desc_f_write; next = 0 });
          rx_used = push_used s1.rx_used slot len;
          rx_ready = u16 (s1.rx_ready + 1);
        },
      )
    ]
