-- ===== src/VirtioNet/Device.antt =====
-- The rings of the PCI device in kernel/virtio_net.cc. The device fills `used`; here the driver
-- reads it. `mem_release` orders the writes that the device sees, and changes no value.
use networking_p.Prelude.{
  ℕ, zero, suc, ◌+◌, ◌-◌, ◌%◌, ◌^◌, Bool, true, false, not, ◌&&◌, ◌||◌, ltb, leb, ◌==◌,
  if◌then◌else◌, Option, none, some, List, [], ◌∷◌, ◌++◌, set, take, drop, copy_bytes, replicate,
}
use networking_p.Prelude.Words.{u16, u32}
use networking_p.VirtioNet.State.{
  queue_size, desc_f_write, net_hdr_size, buffer_size, Descriptor, VirtioBuffer, VirtioQueue,
  VirtioHwState, buffer_at, elem_at,
}
use networking_p.VirtioNet.Fake.{push_avail, Received, error, nothing, frame}

unfoldable pub notify_queue : VirtioQueue → VirtioQueue
notify_queue q = if q.has_notify then record q { rung = q.rung + 1 } else q

-- The loop of `init_rx_buffers_locked` gives every buffer to the device, from index `i` on.
give_buffers : List VirtioBuffer → List VirtioBuffer
give_buffers [] = []
give_buffers (b ∷ bs) = record b { in_use = true; len = 0 } ∷ give_buffers bs

abbrev rx_desc_of : VirtioBuffer → Descriptor
rx_desc_of b = record { addr = b.pa; len = buffer_size; flags = desc_f_write; next = 0 }

rx_descs : List VirtioBuffer → List Descriptor
rx_descs [] = []
rx_descs (b ∷ bs) = rx_desc_of b ∷ rx_descs bs

indices : ℕ → List VirtioBuffer → List ℕ
indices i [] = []
indices i (b ∷ bs) = i ∷ indices (i + 1) bs

unfoldable pub init_rx_buffers : VirtioHwState → VirtioHwState
unfolding give_buffers rx_descs indices
init_rx_buffers h =
    let q = h.rx in
    record h {
      rx_buffers = give_buffers h.rx_buffers;
      rx = notify_queue (record q {
        desc = rx_descs h.rx_buffers;
        avail = record { flags = 0; idx = queue_size; ring = indices 0 h.rx_buffers };
        used = record (q.used) { flags = 0; idx = 0 };
        used_consume = 0;
      });
    }

-- The loop of `init_tx_buffers_locked`.
free_buffers : List VirtioBuffer → List VirtioBuffer
free_buffers [] = []
free_buffers (b ∷ bs) = record b { in_use = false; len = 0 } ∷ free_buffers bs

tx_descs : List VirtioBuffer → List Descriptor
tx_descs [] = []
tx_descs (b ∷ bs) = record { addr = b.pa; len = 0; flags = 0; next = 0 } ∷ tx_descs bs

unfoldable pub init_tx_buffers : VirtioHwState → VirtioHwState
unfolding free_buffers tx_descs
init_tx_buffers h =
    let q = h.tx in
    record h {
      tx_buffers = free_buffers h.tx_buffers;
      tx = record q {
        desc = tx_descs h.tx_buffers;
        avail = record (q.avail) { flags = 0; idx = 0 };
        used = record (q.used) { flags = 0; idx = 0 };
        used_consume = 0;
        pending = 0;
      };
    }

-- The body of the loop of `reclaim_virtio_tx_locked`.
unfoldable pub reclaim_virtio_step : VirtioHwState → VirtioHwState
reclaim_virtio_step h =
    let q = h.tx in
    let slot = u16 (elem_at q.used (q.used_consume % queue_size)).id in
    let b = buffer_at h.tx_buffers slot in
    let next = u16 (q.used_consume + 1) in
    if ltb slot queue_size && b.in_use
    then record h {
      tx_buffers = set h.tx_buffers slot (record b { in_use = false; len = 0 });
      tx = record q {
        pending = if ltb 0 q.pending then q.pending - 1 else q.pending;
        used_consume = next;
      };
    }
    else record h { tx = record q { used_consume = next } }

unfoldable pub reclaim_virtio_loop : ℕ → VirtioHwState → VirtioHwState
reclaim_virtio_loop zero h = h
reclaim_virtio_loop (suc fuel) h = elim (h.tx.used_consume == h.tx.used.idx) [
  | true ↦ h
  | false ↦ reclaim_virtio_loop fuel (reclaim_virtio_step h)
]

-- The way round from `used_consume` to `used->idx` is the number of rounds.
unfoldable pub reclaim_virtio_tx : VirtioHwState → VirtioHwState
reclaim_virtio_tx h = reclaim_virtio_loop (u16 (h.tx.used.idx + 2 ^ 16 - h.tx.used_consume)) h

unfoldable pub first_free : ℕ → List VirtioBuffer → Option ℕ
first_free i [] = none
first_free i (b ∷ bs) = if not b.in_use then some i else first_free (i + 1) bs

unfoldable pub find_free_virtio_tx_slot : VirtioHwState → Option ℕ
find_free_virtio_tx_slot h = if leb queue_size h.tx.pending then none else first_free 0 h.tx_buffers

-- A zero header, then the frame, over the start of the buffer.
unfoldable pub with_header : List ℕ → List ℕ → ℕ → List ℕ
with_header old bytes len = replicate net_hdr_size 0 ++ copy_bytes (drop net_hdr_size old) bytes len

unfoldable pub virtio_send_raw : VirtioHwState → List ℕ → ℕ → Bool × VirtioHwState
virtio_send_raw h0 bytes len =
    let h = reclaim_virtio_tx h0 in
    elim (find_free_virtio_tx_slot h) [
      | none ↦ (false, h)
      | some slot ↦
          let b = buffer_at h.tx_buffers slot in
          let q = h.tx in
          let total = net_hdr_size + len in
          let desc : Descriptor = record { addr = b.pa; len = u32 total; flags = 0; next = 0 } in
          (
            true,
            record h {
              tx_buffers = set h.tx_buffers slot (record b {
                bytes = with_header b.bytes bytes len;
                in_use = true;
                len = u16 total;
              });
              tx = notify_queue (record q {
                desc = set q.desc slot desc;
                avail = push_avail q.avail slot;
                pending = u16 (q.pending + 1);
              });
            },
          )
    ]

unfoldable pub virtio_recv_raw : VirtioHwState → ℕ → Received × VirtioHwState
virtio_recv_raw h max_len =
    let q = h.rx in
    let elem = elem_at q.used (q.used_consume % queue_size) in
    let slot = u16 elem.id in
    let frame_len = elem.len - net_hdr_size in
    let consumed = record q { used_consume = u16 (q.used_consume + 1) } in
    let b = buffer_at h.rx_buffers slot in
    if q.used_consume == q.used.idx
    then (nothing, h)
    else if leb queue_size slot || ltb elem.len net_hdr_size
    then (nothing, record h { rx = consumed })
    else if ltb max_len frame_len
    then (error, h)
    else (
      if frame_len == 0 then nothing else frame (take frame_len (drop net_hdr_size b.bytes)),
      record h {
        rx = notify_queue (record consumed {
          desc = set q.desc slot (rx_desc_of b);
          avail = push_avail q.avail slot;
        });
      },
    )
