-- ===== src/VirtioNet/State.antt =====
-- The data of kernel/virtio_net.cc and kernel/virtio_net.h: rings, slots and driver state.
-- A buffer's address is the index of its slot. The device's own buffers start with the
-- 12 bytes of `VirtioNetHdr`.
use networking_p.Prelude.{ℕ, ◌+◌, ◌%◌, Bool, false, List, [], get_or, replicate}
use networking_p.Prelude.Words.{u16}

abbrev pub queue_size : ℕ
queue_size = 8

abbrev pub max_frame_size : ℕ
max_frame_size = 2048

abbrev pub desc_f_write : ℕ
desc_f_write = 2

-- `sizeof(VirtioNetHdr)`, and `k_virtio_buffer_size`.
abbrev pub net_hdr_size : ℕ
net_hdr_size = 12

abbrev pub buffer_size : ℕ
buffer_size = 2060

abbrev pub rx_queue : ℕ
rx_queue = 0

abbrev pub tx_queue : ℕ
tx_queue = 1

pub data BackendKind : Type 0 where
  absent fake virtio : BackendKind

pub record Descriptor : Type 0 where
  pub addr : ℕ
  pub len : ℕ
  pub flags : ℕ
  pub next : ℕ

pub record AvailRing : Type 0 where
  pub flags : ℕ
  pub idx : ℕ
  pub ring : List ℕ

pub record UsedElem : Type 0 where
  pub id : ℕ
  pub len : ℕ

pub record UsedRing : Type 0 where
  pub flags : ℕ
  pub idx : ℕ
  pub ring : List UsedElem

pub record FrameSlot : Type 0 where
  pub bytes : List ℕ
  pub len : ℕ
  pub occupied : Bool

pub record NetState : Type 0 where
  pub backend : BackendKind
  pub tx_desc : List Descriptor
  pub rx_desc : List Descriptor
  pub tx_avail : AvailRing
  pub rx_avail : AvailRing
  pub tx_used : UsedRing
  pub rx_used : UsedRing
  pub tx_slots : List FrameSlot
  pub rx_slots : List FrameSlot
  pub tx_next_probe : ℕ
  pub tx_used_consume : ℕ
  pub tx_pending : ℕ
  pub rx_next_probe : ℕ
  pub rx_used_consume : ℕ
  pub rx_ready : ℕ
  pub last_fake_tx : List ℕ
  pub last_fake_tx_len : ℕ
  pub last_fake_tx_valid : Bool

pub record VirtioBuffer : Type 0 where
  pub bytes : List ℕ
  pub pa : ℕ
  pub in_use : Bool
  pub len : ℕ

-- `has_notify` says that `notify` is not null; `rung` counts the writes to the doorbell.
pub record VirtioQueue : Type 0 where
  pub desc : List Descriptor
  pub avail : AvailRing
  pub used : UsedRing
  pub has_notify : Bool
  pub rung : ℕ
  pub used_consume : ℕ
  pub pending : ℕ

-- The part of `VirtioHwState` that sending and receiving use.
pub record VirtioHwState : Type 0 where
  pub ready : Bool
  pub rx : VirtioQueue
  pub tx : VirtioQueue
  pub rx_buffers : List VirtioBuffer
  pub tx_buffers : List VirtioBuffer

abbrev pub zero_desc : Descriptor
zero_desc = record { addr = 0; len = 0; flags = 0; next = 0 }

abbrev pub zero_elem : UsedElem
zero_elem = record { id = 0; len = 0 }

abbrev pub zero_slot : FrameSlot
zero_slot = record { bytes = []; len = 0; occupied = false }

abbrev pub zero_buffer : VirtioBuffer
zero_buffer = record { bytes = []; pa = 0; in_use = false; len = 0 }

-- `VirtioNetAvailRing{}` and `VirtioNetUsedRing{}`.
abbrev pub zero_avail : AvailRing
zero_avail = record { flags = 0; idx = 0; ring = replicate queue_size 0 }

abbrev pub zero_used : UsedRing
zero_used = record { flags = 0; idx = 0; ring = replicate queue_size zero_elem }

-- Reads of the arrays.
abbrev pub slot_at : List FrameSlot → ℕ → FrameSlot
slot_at ss i = get_or ss i zero_slot

abbrev pub elem_at : UsedRing → ℕ → UsedElem
elem_at r i = get_or r.ring i zero_elem

abbrev pub buffer_at : List VirtioBuffer → ℕ → VirtioBuffer
buffer_at bs i = get_or bs i zero_buffer

unfoldable pub next_index : ℕ → ℕ
next_index idx = u16 ((idx + 1) % queue_size)
