-- ===== src/VirtioNet/Fifo/Receive.antt =====
-- `net_recv_raw` of kernel/virtio_net.cc, with the fake backend, on the queue of waiting frames.
use networking_p.Prelude.{
  ℕ, suc, ◌+◌, ◌-◌, ◌%◌, ◌≤◌, ◌<◌, ◌≡◌, ◌≢◌, refl, ap, ◌∙◌, true, false, ltb, if◌then◌else◌, List,
  [], ◌∷◌, length, set, sym, ==-cases, Bool-cases, ==_iff, ◌==◌, lt→ltb, le→ltb, ltb→lt, ltb→le,
  length-set, length-take, get_or-set_self, get_or-set_ne, inl, inr, arith,
}
use networking_p.Prelude.Words.{u16}
use networking_p.VirtioNet.State.{max_frame_size, NetState, UsedElem, zero_slot, slot_at, elem_at}
use networking_p.VirtioNet.Fake.{
  rx_desc_of, push_avail, fake_recv, reset_slot, Received, error, nothing, frame,
}
use networking_p.VirtioNet.Fifo.{IsFifo, Holds, ahead, frame_at, frames, waiting, frames-ext}

-- What a receive should do to the queue: the first frame leaves if it fits in `max_len` bytes.
unfoldable pub pop_frame : List (List ℕ) → ℕ → Received × List (List ℕ)
pop_frame [] max_len = (nothing, [])
pop_frame (f ∷ fs) max_len = if ltb max_len (length f) then (error, f ∷ fs) else (frame f, fs)

module _ (s : NetState) (v : IsFifo s) where
  abbrev first : ℕ
  first = s.rx_used_consume % 8

  first_lt : first < 8
  first_lt = omega arith

  recv-empty : (max_len : ℕ) → s.rx_ready ≡ 0 → fake_recv s max_len ≡ (nothing, s)
  unfolding fake_recv
  recv-empty max_len e =
      let none_used : (s.rx_used_consume == s.rx_used.idx) ≡ true =
        (==_iff _ _).1 (omega (arith, v.produced, v.consume_word)) in
      rw none_used refl

  module _ (max_len : ℕ) (some_ready : 0 < s.rx_ready) where
    held : Holds s first
    held = v.filled first first_lt (omega arith)

    abbrev elem : UsedElem
    elem = elem_at s.rx_used first

    abbrev received : NetState
    received = record s {
      rx_used_consume = u16 (s.rx_used_consume + 1);
      rx_ready = s.rx_ready - 1;
      rx_avail = push_avail s.rx_avail first;
      rx_slots = set s.rx_slots first (reset_slot (slot_at s.rx_slots first));
      rx_desc = set s.rx_desc first (rx_desc_of first);
    }

    some_used : (s.rx_used_consume == s.rx_used.idx) ≡ false
    some_used = elim (Bool-cases (s.rx_used_consume == s.rx_used.idx)) [
      | inl e ↦ absurd (omega (arith, (==_iff _ _).0 e, v.produced, v.consume_word, v.ready_bound))
      | inr e ↦ e
    ]

    slot_first : u16 elem.id ≡ first
    unfolding Holds
    slot_first = omega (arith, held.0)

    recv-large : max_len < elem.len → fake_recv s max_len ≡ (error, s)
    unfolding fake_recv Holds
    recv-large large =
        rw (some_used, slot_first, held.1, lt→ltb max_len elem.len large) (ground arith)

    recv-frame : elem.len ≤ max_len → fake_recv s max_len ≡ (frame (frame_at s first), received)
    unfolding fake_recv Holds
    recv-frame fits =
        rw
          (
            some_used,
            slot_first,
            held.1,
            le→ltb max_len elem.len fits,
            lt→ltb 0 s.rx_ready some_ready,
          )
          (ground (arith, held.2))

    slot-old : (i : ℕ) → i ≢ first → slot_at received.rx_slots i ≡ slot_at s.rx_slots i
    slot-old i ne = get_or-set_ne s.rx_slots first i _ zero_slot (λ e. ne (sym e))

    slot-new : slot_at received.rx_slots first ≡ reset_slot (slot_at s.rx_slots first)
    slot-new = get_or-set_self s.rx_slots first _ zero_slot (omega (arith, v.slots_size))

    received-room : (i : ℕ) → i < 8 → length (slot_at received.rx_slots i).bytes ≡ max_frame_size
    unfolding reset_slot
    received-room i small = elim (==-cases i first) [
      | inl e ↦ rw (e, slot-new) (v.room first first_lt)
      | inr ne ↦ rw (slot-old i ne) (v.room i small)
    ]

    received-free :
        (i : ℕ)
        → i < 8
        → received.rx_ready ≤ ahead received i
        → (slot_at received.rx_slots i).occupied ≡ false
    unfolding reset_slot
    received-free i small far = elim (==-cases i first) [
      | inl e ↦ rw (e, slot-new) refl
      | inr ne ↦ rw (slot-old i ne) (v.free i small (omega arith))
    ]

    received-filled : (i : ℕ) → i < 8 → ahead received i < received.rx_ready → Holds received i
    unfolding Holds
    received-filled i small near =
        let ne : i ≢ first = λ e. absurd (omega (arith, v.ready_bound)) in
        rw (slot-old i ne) (v.filled i small (omega (arith, v.ready_bound)))

    received-IsFifo : IsFifo received
    received-IsFifo = record {
      used_size = v.used_size;
      slots_size = length-set _ _ _ ∙ v.slots_size;
      room = received-room;
      consume_word = omega arith;
      ready_bound = omega (arith, v.ready_bound);
      produced = omega (arith, v.produced);
      probe_next = v.probe_next;
      filled = received-filled;
      free = received-free;
    }

    waiting-received : waiting s ≡ frame_at s first ∷ waiting received
    unfolding frames
    waiting-received =
        let count : s.rx_ready ≡ suc (s.rx_ready - 1) = omega arith in
        ap (λ (n : ℕ). frames s s.rx_used_consume n) count
        ∙ ap (◌∷◌ (frame_at s first)) (
            frames-ext s received (s.rx_used_consume + 1) (u16 (s.rx_used_consume + 1))
              (s.rx_ready - 1) (omega arith)
              (λ i j lt e.
                let ne : i ≢ first = λ q. absurd (omega (arith, v.ready_bound)) in
                rw (slot-old i ne) refl))

    length-first : length (frame_at s first) ≡ elem.len
    unfolding Holds
    length-first =
        length-take elem.len (slot_at s.rx_slots first).bytes
        ∙ omega (arith, v.room first first_lt, held.3)

    pop-large : max_len < elem.len → pop_frame (waiting s) max_len ≡ (error, waiting s)
    unfolding pop_frame
    pop-large large = rw (waiting-received, length-first, lt→ltb max_len elem.len large) refl

    pop-frame :
        elem.len ≤ max_len
        → pop_frame (waiting s) max_len ≡ (frame (frame_at s first), waiting received)
    unfolding pop_frame
    pop-frame fits = rw (waiting-received, length-first, le→ltb max_len elem.len fits) refl

  waiting-empty :
      (max_len : ℕ) → s.rx_ready ≡ 0 → pop_frame (waiting s) max_len ≡ (nothing, waiting s)
  unfolding pop_frame frames
  waiting-empty max_len e = rw e refl

-- A receive takes the first waiting frame, whole; it fails and takes nothing if the frame is longer
-- than the buffer, and finds nothing if none waits. The ring stays in order, and the backend what it is.
pub waiting-recv :
    (s : NetState) (max_len : ℕ)
    → IsFifo s
    → let (r, s') = fake_recv s max_len in
      ((r, waiting s') ≡ pop_frame (waiting s) max_len) × IsFifo s' × (s'.backend ≡ s.backend)
waiting-recv s max_len v = elim (==-cases s.rx_ready 0) [
  | inl e ↦ rw (recv-empty s v max_len e) (sym (waiting-empty s v max_len e), v, refl)
  | inr ne ↦
      let ready : 0 < s.rx_ready = omega arith in
      elim (Bool-cases (ltb max_len (elem s v max_len ready).len)) [
        | inl large ↦
            let lt = ltb→lt max_len (elem s v max_len ready).len large in
            rw (recv-large s v max_len ready lt) (sym (pop-large s v max_len ready lt), v, refl)
        | inr fits ↦
            let le = ltb→le max_len (elem s v max_len ready).len fits in
            rw (recv-frame s v max_len ready le)
              (sym (pop-frame s v max_len ready le), received-IsFifo s v max_len ready, refl)
      ]
]
