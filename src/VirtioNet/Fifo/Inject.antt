-- ===== src/VirtioNet/Fifo/Inject.antt =====
-- `net_fake_inject_rx` of kernel/virtio_net.cc on the queue of waiting frames.
use networking_p.Prelude.{
  ℕ, ◌+◌, ◌%◌, ◌≤◌, ◌<◌, ◌≡◌, ◌≢◌, refl, ap, ap₂, ◌∙◌, true, false, ltb, leb, if◌then◌else◌, some,
  List, [], ◌∷◌, ◌++◌, length, set, take, take-copy_bytes, sym, none, Option, ==-cases, Bool-cases,
  ltb→lt, ltb→le, length-copy_bytes, length-set, get_or-set_self, get_or-set_ne, inl, inr, arith,
}
use networking_p.Prelude.Words.{u16, u32}
use networking_p.VirtioNet.State.{
  queue_size, desc_f_write, max_frame_size, NetState, UsedElem, zero_slot, zero_elem, slot_at,
  elem_at, next_index,
}
use networking_p.VirtioNet.Fake.{probe, find_free_rx_slot, fill_slot, push_used, inject}
use networking_p.VirtioNet.Fifo.{IsFifo, Holds, frame_at, frames, waiting, frames-ext, frames_last}

module _ (s : NetState) (v : IsFifo s) where
  -- The slot that the search finds is the one behind the last frame.
  find_free-some :
      s.rx_ready < 8
      → find_free_rx_slot s
        ≡ (some (s.rx_used.idx % 8), record s { rx_next_probe = next_index (s.rx_used.idx % 8) })
  unfolding find_free_rx_slot probe
  find_free-some lt =
      let i = s.rx_used.idx % 8 in
      let here : u16 ((s.rx_next_probe + 0) % 8) ≡ i = omega (arith, v.probe_next) in
      let vacant : (slot_at s.rx_slots i).occupied ≡ false =
        v.free i (omega arith) (omega (arith, v.produced)) in
      let spare : leb queue_size s.rx_ready ≡ false = ground arith in rw (spare, here, vacant) refl

  find_free-none : s.rx_ready ≡ 8 → find_free_rx_slot s ≡ (none, s)
  unfolding find_free_rx_slot
  find_free-none full = rw full refl

  inject-none : (bytes : List ℕ) (len : ℕ) → s.rx_ready ≡ 8 → inject s bytes len ≡ (false, s)
  unfolding inject
  inject-none bytes len full =
      let found = ap (λ (r : Option ℕ × NetState). r.0) (find_free-none full) in
      let state = ap (λ (r : Option ℕ × NetState). r.1) (find_free-none full) in
      rw (inject, found, state) refl

  module _ (bytes : List ℕ) (len : ℕ) (lt : s.rx_ready < 8) (lo : 0 < len)
      (hi : len ≤ max_frame_size) (avail : len ≤ length bytes) where
    abbrev last : ℕ
    last = s.rx_used.idx % 8

    abbrev elem : UsedElem
    elem = record { id = last; len = u32 len }

    abbrev injected : NetState
    injected = record s {
      rx_next_probe = next_index last;
      rx_slots = set s.rx_slots last (fill_slot (slot_at s.rx_slots last) bytes len);
      rx_desc =
          set s.rx_desc last
            (record { addr = last; len = u32 len; flags = desc_f_write; next = 0 });
      rx_used = record {
        flags = s.rx_used.flags;
        idx = u16 (s.rx_used.idx + 1);
        ring = set s.rx_used.ring last elem;
      };
      rx_ready = u16 (s.rx_ready + 1);
    }

    last_lt : last < 8
    last_lt = omega arith

    inject-some : inject s bytes len ≡ (true, injected)
    unfolding inject push_used
    inject-some =
        let found = ap (λ (r : Option ℕ × NetState). r.0) (find_free-some lt) in
        let state = ap (λ (r : Option ℕ × NetState). r.1) (find_free-some lt) in
        rw (inject, found, state) refl

    slot-old : (i : ℕ) → i ≢ last → slot_at injected.rx_slots i ≡ slot_at s.rx_slots i
    slot-old i ne = (get_or-set_ne s.rx_slots last i _ zero_slot (λ e. ne (sym e)))

    slot-new : slot_at injected.rx_slots last ≡ fill_slot (slot_at s.rx_slots last) bytes len
    slot-new = (get_or-set_self s.rx_slots last _ zero_slot (omega (arith, v.slots_size)))

    elem-old : (i : ℕ) → i ≢ last → elem_at injected.rx_used i ≡ elem_at s.rx_used i
    elem-old i ne = (get_or-set_ne s.rx_used.ring last i _ zero_elem (λ e. ne (sym e)))

    elem-new : elem_at injected.rx_used last ≡ elem
    elem-new = (get_or-set_self s.rx_used.ring last _ zero_elem (omega (arith, v.used_size)))

    new_place : Holds injected last
    unfolding Holds fill_slot
    new_place = rw (elem-new, slot-new) (refl, refl, omega arith, omega arith)

    old_place : (i : ℕ) → i ≢ last → Holds s i → Holds injected i
    unfolding Holds
    old_place i ne h = rw (elem-old i ne, slot-old i ne) h

    frame-new : frame_at injected last ≡ take len bytes
    unfolding fill_slot
    frame-new =
        let same : u32 len ≡ len = omega arith in
        rw (elem-new, slot-new, same)
          (take-copy_bytes (slot_at s.rx_slots last).bytes bytes len
            (omega (arith, v.room last last_lt)) avail)

    injected-room : (i : ℕ) → i < 8 → length (slot_at injected.rx_slots i).bytes ≡ max_frame_size
    unfolding fill_slot
    injected-room i small = elim (==-cases i last) [
      | inl e ↦ rw (e, slot-new) (length-copy_bytes _ bytes len ∙ v.room last last_lt)
      | inr ne ↦ rw (slot-old i ne) (v.room i small)
    ]

    injected-IsFifo : IsFifo injected
    unfolding next_index
    injected-IsFifo = record {
      used_size = (length-set _ _ _ ∙ v.used_size);
      slots_size = (length-set _ _ _ ∙ v.slots_size);
      room = injected-room;
      consume_word = v.consume_word;
      ready_bound = omega (arith);
      produced = omega (arith, v.produced);
      probe_next = omega (arith);
      filled = λ i small near. elim (==-cases i last) [
        | inl e ↦ rw e new_place
        | inr ne ↦ old_place i ne (v.filled i small (omega (arith, v.produced)))
      ];
      free = λ i small far.
          rw (slot-old i (λ e. absurd (omega (arith, v.produced))))
            (v.free i small (omega (arith)));
    }

    waiting-injected : waiting injected ≡ waiting s ++ take len bytes ∷ []
    waiting-injected =
        ap (λ (n : ℕ). frames injected s.rx_used_consume n) (omega (arith, v.ready_bound))
        ∙ frames_last injected s.rx_used_consume s.rx_ready last (omega (arith, v.produced))
        ∙ ap₂ (λ (fs : List (List ℕ)) (f : List ℕ). fs ++ f ∷ [])
            (frames-ext injected s s.rx_used_consume s.rx_used_consume s.rx_ready refl
              (λ i j below e.
                let ne : i ≢ last = λ q. absurd (omega (arith, v.produced)) in
                rw (elem-old i ne, slot-old i ne) refl))
            frame-new

-- With the waiting frames counted below eight, an injection puts the frame behind them; on a full
-- ring it fails and changes nothing. The ring stays in order, and the backend what it is.
pub waiting-inject :
    (s : NetState) (bytes : List ℕ) (len : ℕ)
    → IsFifo s
    → 0 < len
    → len ≤ max_frame_size
    → len ≤ length bytes
    → let (done, s') = inject s bytes len in
      (done ≡ ltb s.rx_ready 8)
      × (waiting s' ≡ (if ltb s.rx_ready 8 then waiting s ++ take len bytes ∷ [] else waiting s))
      × IsFifo s'
      × (s'.backend ≡ s.backend)
waiting-inject s bytes len v lo hi avail = elim (Bool-cases (ltb s.rx_ready 8)) [
  | inl below ↦
      let lt = ltb→lt s.rx_ready 8 below in
      rw (inject-some s v bytes len lt lo hi avail, below)
        (
          refl,
          waiting-injected s v bytes len lt lo hi avail,
          injected-IsFifo s v bytes len lt lo hi avail,
          refl,
        )
  | inr above ↦
      let full : s.rx_ready ≡ 8 = omega (arith, ltb→le s.rx_ready 8 above, v.ready_bound) in
      rw (inject-none s v bytes len full, above) (refl, refl, v, refl)
]
