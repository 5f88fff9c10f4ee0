-- ===== src/VirtioNet/Transmit.antt =====
-- The transmit ring of the fake backend in kernel/virtio_net.cc: a frame is sent, completed and
-- reclaimed within one call, so the ring is empty between calls.
use networking_p.Prelude.{
  ℕ, ◌+◌, ◌-◌, ◌%◌, ◌^◌, ◌≤◌, ◌<◌, ◌≡◌, ◌≢◌, refl, sym, ap, ◌∙◌, true, false, leb, ◌==◌, Option,
  some, List, length, set, copy_bytes, length-copy_bytes, length-set, get_or, get_or-set_self,
  get_or-set_ne, lt→ltb, ne→==, ==-cases, inl, inr, arith,
}
use networking_p.Prelude.Words.{u16, u32}
use networking_p.VirtioNet.State.{
  queue_size, max_frame_size, NetState, zero_slot, zero_elem, zero_desc, slot_at, elem_at,
  next_index,
}
use networking_p.VirtioNet.Fake.{
  probe, find_free_tx_slot, fill_slot, push_used, push_avail, complete_tx, reclaim_step,
  reclaim_loop, reclaim_tx, fake_send, reset_slot,
}

pub record IsIdle (s : NetState) : Type 0 where
  pub used_size : length s.tx_used.ring ≡ 8
  pub slots_size : length s.tx_slots ≡ 8
  pub last_size : length s.last_fake_tx ≡ max_frame_size
  pub none_pending : s.tx_pending ≡ 0
  pub caught_up : s.tx_used_consume ≡ s.tx_used.idx
  pub idx_word : s.tx_used.idx < 2 ^ 16
  pub probe_small : s.tx_next_probe < 8
  pub free : (i : ℕ) → i < 8 → (slot_at s.tx_slots i).occupied ≡ false

loop_once :
    (s : NetState)
    → (s.tx_used_consume == s.tx_used.idx) ≡ false
    → reclaim_loop 1 s ≡ reclaim_step s
unfolding reclaim_loop
loop_once s e = rw (reclaim_loop, e) refl

module _ (s : NetState) (v : IsIdle s) where
  reclaim-idle : reclaim_tx s ≡ s
  unfolding reclaim_tx reclaim_loop
  reclaim-idle =
      let no_rounds : u16 (s.tx_used.idx + 2 ^ 16 - s.tx_used_consume) ≡ 0 =
        omega (arith, v.caught_up, v.idx_word) in
      rw no_rounds refl

  find_free-some :
      find_free_tx_slot s
      ≡ (some s.tx_next_probe, record s { tx_next_probe = next_index s.tx_next_probe })
  unfolding find_free_tx_slot probe
  find_free-some =
      let here : u16 ((s.tx_next_probe + 0) % 8) ≡ s.tx_next_probe = omega (arith, v.probe_small) in
      let vacant = v.free s.tx_next_probe v.probe_small in
      let spare : leb queue_size s.tx_pending ≡ false = rw v.none_pending refl in
      rw (spare, here, vacant) refl

  module _ (bytes : List ℕ) (len : ℕ) (hi : len ≤ max_frame_size) (avail : len ≤ length bytes) where
    abbrev at : ℕ
    at = s.tx_next_probe

    -- The state when the frame is filled in, and when the ring has its used element.
    abbrev placed : NetState
    placed = record s {
      tx_next_probe = next_index at;
      tx_slots = set s.tx_slots at (fill_slot (slot_at s.tx_slots at) bytes len);
      tx_desc = set s.tx_desc at (record { addr = at; len = u32 len; flags = 0; next = 0 });
      tx_avail = push_avail s.tx_avail at;
      tx_pending = u16 (s.tx_pending + 1);
      last_fake_tx = copy_bytes s.last_fake_tx bytes len;
      last_fake_tx_len = u16 len;
      last_fake_tx_valid = true;
    }

    abbrev completed : NetState
    completed = complete_tx placed at len

    fake_send-placed : fake_send s bytes len ≡ (true, reclaim_tx completed)
    unfolding fake_send
    fake_send-placed =
        let search = ap find_free_tx_slot reclaim-idle ∙ find_free-some in
        let found = ap (λ (r : Option ℕ × NetState). r.0) search in
        let state = ap (λ (r : Option ℕ × NetState). r.1) search in
        rw (fake_send, found, state) refl

    reclaim-one : reclaim_tx completed ≡ reclaim_step completed
    unfolding reclaim_tx reclaim_loop complete_tx push_used
    reclaim-one =
        let one_round : u16 (u16 (s.tx_used.idx + 1) + 2 ^ 16 - s.tx_used_consume) ≡ 1 =
          omega (arith, v.caught_up, v.idx_word) in
        let behind : (s.tx_used_consume == u16 (s.tx_used.idx + 1)) ≡ false =
          ne→== _ _ (λ e. absurd (omega (arith, v.caught_up, v.idx_word))) in
        rw one_round (loop_once completed behind)

    elem-new : (elem_at completed.tx_used (completed.tx_used_consume % 8)).id ≡ at
    unfolding complete_tx push_used
    elem-new =
        rw
          (
            v.caught_up,
            get_or-set_self s.tx_used.ring (s.tx_used.idx % 8) (record { id = at; len = u32 len })
                zero_elem (omega (arith, v.used_size)),
          )
          refl

    slot-new : slot_at placed.tx_slots at ≡ fill_slot (slot_at s.tx_slots at) bytes len
    slot-new =
        get_or-set_self s.tx_slots at _ zero_slot (omega (arith, v.slots_size, v.probe_small))

    -- What reclaiming leaves: the slot is free again, and nothing is pending.
    abbrev pub sent : NetState
    sent = record completed {
      tx_slots = set placed.tx_slots at (reset_slot (slot_at placed.tx_slots at));
      tx_desc = set placed.tx_desc at (record (get_or placed.tx_desc at zero_desc) { len = 0 });
      tx_pending = 0;
      tx_used_consume = u16 (s.tx_used_consume + 1);
    }

    reclaim-sent : reclaim_step completed ≡ sent
    unfolding reclaim_step complete_tx fill_slot
    reclaim-sent =
        let here : u16 (elem_at completed.tx_used (completed.tx_used_consume % 8)).id ≡ at =
          rw elem-new (omega (arith, v.probe_small)) in
        let occ : (slot_at placed.tx_slots at).occupied ≡ true = rw slot-new refl in
        rw (here, occ, lt→ltb at 8 v.probe_small, v.none_pending) refl

    in_placed : at < length placed.tx_slots
    in_placed = omega (
      arith,
      length-set s.tx_slots at (fill_slot (slot_at s.tx_slots at) bytes len),
      v.slots_size,
      v.probe_small,
    )

    sent-slots : (i : ℕ) → i < 8 → (slot_at sent.tx_slots i).occupied ≡ false
    unfolding complete_tx reset_slot
    sent-slots i small = elim (==-cases i at) [
      | inl e ↦ rw (e, get_or-set_self placed.tx_slots at _ zero_slot in_placed) refl
      | inr ne ↦
          let other : at ≢ i = λ e. ne (sym e) in
          rw
            (
              get_or-set_ne placed.tx_slots at i _ zero_slot other,
              get_or-set_ne s.tx_slots at i _ zero_slot other,
            )
            (v.free i small)
    ]

    pub sent-IsIdle : IsIdle sent
    unfolding complete_tx push_used next_index
    sent-IsIdle = record {
      used_size = length-set _ _ _ ∙ v.used_size;
      slots_size = length-set _ _ _ ∙ length-set _ _ _ ∙ v.slots_size;
      last_size = length-copy_bytes _ bytes len ∙ v.last_size;
      none_pending = refl;
      caught_up = ap (λ (n : ℕ). u16 (n + 1)) v.caught_up;
      idx_word = omega arith;
      probe_small = omega arith;
      free = sent-slots;
    }

    pub fake_send-sent : fake_send s bytes len ≡ (true, sent)
    fake_send-sent =
        fake_send-placed ∙ ap (λ (t : NetState). (true, t)) (reclaim-one ∙ reclaim-sent)
