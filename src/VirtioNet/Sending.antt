-- ===== src/VirtioNet/Sending.antt =====
-- `net_send_raw` of kernel/virtio_net.cc on an idle transmit ring of the fake backend.
use networking_p.Prelude.{
  ℕ, ◌≤◌, ◌<◌, ◌≡◌, refl, ap, ◌∙◌, Bool, true, false, ltb, ◌==◌, some, List, length, take,
  take-copy_bytes, le→ltb, ◌||◌, arith,
}
use networking_p.Prelude.Words.{u16}
use networking_p.VirtioNet.State.{fake, max_frame_size, NetState}
use networking_p.VirtioNet.Fake.{complete_tx, fake_send, reset_slot, reset_rings}
use networking_p.NetStats.{NetStatCounter, net_stats_increment}
use networking_p.VirtioNet.Slots.{reset_at, length-map_reset}
use networking_p.World.{World, count}
use networking_p.VirtioNet.Api.{
  net_init_fake, net_send_raw, send_checked, backend_ready, count_sent, net_copy_last_tx_for_test,
}
use networking_p.VirtioNet.Transmit.{IsIdle, sent, sent-IsIdle, fake_send-sent}

backend_ready-fake : (w : World) → w.net.backend ≡ fake → backend_ready w ≡ true
unfolding backend_ready
backend_ready-fake w e = rw e refl

module _ (w : World) (bytes : List ℕ) (len : ℕ) (e : w.net.backend ≡ fake) (v : IsIdle w.net)
    (lo : 0 < len) (hi : len ≤ max_frame_size) (avail : len ≤ length bytes) where
  abbrev pub after : World
  after = count (record w { net = sent w.net v bytes len hi avail }) NetStatCounter.raw_tx

  send-fake :
      net_send_raw w (some bytes) len
      ≡ (let (done, net') = fake_send w.net bytes len in count_sent done (record w { net = net' }))
  unfolding net_send_raw send_checked
  send-fake =
      let sized : (len == 0 || ltb max_frame_size len) ≡ false = ground arith in
      let ready : backend_ready w ≡ true = backend_ready-fake w e in simp (sized, ready, e)

  pub send-after : net_send_raw w (some bytes) len ≡ (true, after)
  unfolding count_sent
  send-after =
      send-fake
      ∙ ap (λ (r : Bool × NetState). count_sent r.0 (record w { net = r.1 }))
          (fake_send-sent w.net v bytes len hi avail)

  pub copy-after :
      net_copy_last_tx_for_test after true (some max_frame_size) ≡ some (take len bytes)
  unfolding net_copy_last_tx_for_test complete_tx
  copy-after =
      let same : u16 len ≡ len = omega arith in
      rw (same, le→ltb max_frame_size len hi)
        (ap some (take-copy_bytes w.net.last_fake_tx bytes len (omega (arith, v.last_size)) avail))

-- On an idle ring, with the fake backend, `net_send_raw` of a frame of 1 to 2048 bytes succeeds and
-- is counted; the last sent frame reads back as its bytes, and the ring is idle again, so the next
-- call succeeds too.
pub net_send_raw-IsIdle :
    (w : World) (bytes : List ℕ) (len : ℕ)
    → w.net.backend ≡ fake
    → IsIdle w.net
    → 0 < len
    → len ≤ max_frame_size
    → len ≤ length bytes
    → let (done, w') = net_send_raw w (some bytes) len in
      (done ≡ true)
      × (net_copy_last_tx_for_test w' true (some max_frame_size) ≡ some (take len bytes))
      × (w'.stats ≡ net_stats_increment w.stats NetStatCounter.raw_tx)
      × (w'.net.backend ≡ fake)
      × IsIdle w'.net
unfolding complete_tx
net_send_raw-IsIdle w bytes len e v lo hi avail =
    let code = send-after w bytes len e v lo hi avail in
    rw (ap (λ (r : Bool × World). r.0) code, ap (λ (r : Bool × World). r.1) code)
      (
        refl,
        copy-after w bytes len e v lo hi avail,
        refl,
        e,
        sent-IsIdle w.net v bytes len hi avail,
      )

-- `net_init_fake` leaves the transmit ring idle.
pub init-IsIdle :
    (w : World)
    → length w.net.tx_slots ≡ 8
    → length w.net.last_fake_tx ≡ max_frame_size
    → IsIdle (net_init_fake w).net
unfolding net_init_fake reset_rings reset_slot
init-IsIdle w size last = record {
  used_size = refl;
  slots_size = length-map_reset w.net.tx_slots ∙ size;
  last_size = last;
  none_pending = refl;
  caught_up = refl;
  idx_word = omega arith;
  probe_small = omega arith;
  free = λ i small. rw (reset_at w.net.tx_slots i) refl;
}
