-- ===== src/VirtioNet/Api.antt =====
-- The public functions of kernel/virtio_net.h. Each holds `g_net.lock` throughout, so a call is
-- one step. A buffer is the bytes at a pointer (`none` for null) with a length; `nic_ready` is
-- the weak definition of the file itself. `net_debug_dump_frame` only prints.
use networking_p.Prelude.{
  ℕ, Bool, true, false, not, ◌||◌, ltb, ◌==◌, if◌then◌else◌, Option, none, some, List, take,
}
use networking_p.NetStats.{NetStatCounter}
use networking_p.World.{World, count}
use networking_p.VirtioNet.State.{max_frame_size, absent, fake, virtio}
use networking_p.VirtioNet.Fake.{
  reset_rings, fake_send, fake_recv, inject, Received, error, nothing, frame,
}
use networking_p.VirtioNet.Device.{virtio_send_raw, virtio_recv_raw}

unfoldable pub backend_ready : World → Bool
backend_ready w = elim w.net.backend [ fake ↦ true | virtio ↦ w.hw.ready | absent ↦ false ]

unfoldable pub net_init_fake : World → World
net_init_fake w = record w { net = record (reset_rings w.net) { backend = fake } }

unfoldable pub net_shutdown_backend : World → World
net_shutdown_backend w = record w { net = record (reset_rings w.net) { backend = absent } }

unfoldable pub net_ready : World → Bool
net_ready w = backend_ready w

-- `RawTx` counts the frames that were sent.
unfoldable pub count_sent : Bool → World → Bool × World
count_sent true w = (true, count w NetStatCounter.raw_tx)
count_sent false w = (false, w)

-- `net_send_raw` behind its argument check.
unfoldable pub send_checked : World → List ℕ → ℕ → Bool × World
send_checked w bytes len = if not (backend_ready w) then (false, w) else elim w.net.backend [
  | virtio ↦
      let (sent, hw') = virtio_send_raw w.hw bytes len in count_sent sent (record w { hw = hw' })
  | _ ↦ let (sent, net') = fake_send w.net bytes len in count_sent sent (record w { net = net' })
]

unfoldable pub net_send_raw : World → Option (List ℕ) → ℕ → Bool × World
net_send_raw w none len = (false, w)
net_send_raw w (some bytes) len =
    if len == 0 || ltb max_frame_size len then (false, w) else send_checked w bytes len

-- `RawRx` counts the frames that were handed over.
unfoldable pub count_received : Received → World → Received × World
count_received (frame bytes) w = (frame bytes, count w NetStatCounter.raw_rx)
count_received nothing w = (nothing, w)
count_received error w = (error, w)

-- `has_out` says that `out` is not null.
unfoldable pub net_recv_raw : World → Bool → ℕ → Received × World
net_recv_raw w has_out max_len =
    if not has_out || max_len == 0
    then (error, w)
    else if not (backend_ready w)
    then (nothing, w)
    else elim w.net.backend [
      | virtio ↦
          let (r, hw') = virtio_recv_raw w.hw max_len in count_received r (record w { hw = hw' })
      | _ ↦ let (r, net') = fake_recv w.net max_len in count_received r (record w { net = net' })
    ]

unfoldable pub net_fake_inject_rx : World → Option (List ℕ) → ℕ → Bool × World
net_fake_inject_rx w none len = (false, w)
net_fake_inject_rx w (some bytes) len =
    if len == 0 || ltb max_frame_size len then (false, w) else elim w.net.backend [
      | fake ↦ let (done, net') = inject w.net bytes len in (done, record w { net = net' })
      | _ ↦ (false, w)
    ]

-- `room` is `*len_in_out` on entry, `none` for a null pointer; `none` is the result false.
unfoldable pub net_copy_last_tx_for_test : World → Bool → Option ℕ → Option (List ℕ)
net_copy_last_tx_for_test w has_out none = none
net_copy_last_tx_for_test w has_out (some room) =
    if not has_out
    then none
    else if not w.net.last_fake_tx_valid || ltb room w.net.last_fake_tx_len
    then none
    else some (take w.net.last_fake_tx_len w.net.last_fake_tx)
