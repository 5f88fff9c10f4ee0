-- ===== src/VirtioNet/Fifo/Run.antt =====
-- Runs of `net_fake_inject_rx` and `net_recv_raw` of kernel/virtio_net.cc against a queue.
use networking_p.Prelude.{
  All, ℕ, zero, suc, ◌≡◌, ◌<◌, refl, ap, ap₂, ◌∙◌, Bool, true, false, ltb, ◌==◌, ◌||◌,
  if◌then◌else◌, some, List, [], ◌∷◌, ◌++◌, length, take, take_all, Bool-cases, inl, inr, arith,
}
use native.Mathlib.Nat.{le_refl}
use networking_p.World.{World}
use networking_p.VirtioNet.State.{max_frame_size, fake, FrameSlot, slot_at}
use networking_p.VirtioNet.Fake.{
  inject, fake_recv, reset_rings, reset_slot, Received, error, nothing, frame,
}
use networking_p.VirtioNet.Api.{
  net_fake_inject_rx, net_recv_raw, net_init_fake, count_received, backend_ready,
}
use networking_p.VirtioNet.Slots.{reset_at, length-map_reset}
use networking_p.VirtioNet.Fifo.{IsFifo, waiting, frames, length-frames}
use networking_p.VirtioNet.Fifo.Inject.{waiting-inject}
use networking_p.VirtioNet.Fifo.Receive.{pop_frame, waiting-recv}

pub data Op : Type 0 where
  inject_rx : List ℕ → Op
  recv_raw : ℕ → Op

pub data Reply : Type 0 where
  injected : Bool → Reply
  received : Received → Reply

unfoldable pub call : World → Op → Reply × World
call w (inject_rx bytes) =
    let (done, w') = net_fake_inject_rx w (some bytes) (length bytes) in (injected done, w')
call w (recv_raw n) = let (r, w') = net_recv_raw w true n in (received r, w')

unfoldable pub calls : World → List Op → List Reply
calls w [] = []
calls w (op ∷ ops) = let (r, w') = call w op in r ∷ calls w' ops

-- The same calls on a queue that holds eight frames of 1 to 2048 bytes.
unfoldable pub queue_call : List (List ℕ) → Op → Reply × List (List ℕ)
queue_call q (inject_rx bytes) =
    if length bytes == 0 || ltb max_frame_size (length bytes)
    then (injected false, q)
    else (injected (ltb (length q) 8), if ltb (length q) 8 then q ++ bytes ∷ [] else q)
queue_call q (recv_raw n) =
    if n == 0 then (received error, q) else (let (r, q') = pop_frame q n in (received r, q'))

unfoldable pub queue_calls : List (List ℕ) → List Op → List Reply
queue_calls q [] = []
queue_calls q (op ∷ ops) = let (r, q') = queue_call q op in r ∷ queue_calls q' ops

-- The array of slots as the source declares it: eight of `max_frame_size` bytes.
abbrev pub IsSlots : List FrameSlot → Type 0
IsSlots ss = (length ss ≡ 8) × All (λ (x : FrameSlot). length x.bytes ≡ max_frame_size) ss

slots_room :
    (ss : List FrameSlot)
    → All (λ (x : FrameSlot). length x.bytes ≡ max_frame_size) ss
    → (i : ℕ) → i < length ss
    → length (slot_at ss i).bytes ≡ max_frame_size
slots_room [] h i lt = absurd (omega arith)
slots_room (x ∷ ss) h zero lt = h.0
slots_room (x ∷ ss) h (suc i) lt = slots_room ss h.1 i (omega arith)

-- After `net_init_fake` no frame waits, whatever the rings held before.
pub init-IsFifo :
    (w : World)
    → IsSlots w.net.rx_slots
    → IsFifo (net_init_fake w).net × (waiting (net_init_fake w).net ≡ [])
unfolding net_init_fake reset_rings frames reset_slot
init-IsFifo w (size, room) =
    let ss = w.net.rx_slots in
    (
      record {
        used_size = refl;
        slots_size = length-map_reset ss ∙ size;
        room = λ i small. rw (reset_at ss i) (slots_room ss room i (omega arith));
        consume_word = omega arith;
        ready_bound = omega arith;
        produced = refl;
        probe_next = refl;
        filled = λ i small near. absurd (omega arith);
        free = λ i small far. rw (reset_at ss i) refl;
      },
      refl,
    )

-- What a call should do, for the world after it.
abbrev Follows : World → Op → Type 0
Follows w op =
    let (r, w') = call w op in
    ((r, waiting w'.net) ≡ queue_call (waiting w.net) op) × IsFifo w'.net × (w'.net.backend ≡ fake)

count_received-net : (r : Received) (w : World) → (count_received r w).1.net ≡ w.net
unfolding count_received
count_received-net (frame bytes) w = refl
count_received-net nothing w = refl
count_received-net error w = refl

count_received-result : (r : Received) (w : World) → (count_received r w).0 ≡ r
unfolding count_received
count_received-result (frame bytes) w = refl
count_received-result nothing w = refl
count_received-result error w = refl

module _ (w : World) (e : w.net.backend ≡ fake) (v : IsFifo w.net) where
  inject-fake :
      (bytes : List ℕ)
      → (length bytes == 0 || ltb max_frame_size (length bytes)) ≡ false
      → call w (inject_rx bytes) ≡ (
          let (done, net') = inject w.net bytes (length bytes) in
          (injected done, record w { net = net' }))
  unfolding call net_fake_inject_rx
  inject-fake bytes good = simp (good, e)

  fake_ready : backend_ready w ≡ true
  unfolding backend_ready
  fake_ready = rw e refl

  recv-fake :
      (n : ℕ)
      → (n == 0) ≡ false
      → call w (recv_raw n) ≡ (
          let (r, net') = fake_recv w.net n in
          (let (r', w') = count_received r (record w { net = net' }) in (received r', w')))
  unfolding call net_recv_raw backend_ready
  recv-fake n good = simp (good, fake_ready, e)

  queue-inject :
      (bytes : List ℕ)
      → (length bytes == 0 || ltb max_frame_size (length bytes)) ≡ false
      → queue_call (waiting w.net) (inject_rx bytes) ≡ (
        injected (ltb w.net.rx_ready 8),
        if ltb w.net.rx_ready 8
            then waiting w.net ++ take (length bytes) bytes ∷ []
            else waiting w.net,
      )
  unfolding queue_call
  queue-inject bytes good =
      rw
        (
          good,
          length-frames w.net w.net.rx_used_consume w.net.rx_ready,
          take_all (length bytes) bytes (le_refl _),
        )
        refl

  call-inject : (bytes : List ℕ) → Follows w (inject_rx bytes)
  unfolding call queue_call net_fake_inject_rx
  call-inject bytes = elim (Bool-cases (length bytes == 0 || ltb max_frame_size (length bytes))) [
    | inl bad ↦ rw bad (refl, v, e)
    | inr good ↦
        let step =
          waiting-inject w.net bytes (length bytes) v (ground arith) (ground arith) (le_refl _) in
        rw
          (
            ap (λ (r : Reply × World). r.0) (inject-fake bytes good),
            ap (λ (r : Reply × World). r.1) (inject-fake bytes good),
            queue-inject bytes good,
          )
          (
            ap₂ (λ (d : Bool) (q : List (List ℕ)). (injected d, q)) step.0 step.1,
            step.2,
            step.3 ∙ e,
          )
  ]

  call-recv : (n : ℕ) → Follows w (recv_raw n)
  unfolding call queue_call net_recv_raw
  call-recv n = elim (Bool-cases (n == 0)) [
    | inl bad ↦ rw bad (refl, v, e)
    | inr good ↦
        let step = waiting-recv w.net n v in
        let (r, net') = fake_recv w.net n in
        rw
          (
            ap (λ (r : Reply × World). r.0) (recv-fake n good),
            ap (λ (r : Reply × World). r.1) (recv-fake n good),
            good,
            count_received-net r (record w { net = net' }),
            count_received-result r (record w { net = net' }),
          )
          (ap (λ (p : Received × List (List ℕ)). (received p.0, p.1)) step.0, step.1, step.2 ∙ e)
  ]

  call-Follows : (op : Op) → Follows w op
  call-Follows (inject_rx bytes) = call-inject bytes
  call-Follows (recv_raw n) = call-recv n

calls-queue_calls :
    (w : World) (ops : List Op)
    → w.net.backend ≡ fake
    → IsFifo w.net
    → calls w ops ≡ queue_calls (waiting w.net) ops
unfolding calls queue_calls
calls-queue_calls w [] e v = refl
calls-queue_calls w (op ∷ ops) e v =
    let step = call-Follows w e v op in
    let w' = (call w op).1 in
    ap₂ ◌∷◌ (ap (λ (p : Reply × List (List ℕ)). p.0) step.0) (
      calls-queue_calls w' ops step.2 step.1
      ∙ ap (λ (p : Reply × List (List ℕ)). queue_calls p.1 ops) step.0)

-- After `net_init_fake`, on slots of the declared sizes, any sequence of injections and receives
-- gives the replies of an empty bounded queue: frames come out whole, once and in order; the ninth
-- waiting frame is refused, and so is a buffer that the first frame does not fit in.
pub calls-net_init_fake :
    (w : World) (ops : List Op)
    → IsSlots w.net.rx_slots
    → calls (net_init_fake w) ops ≡ queue_calls [] ops
unfolding net_init_fake
calls-net_init_fake w ops slots =
    let (v, empty) = init-IsFifo w slots in
    calls-queue_calls (net_init_fake w) ops refl v
    ∙ ap (λ (q : List (List ℕ)). queue_calls q ops) empty
