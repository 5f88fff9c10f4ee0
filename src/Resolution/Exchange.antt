-- ===== src/Resolution/Exchange.antt =====
-- Request and reply between two machines on the fake backend of kernel/virtio_net.cc.
use networking_p.Prelude.{
  ℕ, ◌+◌, ◌^◌, ◌<◌, ◌≡◌, refl, ap, ◌∙◌, Bool, true, Option, none, some, List, length, arith,
  take_all,
}
use networking_p.Address.{Ip, Mac, broadcast, zero_mac, mac_equals_refl}
use networking_p.NetStats.{NetStatCounter}
use networking_p.ArpCache.{arp_cache_lookup}
use networking_p.ArpCache.Valid.{IsValid}
use networking_p.World.{World, count, Invoke}
use networking_p.VirtioNet.State.{fake, max_frame_size}
use networking_p.VirtioNet.Api.{net_send_raw, net_copy_last_tx_for_test}
use networking_p.VirtioNet.Transmit.{IsIdle}
use networking_p.VirtioNet.Sending.{after, send-after, copy-after}
use networking_p.NetProto.Send.{
  arp_frame, count_if, net_send_arp_request, arp_op_request, arp_op_reply,
}
use networking_p.NetProto.Handle.{Outcome, done, overrun, mac_is_for_me, net_handle_frame}
use networking_p.Resolution.Frames.{
  frame_len, learned, length-arp_frame, handle-frame, answer-request, answer-reply, lookup-insert,
}

-- The last frame that `x` sent is handled by `y`.
abbrev pub returned : Outcome → Option World
returned (done w) = some w
returned overrun = none

abbrev pub handed : Invoke → World → Option (List ℕ) → Option World
handed invoke y none = none
handed invoke y (some bytes) = returned (net_handle_frame invoke y bytes (length bytes))

unfoldable pub deliver : Invoke → World → World → Option World
deliver invoke x y = handed invoke y (net_copy_last_tx_for_test x true (some max_frame_size))

-- `a` asks for the address of `b`: the request goes to `b`, and what `b` sent last back to `a`.
abbrev both : World → Option World → Option (World × World)
both b1 none = none
both b1 (some a1) = some (a1, b1)

abbrev answered : Invoke → World → Option World → Option (World × World)
answered invoke a0 none = none
answered invoke a0 (some b1) = both b1 (deliver invoke b1 a0)

abbrev after_asking : Invoke → World → World → Option (World × World)
after_asking invoke b a0 = answered invoke a0 (deliver invoke a0 b)

unfoldable pub arp_exchange : Invoke → World → World → Option (World × World)
arp_exchange invoke a b = after_asking invoke b (net_send_arp_request a (some b.my_ip)).1

module _ (invoke : Invoke) (w : World) (dst : Mac) (oper : ℕ) (tha : Mac) (tpa : Ip)
    (e : w.net.backend ≡ fake) (v : IsIdle w.net) where
  abbrev out : List ℕ
  out = arp_frame w dst oper tha tpa

  out_length : length out ≡ frame_len
  out_length = length-arp_frame w dst oper tha tpa

  abbrev w_sent : World
  w_sent =
      count (after w out frame_len e v (omega arith) (omega arith) (omega (arith, out_length)))
        NetStatCounter.arp_tx

  sends :
      net_send_raw w (some out) frame_len
      ≡ (true, after w out frame_len e v (omega arith) (omega arith) (omega (arith, out_length)))
  sends = send-after w out frame_len e v (omega arith) (omega arith) (omega (arith, out_length))

  copied : net_copy_last_tx_for_test w_sent true (some max_frame_size) ≡ some out
  unfolding net_copy_last_tx_for_test
  copied =
      copy-after w out frame_len e v (omega arith) (omega arith) (omega (arith, out_length))
      ∙ ap some (take_all frame_len out (omega (arith, out_length)))

  -- The frame is delivered as the bytes that were laid out.
  deliver-sent :
      (y z : World)
      → net_handle_frame invoke y out frame_len ≡ done z
      → deliver invoke w_sent y ≡ some z
  unfolding deliver
  deliver-sent y z handled =
      ap (handed invoke y) copied
      ∙ ap (λ (n : ℕ). returned (net_handle_frame invoke y out n)) out_length
      ∙ ap returned handled

module _ (invoke : Invoke) (a b : World) (fa : a.net.backend ≡ fake) (fb : b.net.backend ≡ fake)
    (va : IsIdle a.net) (vb : IsIdle b.net) where
  abbrev a_asked : World
  a_asked = w_sent invoke a broadcast arp_op_request zero_mac b.my_ip fa va

  -- `b` has learned the sender's address, and counted the request.
  abbrev b_learned : World
  b_learned = count (learned b a_asked) NetStatCounter.arp_rx

  abbrev b_answered : World
  b_answered = w_sent invoke b_learned a.my_mac arp_op_reply a.my_mac a.my_ip fb vb

  abbrev a_learned : World
  a_learned = count (learned a_asked b_answered) NetStatCounter.arp_rx

  asked : (net_send_arp_request a (some b.my_ip)).1 ≡ a_asked
  unfolding net_send_arp_request count_if
  asked =
      let s = sends invoke a broadcast arp_op_request zero_mac b.my_ip fa va in
      rw (ap (λ (r : Bool × World). r.0) s, ap (λ (r : Bool × World). r.1) s) refl

  -- The broadcast is for everyone.
  for_b : mac_is_for_me b broadcast ≡ true
  unfolding mac_is_for_me
  for_b = rw (mac_equals_refl broadcast) refl

  for_a : mac_is_for_me a_asked a.my_mac ≡ true
  unfolding mac_is_for_me
  for_a = rw (mac_equals_refl a.my_mac) (ground arith)

  b_handles :
      net_handle_frame invoke b (arp_frame a broadcast arp_op_request zero_mac b.my_ip) frame_len
      ≡ done b_answered
  unfolding count_if
  b_handles =
      let s = sends invoke b_learned a.my_mac arp_op_reply a.my_mac a.my_ip fb vb in
      handle-frame invoke a b broadcast arp_op_request zero_mac b.my_ip for_b
      ∙ ap done (answer-request a b broadcast zero_mac (learned b a) refl)
      ∙ rw (ap (λ (r : Bool × World). r.0) s, ap (λ (r : Bool × World). r.1) s) refl

  a_handles :
      net_handle_frame invoke a_asked
        (arp_frame b_learned a.my_mac arp_op_reply a.my_mac a.my_ip)
        frame_len
      ≡ done a_learned
  a_handles =
      handle-frame invoke b_learned a_asked a.my_mac arp_op_reply a.my_mac a.my_ip for_a
      ∙ ap done (answer-reply b_learned a.my_mac a.my_mac a.my_ip (learned a_asked b_learned))

  exchanged : arp_exchange invoke a b ≡ some (a_learned, b_answered)
  unfolding arp_exchange
  exchanged =
      ap (after_asking invoke b) asked
      ∙ ap (answered invoke a_asked) (
          deliver-sent invoke a broadcast arp_op_request zero_mac b.my_ip fa va b b_answered
            b_handles)
      ∙ ap (both b_answered) (
          deliver-sent invoke b_learned a.my_mac arp_op_reply a.my_mac a.my_ip fb vb a_asked
            a_learned a_handles)

-- Two machines on fake backends with idle transmit rings: when one broadcasts an ARP request for the
-- other's address and the frames are handed over, both sides return, and afterwards each resolves
-- the other's IP address to its MAC address, as long as the clocks of the caches are below
-- 2^64 - 1.
pub arp_resolved :
    (invoke : Invoke) (a b : World)
    → a.net.backend ≡ fake
    → b.net.backend ≡ fake
    → IsIdle a.net
    → IsIdle b.net
    → IsValid a.arp
    → IsValid b.arp
    → a.arp.clock + 1 < 2 ^ 64
    → b.arp.clock + 1 < 2 ^ 64
    → (a1 : World) × (b1 : World) × (arp_exchange invoke a b ≡ some (a1, b1))
      × ((arp_cache_lookup a1.arp (some b.my_ip) true).0 ≡ some b.my_mac)
      × ((arp_cache_lookup b1.arp (some a.my_ip) true).0 ≡ some a.my_mac)
arp_resolved invoke a b fa fb ia ib va vb ta tb = (
  a_learned invoke a b fa fb ia ib,
  b_answered invoke a b fa fb ia ib,
  exchanged invoke a b fa fb ia ib,
  lookup-insert a.arp b.my_ip b.my_mac va ta,
  lookup-insert b.arp a.my_ip a.my_mac vb tb,
)
