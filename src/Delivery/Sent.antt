-- ===== src/Delivery/Sent.antt =====
-- A datagram from `udp_send_to` of kernel/udp.cc to the handler on the other machine, over the fake
-- backend of kernel/virtio_net.cc.
use networking_p.Prelude.{
  ℕ, ◌+◌, ◌-◌, ◌^◌, ◌≤◌, ◌<◌, ◌≡◌, ◌≢◌, refl, ap, ◌∙◌, Bool, true, false, ◌||◌, ltb, ◌==◌, some,
  List, length, drop, take_all, ne→==, arith,
}
use networking_p.Prelude.Words.{u64}
use networking_p.Address.{Ip, Mac, ip_bytes}
use networking_p.NetStats.{NetStatCounter}
use networking_p.ArpCache.{arp_cache_lookup}
use networking_p.World.{World, count, Invoke}
use networking_p.Wire.{
  IsBytes, eth_size, ip_size, udp_size, eth_bytes, ipv4_bytes, udp_bytes, proto_udp,
}
use networking_p.VirtioNet.State.{fake, max_frame_size}
use networking_p.VirtioNet.Api.{net_send_raw, net_copy_last_tx_for_test}
use networking_p.VirtioNet.Transmit.{IsIdle}
use networking_p.VirtioNet.Sending.{after, send-after, copy-after}
use networking_p.Udp.Table.{find_handler}
use networking_p.Udp.Send.{udp_packet, max_payload, send_datagram, udp_send_to}
use networking_p.NetProto.Send.{
  ipv4_frame, checked_header, ipv4_header, send_resolved, send_sized, net_send_ipv4, count_if,
}
use networking_p.NetProto.Handle.{net_handle_frame}
use networking_p.Resolution.Exchange.{deliver, handed, returned}
use networking_p.Delivery.{udp_delivered, length-udp_packet}

module _ (w : World) (dst_ip : Ip) (mac : Mac) (protocol : ℕ) (payload : List ℕ) (n : ℕ)
    (size : length payload ≡ n) (small : n ≤ max_frame_size - 34)
    (known : (arp_cache_lookup w.arp (some dst_ip) true).0 ≡ some mac) (e : w.net.backend ≡ fake)
    (v : IsIdle w.net) where
  abbrev packet : List ℕ
  packet = ipv4_frame w mac dst_ip protocol payload n

  abbrev packet_len : ℕ
  packet_len = u64 (eth_size + u64 (ip_size + n))

  length-packet : length packet ≡ packet_len
  unfolding ipv4_frame eth_bytes ipv4_bytes
  length-packet = rw (take_all n payload (omega arith)) (omega arith)

  -- The lookup has stamped the entry.
  abbrev w1 : World
  w1 = record w { arp = (arp_cache_lookup w.arp (some dst_ip) true).1 }

  abbrev w_sent : World
  w_sent =
      count
        (after w1 packet packet_len e v (omega arith) (omega arith) (omega (arith, length-packet)))
        NetStatCounter.ipv4_tx

  resolved : send_resolved w dst_ip protocol payload n ≡ (
      let (sent, w2) = net_send_raw w1 (some packet) packet_len in
      (sent, count_if sent w2 NetStatCounter.ipv4_tx))
  unfolding send_resolved ipv4_frame checked_header ipv4_header
  resolved = rw (send_resolved, known) refl

  sized : send_sized w dst_ip protocol payload n ≡ send_resolved w dst_ip protocol payload n
  unfolding send_sized
  sized = ground arith

  sends : net_send_ipv4 w (some dst_ip) protocol (some payload) n ≡ (true, w_sent)
  unfolding net_send_ipv4 count_if
  sends =
      sized
      ∙ resolved
      ∙ ap (λ (r : Bool × World). (r.0, count_if r.0 r.1 NetStatCounter.ipv4_tx))
          (send-after w1 packet packet_len e v (omega arith) (omega arith)
            (omega (arith, length-packet)))

  copied : net_copy_last_tx_for_test w_sent true (some max_frame_size) ≡ some packet
  unfolding net_copy_last_tx_for_test
  copied =
      copy-after w1 packet packet_len e v (omega arith) (omega arith) (omega (arith, length-packet))
      ∙ ap some (take_all packet_len packet (omega (arith, length-packet)))

module _ (a : World) (dst_ip : Ip) (mac : Mac) (src_port dst_port : ℕ) (payload : List ℕ)
    (sp : src_port ≢ 0) (dp : dst_port ≢ 0) (short : length payload ≤ max_payload)
    (known : (arp_cache_lookup a.arp (some dst_ip) true).0 ≡ some mac) (e : a.net.backend ≡ fake)
    (v : IsIdle a.net) where
  abbrev datagram : List ℕ
  datagram = udp_packet src_port dst_port payload (length payload)

  abbrev udp_len : ℕ
  udp_len = udp_size + length payload

  abbrev ip_sent : World
  ip_sent =
      w_sent a dst_ip mac proto_udp datagram udp_len (length-udp_packet src_port dst_port payload)
        (omega arith) known e v

  abbrev udp_sent : World
  udp_sent = count ip_sent NetStatCounter.udp_tx

  -- `udp_send_to` succeeds, with the packet as the last frame sent.
  udp_sends :
      udp_send_to a (some dst_ip) src_port dst_port (some payload) (length payload)
      ≡ (true, udp_sent)
  unfolding udp_send_to send_datagram count_if
  udp_sends =
      let ports : (src_port == 0 || dst_port == 0) ≡ false =
        rw (ne→== src_port 0 sp, ne→== dst_port 0 dp) refl in
      let sized : (ltb (0xffff - udp_size) (length payload) || ltb max_payload (length payload))
          ≡ false =
        ground arith in
      let sent =
        sends a dst_ip mac proto_udp datagram udp_len (length-udp_packet src_port dst_port payload)
          (omega arith) known e v in
      rw (ports, sized)
        (ap (λ (r : Bool × World). (r.0, count_if r.0 r.1 NetStatCounter.udp_tx)) sent)

  udp_copied :
      net_copy_last_tx_for_test udp_sent true (some max_frame_size)
      ≡ some (ipv4_frame a mac dst_ip proto_udp datagram udp_len)
  unfolding net_copy_last_tx_for_test
  udp_copied =
      copied a dst_ip mac proto_udp datagram udp_len (length-udp_packet src_port dst_port payload)
        (omega arith) known e v

  -- Its payload lies behind the three headers.
  udp_laid : drop 42 (ipv4_frame a mac dst_ip proto_udp datagram udp_len) ≡ payload
  unfolding ipv4_frame eth_bytes ipv4_bytes udp_packet udp_bytes
  udp_laid =
      rw
        (
          take_all udp_len datagram (omega (arith, length-udp_packet src_port dst_port payload)),
          take_all (length payload) payload (omega arith),
        )
        refl

  -- What went out last after such a call of `udp_send_to`.
  pub udp_send_to-copied :
      let a1 = (udp_send_to a (some dst_ip) src_port dst_port (some payload) (length payload)).1 in
      (frame : List ℕ) × (net_copy_last_tx_for_test a1 true (some max_frame_size) ≡ some frame)
      × (drop 42 frame ≡ payload)
  udp_send_to-copied =
      rw (ap (λ (r : Bool × World). r.1) udp_sends)
        (ipv4_frame a mac dst_ip proto_udp datagram udp_len, udp_copied, udp_laid)

udp_arrives :
    (invoke : Invoke) (a b : World) (payload : List ℕ) (src_port dst_port : ℕ)
    → (ia : IsBytes (ip_bytes a.my_ip)) → (ib : IsBytes (ip_bytes b.my_ip)) → (sp : src_port ≢ 0)
    → (sw : src_port < 2 ^ 16) → (dp : dst_port ≢ 0) → (dw : dst_port < 2 ^ 16)
    → (short : length payload ≤ max_payload) → (served : find_handler b.udp dst_port ≢ 0)
    → (known : (arp_cache_lookup a.arp (some b.my_ip) true).0 ≡ some b.my_mac)
    → (e : a.net.backend ≡ fake) → (v : IsIdle a.net)
    → deliver invoke (udp_sent a b.my_ip b.my_mac src_port dst_port payload sp dp short known e v) b
      ≡ some (
          invoke
            (find_handler b.udp dst_port)
            a.my_ip
            src_port
            payload
            (length payload)
            (count (count b NetStatCounter.ipv4_rx) NetStatCounter.udp_rx))
unfolding deliver
udp_arrives invoke a b payload src_port dst_port ia ib sp sw dp dw short served known e v =
    let packet = udp_packet src_port dst_port payload (length payload) in
    let n = udp_size + length payload in
    let frame = ipv4_frame a b.my_mac b.my_ip proto_udp packet n in
    let size : length frame ≡ eth_size + (ip_size + n) =
      length-packet a b.my_ip b.my_mac proto_udp packet n
        (length-udp_packet src_port dst_port payload) (omega arith) known e v
      ∙ omega arith in
    ap (handed invoke b)
      (udp_copied a b.my_ip b.my_mac src_port dst_port payload sp dp short known e v)
    ∙ ap (λ (k : ℕ). returned (net_handle_frame invoke b frame k)) size
    ∙ ap returned (udp_delivered invoke a b payload src_port dst_port ia ib sw dw short served)

-- A payload of at most 1472 bytes given to `udp_send_to`, for an address that the sender has resolved
-- to the receiver's MAC and from and to ports that are not zero, over a fake backend with an idle
-- transmit ring: the call succeeds, and when the frame that went out is handled by the receiver, the
-- handler of the port runs once with the sender's address and port and exactly the payload.
pub udp_send_to-deliver :
    (invoke : Invoke) (a b : World) (payload : List ℕ) (src_port dst_port : ℕ)
    → IsBytes (ip_bytes a.my_ip)
    → IsBytes (ip_bytes b.my_ip)
    → src_port ≢ 0
    → src_port < 2 ^ 16
    → dst_port ≢ 0
    → dst_port < 2 ^ 16
    → length payload ≤ max_payload
    → find_handler b.udp dst_port ≢ 0
    → (arp_cache_lookup a.arp (some b.my_ip) true).0 ≡ some b.my_mac
    → a.net.backend ≡ fake
    → IsIdle a.net
    → let (ok, a1) =
        udp_send_to a (some b.my_ip) src_port dst_port (some payload) (length payload) in
      (ok ≡ true)
      × (deliver invoke a1 b
          ≡ some (
              invoke
                (find_handler b.udp dst_port)
                a.my_ip
                src_port
                payload
                (length payload)
                (count (count b NetStatCounter.ipv4_rx) NetStatCounter.udp_rx)))
udp_send_to-deliver invoke a b payload src_port dst_port ia ib sp sw dp dw short served known e v =
    let sent = udp_sends a b.my_ip b.my_mac src_port dst_port payload sp dp short known e v in
    rw (ap (λ (r : Bool × World). r.0) sent, ap (λ (r : Bool × World). r.1) sent)
      (
        refl,
        udp_arrives invoke a b payload src_port dst_port ia ib sp sw dp dw short served known e v,
      )
