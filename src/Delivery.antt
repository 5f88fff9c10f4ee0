-- ===== src/Delivery.antt =====
-- One machine sends, another handles the frame: kernel/udp.cc and kernel/net_proto.cc together.
pub mod Sent
pub mod Text
use networking_p.Prelude.{
  ℕ, ◌+◌, ◌-◌, ◌^◌, ◌≤◌, ◌<◌, ◌≡◌, refl, ap, ◌∙◌, ◌≢◌, Bool, true, List, ◌++◌, some, drop, take,
  length, take_all, arith,
}
use native.Mathlib.Nat.{le_refl}
use networking_p.Prelude.Words.{u16, u64}
use networking_p.Address.{Ip, ip_bytes, ip_equals_refl, mac_equals_refl}
use networking_p.NetStats.{NetStatCounter}
use networking_p.World.{World, count, Invoke}
use networking_p.Wire.{
  IsBytes, bswap16, load_eth, load_ipv4, load_udp, eth_size, ip_size, udp_size, eth_bytes,
  ipv4_bytes, udp_bytes, EthernetHeader, Ipv4Header, UdpHeader, eth_type_ipv4, proto_udp,
}
use networking_p.Wire.Fields.{
  load_eth-eth_bytes, load_ipv4-ipv4_bytes, load_udp-udp_bytes, bswap16-bswap16,
}
use networking_p.Udp.Table.{find_handler}
use networking_p.Udp.Dispatch.{udp_handle_packet}
use networking_p.Udp.Send.{udp_packet, max_payload}
use networking_p.NetProto.Checksum.{checksum16}
use networking_p.NetProto.Checksum.Sum.{checksum16-append}
use networking_p.NetProto.Send.{ipv4_frame, checked_header, ipv4_header}
use networking_p.NetProto.Handle.{
  done, mac_is_for_me, ip_is_for_me, ipv4_header_length, net_handle_frame, handle_payload,
}
use networking_p.NetProto.Checked.{checked_header-checked}
use networking_p.NetProto.Path.{frame-ipv4, ipv4-payload, payload-udp, packet-handler}

module _ (invoke : Invoke) (b : World) (e : EthernetHeader) (h : Ipv4Header) (rest : List ℕ)
    (to_b : e.dst ≡ b.my_mac) (kind : bswap16 e.ether_type ≡ eth_type_ipv4)
    (ihl : h.version_ihl ≡ 0x45) (mine : h.dst_ip ≡ b.my_ip)
    (sum : checksum16 (ipv4_bytes h) ip_size ≡ 0) where
  abbrev whole : List ℕ
  whole = eth_bytes e ++ (ipv4_bytes h ++ rest)

  eth_mine : mac_is_for_me b (load_eth whole 0).dst ≡ true
  unfolding mac_is_for_me
  eth_mine = rw (load_eth-eth_bytes, to_b, mac_equals_refl) (ground arith)

  header_sum : checksum16 (drop eth_size whole) ip_size ≡ 0
  unfolding eth_bytes ipv4_bytes
  header_sum = checksum16-append (ipv4_bytes h) rest ∙ sum

  header_length : ipv4_header_length (load_ipv4 whole eth_size) ≡ ip_size
  unfolding ipv4_header_length
  header_length = rw (load_ipv4-ipv4_bytes, ihl) refl

  header_mine : ip_is_for_me b (load_ipv4 whole eth_size) ≡ true
  unfolding ip_is_for_me
  header_mine = rw (load_ipv4-ipv4_bytes, mine) (ip_equals_refl b.my_ip)

  -- A frame to this machine with a good IPv4 header comes to the protocol switch.
  pub handle-payload :
      (len : ℕ)
      → eth_size + ip_size ≤ len
      → net_handle_frame invoke b whole len
        ≡ handle_payload invoke (count b NetStatCounter.ipv4_rx) whole len h ip_size
  handle-payload len fits =
      frame-ipv4 invoke b whole len (omega arith) eth_mine (rw load_eth-eth_bytes kind)
      ∙ ipv4-payload invoke b whole len ip_size header_length (omega arith) fits header_sum
          header_mine
      ∙ rw load_ipv4-ipv4_bytes refl

pub length-udp_packet :
    (src_port dst_port : ℕ) (payload : List ℕ)
    → length (udp_packet src_port dst_port payload (length payload)) ≡ udp_size + length payload
unfolding udp_packet udp_bytes
length-udp_packet src_port dst_port payload =
    rw (take_all (length payload) payload (le_refl _)) (omega arith)

-- The packet that `udp_send_to` builds, read by `udp_handle_packet`.
packet-delivered :
    (invoke : Invoke) (w : World) (src : Ip) (payload : List ℕ) (src_port dst_port : ℕ)
    → src_port < 2 ^ 16
    → dst_port < 2 ^ 16
    → length payload ≤ max_payload
    → find_handler w.udp dst_port ≢ 0
    → udp_handle_packet invoke w
        (some src)
        (some (udp_packet src_port dst_port payload (length payload)))
        (udp_size + length payload)
      ≡ (
        true,
        invoke
            (find_handler w.udp dst_port)
            src
            src_port
            payload
            (length payload)
            (count w NetStatCounter.udp_rx),
      )
unfolding udp_packet udp_bytes
packet-delivered invoke w src payload src_port dst_port sp dp short served =
    let u : UdpHeader = record {
      src_port = bswap16 src_port;
      dst_port = bswap16 dst_port;
      length = bswap16 (u16 (udp_size + length payload));
      checksum = 0;
    } in
    let mem = udp_bytes u ++ take (length payload) payload in
    let got : load_udp mem 0 ≡ u = load_udp-udp_bytes u (take (length payload) payload) in
    let size = udp_size + length payload in
    let turned : bswap16 (load_udp mem 0).length ≡ size =
      rw got (rw (bswap16-bswap16 (u16 size) (omega arith)) (omega arith)) in
    packet-handler invoke w src mem size size src_port dst_port turned
      (rw got (bswap16-bswap16 src_port sp)) (rw got (bswap16-bswap16 dst_port dp)) (omega arith)
      (omega arith) served
    ∙ (let rest : size - udp_size ≡ length payload = omega arith in
        rw (take_all (length payload) payload (le_refl _), rest) refl)

-- A datagram that one machine builds with `udp_send_to` and `net_send_ipv4`, addressed to the MAC
-- and IP addresses of another, is handled there without a drop: the handler of the destination
-- port runs once, with the sender's address, the source port and exactly the payload.
pub udp_delivered :
    (invoke : Invoke) (a b : World) (payload : List ℕ) (src_port dst_port : ℕ)
    → IsBytes (ip_bytes a.my_ip)
    → IsBytes (ip_bytes b.my_ip)
    → src_port < 2 ^ 16
    → dst_port < 2 ^ 16
    → length payload ≤ max_payload
    → find_handler b.udp dst_port ≢ 0
    → let size = udp_size + length payload in
      net_handle_frame invoke b
        (ipv4_frame a b.my_mac b.my_ip proto_udp
          (udp_packet src_port dst_port payload (length payload))
          size)
        (eth_size + (ip_size + size))
      ≡ done (
          invoke
            (find_handler b.udp dst_port)
            a.my_ip
            src_port
            payload
            (length payload)
            (count (count b NetStatCounter.ipv4_rx) NetStatCounter.udp_rx))
unfolding ipv4_frame checked_header ipv4_header eth_bytes ipv4_bytes
udp_delivered invoke a b payload src_port dst_port ia ib sp dp short served =
    let size = udp_size + length payload in
    let packet = udp_packet src_port dst_port payload (length payload) in
    let total = u64 (ip_size + size) in
    let whole = ip_size + size in
    let h = checked_header a b.my_ip proto_udp total in
    let e : EthernetHeader = record {
      dst = b.my_mac;
      src = a.my_mac;
      ether_type = bswap16 eth_type_ipv4;
    } in
    let b1 = count b NetStatCounter.ipv4_rx in
    let frame = eth_bytes e ++ (ipv4_bytes h ++ packet) in
    let length_field : bswap16 (bswap16 (u16 total)) ≡ whole =
      rw (bswap16-bswap16 (u16 total) (omega arith)) (omega arith) in
    let rest : whole - ip_size ≡ size = omega arith in
    rw (take_all size packet (omega (arith, length-udp_packet src_port dst_port payload))) (
      handle-payload invoke b e h packet refl (bswap16-bswap16 eth_type_ipv4 (omega arith)) refl
        refl (checked_header-checked a b.my_ip proto_udp total ia ib (omega arith))
        (eth_size + whole) (omega arith)
      ∙ payload-udp invoke b1 frame (eth_size + whole) h ip_size whole length_field (omega arith)
          (omega arith) refl
      ∙ ap (λ (n : ℕ). done (udp_handle_packet invoke b1 (some a.my_ip) (some packet) n).1) rest
      ∙ ap (λ (r : Bool × World). done r.1)
          (packet-delivered invoke b1 a.my_ip payload src_port dst_port sp dp short served))
