-- ===== src/NetProto/Send.antt =====
-- The sending half of kernel/net_proto.cc: ARP requests and IPv4 packets. A frame is the bytes
-- of its headers and payload one after the other, as the code lays them out in its buffer.
use networking_p.Prelude.{
  ℕ, ◌+◌, Bool, true, false, not, ◌||◌, ltb, ◌==◌, if◌then◌else◌, Option, none, some, List, [],
  ◌++◌, take,
}
use networking_p.Prelude.Words.{u16, u64}
use networking_p.Address.{Ip, Mac, broadcast, zero_mac}
use networking_p.NetStats.{NetStatCounter}
use networking_p.ArpCache.{arp_cache_lookup}
use networking_p.World.{World, count}
use networking_p.VirtioNet.State.{max_frame_size}
use networking_p.VirtioNet.Api.{net_send_raw}
use networking_p.Wire.{
  bswap16, Ipv4Header, eth_bytes, arp_bytes, ipv4_bytes, eth_size, arp_size, ip_size, eth_type_arp,
  eth_type_ipv4,
}
use networking_p.NetProto.Checksum.{checksum16}

abbrev pub arp_htype_ethernet : ℕ
arp_htype_ethernet = 1

abbrev pub arp_op_request : ℕ
arp_op_request = 1

abbrev pub arp_op_reply : ℕ
arp_op_reply = 2

-- An Ethernet header and an ARP packet of this machine: the lines that `handle_arp` and
-- `net_send_arp_request` share.
unfoldable pub arp_frame : World → Mac → ℕ → Mac → Ip → List ℕ
arp_frame w dst oper tha tpa =
    eth_bytes (record { dst = dst; src = w.my_mac; ether_type = bswap16 eth_type_arp })
    ++ arp_bytes (record {
      htype = bswap16 arp_htype_ethernet;
      ptype = bswap16 eth_type_ipv4;
      hlen = 6;
      plen = 4;
      oper = bswap16 oper;
      sha = w.my_mac;
      spa = w.my_ip;
      tha = tha;
      tpa = tpa;
    })

-- The statistics of a frame, if it was sent.
unfoldable pub count_if : Bool → World → NetStatCounter → World
count_if true w c = count w c
count_if false w c = w

unfoldable pub net_send_arp_request : World → Option Ip → Bool × World
net_send_arp_request w none = (false, w)
net_send_arp_request w (some target) =
    let (sent, w') =
      net_send_raw w (some (arp_frame w broadcast arp_op_request zero_mac target))
        (eth_size + arp_size) in
    (sent, count_if sent w' NetStatCounter.arp_tx)

-- The header that `net_send_ipv4` fills in, with the checksum field given.
unfoldable pub ipv4_header : World → Ip → ℕ → ℕ → ℕ → Ipv4Header
ipv4_header w dst_ip protocol total_len sum = record {
  version_ihl = 0x45;
  tos = 0;
  total_length = bswap16 (u16 total_len);
  identification = bswap16 0x2222;
  flags_fragment = 0;
  ttl = 64;
  protocol = protocol;
  header_checksum = sum;
  src_ip = w.my_ip;
  dst_ip = dst_ip;
}

-- The same with the checksum of the header whose checksum field is zero.
unfoldable pub checked_header : World → Ip → ℕ → ℕ → Ipv4Header
checked_header w dst_ip protocol total_len =
    ipv4_header w dst_ip protocol total_len
      (bswap16 (checksum16 (ipv4_bytes (ipv4_header w dst_ip protocol total_len 0)) ip_size))

unfoldable pub ipv4_frame : World → Mac → Ip → ℕ → List ℕ → ℕ → List ℕ
ipv4_frame w dst_mac dst_ip protocol payload payload_len =
    eth_bytes (record { dst = dst_mac; src = w.my_mac; ether_type = bswap16 eth_type_ipv4 })
    ++ (ipv4_bytes (checked_header w dst_ip protocol (u64 (ip_size + payload_len)))
        ++ take payload_len payload)

-- From the ARP lookup on: a miss sends a request, and the packet is lost.
unfoldable pub send_resolved : World → Ip → ℕ → List ℕ → ℕ → Bool × World
send_resolved w dst_ip protocol payload payload_len =
    let (found, arp') = arp_cache_lookup w.arp (some dst_ip) true in
    let w1 = record w { arp = arp' } in
    elim found [
      | none ↦ let (_, w2) = net_send_arp_request w1 (some dst_ip) in (false, w2)
      | some dst_mac ↦
          let (sent, w2) =
            net_send_raw w1 (some (ipv4_frame w1 dst_mac dst_ip protocol payload payload_len))
              (u64 (eth_size + u64 (ip_size + payload_len))) in
          (sent, count_if sent w2 NetStatCounter.ipv4_tx)
    ]

-- The size check. The sums are `size_t`.
unfoldable pub send_sized : World → Ip → ℕ → List ℕ → ℕ → Bool × World
send_sized w dst_ip protocol payload payload_len =
    let ip_total_len = u64 (ip_size + payload_len) in
    let frame_len = u64 (eth_size + ip_total_len) in
    if ltb max_frame_size payload_len || (ltb max_frame_size frame_len || ltb 0xffff ip_total_len)
    then (false, w)
    else send_resolved w dst_ip protocol payload payload_len

-- A null payload is allowed if its length is zero.
unfoldable pub net_send_ipv4 : World → Option Ip → ℕ → Option (List ℕ) → ℕ → Bool × World
net_send_ipv4 w none protocol payload payload_len = (false, w)
net_send_ipv4 w (some dst_ip) protocol none payload_len =
    if not (payload_len == 0) then (false, w) else send_sized w dst_ip protocol [] payload_len
net_send_ipv4 w (some dst_ip) protocol (some payload) payload_len =
    send_sized w dst_ip protocol payload payload_len
