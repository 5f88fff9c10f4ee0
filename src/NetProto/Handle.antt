-- ===== src/NetProto/Handle.antt =====
-- The receiving half of kernel/net_proto.cc. `mem` is the memory at `data`, `len` the frame's
-- length: a read past `len` would see other bytes. Messages on the console are left out.
use networking_p.Prelude.{
  ℕ, ◌+◌, ◌-◌, ◌*◌, ◌%◌, Bool, true, not, ◌&&◌, ◌||◌, ltb, ◌==◌, if◌then◌else◌, Option, none, some,
  List, ◌++◌, length, take, drop, replicate,
}
use networking_p.Address.{Ip, Mac, ip_equals, mac_equals, broadcast}
use networking_p.NetStats.{NetStatCounter}
use networking_p.ArpCache.{arp_cache_insert}
use networking_p.World.{World, count, Invoke}
use networking_p.VirtioNet.Fake.{error, nothing, frame}
use networking_p.VirtioNet.State.{max_frame_size}
use networking_p.VirtioNet.Api.{net_send_raw, net_recv_raw}
use networking_p.Udp.Dispatch.{udp_handle_packet}
use networking_p.Wire.{
  bswap16, EthernetHeader, ArpPacket, Ipv4Header, IcmpEchoHeader, load_eth, load_arp, load_ipv4,
  load_icmp, eth_bytes, ipv4_bytes, icmp_bytes, eth_size, arp_size, ip_size, icmp_size,
  eth_type_arp, eth_type_ipv4, proto_icmp, proto_udp,
}
use networking_p.NetProto.Checksum.{checksum16}
use networking_p.NetProto.Send.{
  arp_htype_ethernet, arp_op_request, arp_op_reply, arp_frame, count_if,
}

-- `sizeof(reply)` in `handle_ipv4`.
abbrev pub reply_size : ℕ
reply_size = 1514

abbrev pub icmp_echo_reply : ℕ
icmp_echo_reply = 0

abbrev pub icmp_echo_request : ℕ
icmp_echo_request = 8

-- A call returns, or it writes past the end of the array `reply` on its stack.
pub data Outcome : Type 0 where
  done : World → Outcome
  overrun : Outcome

unfoldable pub mac_is_for_me : World → Mac → Bool
mac_is_for_me w mac = mac_equals mac broadcast || mac_equals mac w.my_mac

unfoldable pub ip_is_for_me : World → Ipv4Header → Bool
ip_is_for_me w ip = ip_equals ip.dst_ip w.my_ip

unfoldable pub ipv4_header_length : Ipv4Header → ℕ
ipv4_header_length ip = ip.version_ihl % 16 * 4

-- The sender's address is learned from every Ethernet and IPv4 packet.
unfoldable pub arp_learn : World → ArpPacket → World
arp_learn w arp =
    if (arp.hlen == 6 && arp.plen == 4)
      && (bswap16 arp.htype == arp_htype_ethernet && bswap16 arp.ptype == eth_type_ipv4)
    then record w { arp = arp_cache_insert w.arp (some arp.spa) (some arp.sha) }
    else w

-- From the check of the operation on.
unfoldable pub arp_answer : World → EthernetHeader → ArpPacket → World
arp_answer w eth arp =
    let op = bswap16 arp.oper in
    if op == arp_op_reply
    then count w NetStatCounter.arp_rx
    else if not (op == arp_op_request)
    then w
    else if not (ip_equals arp.tpa w.my_ip)
    then count w NetStatCounter.dropped_not_for_me
    else (let w1 = count w NetStatCounter.arp_rx in
        let (sent, w2) =
          net_send_raw w1 (some (arp_frame w1 eth.src arp_op_reply arp.sha arp.spa))
            (eth_size + arp_size) in
        count_if sent w2 NetStatCounter.arp_tx)

unfoldable pub handle_arp : World → List ℕ → ℕ → World
handle_arp w mem len =
    let arp = load_arp mem eth_size in
    if ltb len (eth_size + arp_size)
    then count w NetStatCounter.dropped_short
    else arp_answer (arp_learn w arp) (load_eth mem 0) arp

-- `copy_eth_header_reply`, `copy_ip_header_basic` and `copy_icmp_echo_reply`, the latter two with
-- the checksum field given.
unfoldable pub eth_reply : World → EthernetHeader → EthernetHeader
eth_reply w eth = record { dst = eth.src; src = w.my_mac; ether_type = eth.ether_type }

unfoldable pub ip_reply : World → Ipv4Header → ℕ → Ipv4Header
ip_reply w ip sum = record {
  version_ihl = ip.version_ihl;
  tos = 0;
  total_length = ip.total_length;
  identification = ip.identification;
  flags_fragment = ip.flags_fragment;
  ttl = 64;
  protocol = ip.protocol;
  header_checksum = sum;
  src_ip = w.my_ip;
  dst_ip = ip.src_ip;
}

unfoldable pub icmp_reply : IcmpEchoHeader → ℕ → IcmpEchoHeader
icmp_reply icmp sum = record {
  kind = icmp_echo_reply;
  code = 0;
  checksum = sum;
  identifier = icmp.identifier;
  sequence = icmp.sequence;
}

-- The IPv4 part of the reply: the header, and zeros where the request has options.
unfoldable pub ip_part : World → Ipv4Header → ℕ → ℕ → List ℕ
ip_part w ip hdr_len sum = ipv4_bytes (ip_reply w ip sum) ++ replicate (hdr_len - ip_size) 0

unfoldable pub icmp_part : IcmpEchoHeader → List ℕ → ℕ → List ℕ
icmp_part icmp payload sum = icmp_bytes (icmp_reply icmp sum) ++ payload

-- The finished reply, both checksums recomputed.
unfoldable pub echo_reply_frame :
    World → EthernetHeader → Ipv4Header → IcmpEchoHeader → List ℕ → ℕ → ℕ → List ℕ
echo_reply_frame w eth ip icmp payload hdr_len icmp_len =
    eth_bytes (eth_reply w eth)
    ++ (ip_part w ip hdr_len (bswap16 (checksum16 (ip_part w ip hdr_len 0) hdr_len))
        ++ icmp_part icmp payload (bswap16 (checksum16 (icmp_part icmp payload 0) icmp_len)))

-- `handle_ipv4` from the ICMP header on. `ip_total_len` is known to hold the two headers.
unfoldable pub answer_echo : World → List ℕ → ℕ → ℕ → Outcome
answer_echo w mem hdr_len ip_total_len =
    let icmp_off = eth_size + hdr_len in
    let icmp = load_icmp mem icmp_off in
    let icmp_len = ip_total_len - hdr_len in
    let payload = take (icmp_len - icmp_size) (drop (icmp_off + icmp_size) mem) in
    let reply_len = eth_size + hdr_len + icmp_len in
    if not (icmp.kind == icmp_echo_request)
    then done w
    else if not (checksum16 (drop icmp_off mem) icmp_len == 0)
    then done (count w NetStatCounter.dropped_bad_checksum)
    else if ltb reply_size reply_len
    then overrun
    else (let w1 = count w NetStatCounter.icmp_rx in
        let reply =
          echo_reply_frame w1 (load_eth mem 0) (load_ipv4 mem eth_size) icmp payload hdr_len
            icmp_len in
        let (sent, w2) = net_send_raw w1 (some reply) reply_len in
        done (count_if sent (count_if sent w2 NetStatCounter.ipv4_tx) NetStatCounter.icmp_tx))

-- `handle_ipv4` from the count of `Ipv4Rx` on: the length field, and the protocols.
unfoldable pub handle_payload : Invoke → World → List ℕ → ℕ → Ipv4Header → ℕ → Outcome
handle_payload invoke w mem len ip hdr_len =
    let ip_total_len = bswap16 ip.total_length in
    if ltb ip_total_len hdr_len
    then done (count w NetStatCounter.dropped_short)
    else if ltb len (eth_size + ip_total_len)
    then done (count w NetStatCounter.dropped_short)
    else if ip.protocol == proto_udp
    then done
        (udp_handle_packet invoke w (some ip.src_ip) (some (drop (eth_size + hdr_len) mem))
          (ip_total_len - hdr_len)).1
    else if not (ip.protocol == proto_icmp)
    then done (count w NetStatCounter.dropped_unknown_ipv4_protocol)
    else if ltb ip_total_len (hdr_len + icmp_size)
    then done (count w NetStatCounter.dropped_short)
    else answer_echo w mem hdr_len ip_total_len

unfoldable pub handle_ipv4 : Invoke → World → List ℕ → ℕ → Outcome
handle_ipv4 invoke w mem len =
    let ip = load_ipv4 mem eth_size in
    let hdr_len = ipv4_header_length ip in
    if ltb len (eth_size + ip_size)
    then done (count w NetStatCounter.dropped_short)
    else if ltb hdr_len ip_size
    then done (count w NetStatCounter.dropped_short)
    else if ltb len (eth_size + hdr_len)
    then done (count w NetStatCounter.dropped_short)
    else if not (checksum16 (drop eth_size mem) hdr_len == 0)
    then done (count w NetStatCounter.dropped_bad_checksum)
    else if not (ip_is_for_me w ip)
    then done (count w NetStatCounter.dropped_not_for_me)
    else handle_payload invoke (count w NetStatCounter.ipv4_rx) mem len ip hdr_len

unfoldable pub net_handle_frame : Invoke → World → List ℕ → ℕ → Outcome
net_handle_frame invoke w mem len =
    let eth = load_eth mem 0 in
    let ether_type = bswap16 eth.ether_type in
    if ltb len eth_size
    then done (count w NetStatCounter.dropped_short)
    else if not (mac_is_for_me w eth.dst)
    then done (count w NetStatCounter.dropped_not_for_me)
    else if ether_type == eth_type_arp
    then done (handle_arp w mem len)
    else if ether_type == eth_type_ipv4
    then handle_ipv4 invoke w mem len
    else done (count w NetStatCounter.dropped_unknown_ethertype)

-- What one poll does: nothing came, or a frame was handled.
pub data Polled : Type 0 where
  idle : World → Polled
  handled : Outcome → Polled

-- The frame lies in a zeroed buffer of `max_frame_size` bytes.
unfoldable pub net_poll_once : Invoke → World → Polled
net_poll_once invoke w =
    let (r, w') = net_recv_raw w true max_frame_size in
    elim r [
      | error ↦ idle w'
      | nothing ↦ idle w'
      | frame bytes ↦ handled (
          net_handle_frame invoke w' (take max_frame_size (bytes ++ replicate max_frame_size 0))
            (length bytes))
    ]

unfoldable pub net_set_identity : World → Option Mac → Option Ip → World
net_set_identity w mac ip =
    let w1 : World = elim mac [ none ↦ w | some m ↦ record w { my_mac = m } ] in
    elim ip [ none ↦ w1 | some i ↦ record w1 { my_ip = i } ]
