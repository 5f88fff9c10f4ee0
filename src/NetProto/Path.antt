-- ===== src/NetProto/Path.antt =====
-- The path of an accepted frame through kernel/net_proto.cc and kernel/udp.cc, guard by guard.
use networking_p.Prelude.{ℕ, ◌+◌, ◌-◌, ◌≤◌, ◌≡◌, ◌≢◌, true, List, some, drop, le→ltb, arith}
use networking_p.Address.{Ip}
use networking_p.NetStats.{NetStatCounter}
use networking_p.World.{World, count, Invoke}
use networking_p.Wire.{
  Ipv4Header, bswap16, load_eth, load_ipv4, load_udp, eth_size, ip_size, icmp_size, udp_size,
  eth_type_ipv4, proto_icmp, proto_udp,
}
use networking_p.Udp.Table.{find_handler}
use networking_p.Udp.Dispatch.{udp_handle_packet, dispatch}
use networking_p.NetProto.Checksum.{checksum16}
use networking_p.NetProto.Handle.{
  done, mac_is_for_me, ip_is_for_me, ipv4_header_length, net_handle_frame, handle_ipv4,
  handle_payload, answer_echo,
}

module _ (invoke : Invoke) (w : World) (mem : List ℕ) (len : ℕ) where
  pub frame-ipv4 :
      eth_size ≤ len
      → mac_is_for_me w (load_eth mem 0).dst ≡ true
      → bswap16 (load_eth mem 0).ether_type ≡ eth_type_ipv4
      → net_handle_frame invoke w mem len ≡ handle_ipv4 invoke w mem len
  unfolding net_handle_frame
  frame-ipv4 size mine kind = ground arith

  pub ipv4-payload :
      (hdr_len : ℕ)
      → ipv4_header_length (load_ipv4 mem eth_size) ≡ hdr_len
      → ip_size ≤ hdr_len
      → eth_size + hdr_len ≤ len
      → checksum16 (drop eth_size mem) hdr_len ≡ 0
      → ip_is_for_me w (load_ipv4 mem eth_size) ≡ true
      → handle_ipv4 invoke w mem len
        ≡ handle_payload invoke
            (count w NetStatCounter.ipv4_rx)
            mem
            len
            (load_ipv4 mem eth_size)
            hdr_len
  unfolding handle_ipv4
  ipv4-payload hdr_len e size fits sum mine = ground arith

  pub payload-udp :
      (ip : Ipv4Header) (hdr_len total : ℕ)
      → bswap16 ip.total_length ≡ total
      → hdr_len ≤ total
      → eth_size + total ≤ len
      → ip.protocol ≡ proto_udp
      → handle_payload invoke w mem len ip hdr_len
        ≡ done
            (udp_handle_packet invoke w
              (some ip.src_ip)
              (some (drop (eth_size + hdr_len) mem))
              (total - hdr_len)).1
  unfolding handle_payload
  payload-udp ip hdr_len total e size fits proto = ground arith

  pub payload-echo :
      (ip : Ipv4Header) (hdr_len total : ℕ)
      → bswap16 ip.total_length ≡ total
      → hdr_len + icmp_size ≤ total
      → eth_size + total ≤ len
      → ip.protocol ≡ proto_icmp
      → handle_payload invoke w mem len ip hdr_len ≡ answer_echo w mem hdr_len total
  unfolding handle_payload
  payload-echo ip hdr_len total e size fits proto = ground arith

-- A datagram whose length field fits and whose port is served goes to the handler.
pub packet-handler :
    (invoke : Invoke) (w : World) (src : Ip) (mem : List ℕ) (len udp_len src_port dst_port : ℕ)
    → bswap16 (load_udp mem 0).length ≡ udp_len
    → bswap16 (load_udp mem 0).src_port ≡ src_port
    → bswap16 (load_udp mem 0).dst_port ≡ dst_port
    → udp_size ≤ udp_len
    → udp_len ≤ len
    → find_handler w.udp dst_port ≢ 0
    → udp_handle_packet invoke w (some src) (some mem) len ≡ (
      true,
      invoke
          (find_handler w.udp dst_port)
          src
          src_port
          (drop udp_size mem)
          (udp_len - udp_size)
          (count w NetStatCounter.udp_rx),
    )
unfolding udp_handle_packet dispatch
packet-handler invoke w src mem len udp_len src_port dst_port e sp dp lo hi served =
    rw (le→ltb len udp_size (omega arith), sp, dp, e) (ground arith)
