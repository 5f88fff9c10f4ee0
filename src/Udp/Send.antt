-- ===== src/Udp/Send.antt =====
-- `udp_send_to` of kernel/udp.cc.
use networking_p.Prelude.{
  ℕ, ◌+◌, ◌-◌, Bool, false, not, ◌||◌, ltb, ◌==◌, if◌then◌else◌, Option, none, some, List, [], ◌++◌,
  take,
}
use networking_p.Prelude.Words.{u16}
use networking_p.Address.{Ip}
use networking_p.NetStats.{NetStatCounter}
use networking_p.World.{World}
use networking_p.Wire.{bswap16, udp_bytes, udp_size, proto_udp}
use networking_p.NetProto.Send.{net_send_ipv4, count_if}

-- `sizeof(packet) - sizeof(UdpHeader)`
abbrev pub max_payload : ℕ
max_payload = 1472

unfoldable pub udp_packet : ℕ → ℕ → List ℕ → ℕ → List ℕ
udp_packet src_port dst_port payload payload_len =
    udp_bytes (record {
      src_port = bswap16 src_port;
      dst_port = bswap16 dst_port;
      length = bswap16 (u16 (udp_size + payload_len));
      checksum = 0;
    })
    ++ take payload_len payload

-- Behind the checks of the pointers: the two size checks, the packet, the statistics.
unfoldable pub send_datagram : World → Ip → ℕ → ℕ → List ℕ → ℕ → Bool × World
send_datagram w dst_ip src_port dst_port payload payload_len =
    if ltb (0xffff - udp_size) payload_len || ltb max_payload payload_len
    then (false, w)
    else (let (sent, w') =
          net_send_ipv4 w (some dst_ip) proto_udp
            (some (udp_packet src_port dst_port payload payload_len)) (udp_size + payload_len) in
        (sent, count_if sent w' NetStatCounter.udp_tx))

unfoldable pub udp_send_to : World → Option Ip → ℕ → ℕ → Option (List ℕ) → ℕ → Bool × World
udp_send_to w none src_port dst_port payload payload_len = (false, w)
udp_send_to w (some dst_ip) src_port dst_port none payload_len =
    if (src_port == 0 || dst_port == 0) || not (payload_len == 0)
    then (false, w)
    else send_datagram w dst_ip src_port dst_port [] payload_len
udp_send_to w (some dst_ip) src_port dst_port (some payload) payload_len =
    if src_port == 0 || dst_port == 0
    then (false, w)
    else send_datagram w dst_ip src_port dst_port payload payload_len
