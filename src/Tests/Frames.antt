-- ===== src/Tests/Frames.antt =====
-- Frames of kernel/net_proto.cc and kernel/udp.cc from one machine to the other.
use networking_p.Prelude.{
  ℕ, drop, inr, ◌%◌, ◌^◌, ◌<◌, ◌≡◌, refl, ◌≢◌, ◌↔◌, ltb, if◌then◌else◌, List, [], ◌∷◌, ◌++◌, arith,
}
use networking_p.NetStats.{NetStatCounter}
use networking_p.World.{count, Invoke}
use networking_p.Chat.Store.{chat_udp_handler}
use networking_p.Wire.{
  bswap16, EthernetHeader, Ipv4Header, IcmpEchoHeader, eth_bytes, ipv4_bytes, icmp_bytes, load_eth,
  load_ipv4, load_icmp, proto_udp,
}
use networking_p.Udp.Table.{find_handler}
use networking_p.Udp.Send.{udp_packet}
use networking_p.NetProto.Checksum.{checksum16, add_words, fold_carries}
use networking_p.NetProto.Checksum.Sum.{word_sum, checksum16_zero, fold_carries_lem}
use networking_p.NetProto.Checked.{ipv4-checked}
use networking_p.NetProto.Send.{ipv4_frame}
use networking_p.NetProto.Handle.{net_handle_frame, done, overrun, reply_size}
use networking_p.Delivery.{udp_delivered}
use networking_p.Echo.{IsRequest, payload_of, reply_of, asked, replied, request-outcome}
use networking_p.Echo.Reply.{reply-accepted}
use networking_p.Tests.Fixtures.{
  sender, responder, sender_ip, responder_ip, sender_mac, responder_mac,
}

-- Every pointer runs the chat handler.
abbrev chat_code : Invoke
chat_code address src port payload len w = record w {
  chat = chat_udp_handler w.chat src port payload len;
}

abbrev hello : List ℕ
hello = 104 ∷ 105 ∷ []

udp_delivered_example :
    net_handle_frame chat_code responder
      (ipv4_frame sender responder_mac responder_ip proto_udp (udp_packet 4390 4390 hello 2) 10)
      44
    ≡ done (
        chat_code
          (find_handler responder.udp 4390)
          sender_ip
          4390
          hello
          2
          (count (count responder NetStatCounter.ipv4_rx) NetStatCounter.udp_rx))
unfolding find_handler
udp_delivered_example =
    udp_delivered chat_code sender responder hello 4390 4390 (omega arith) (omega arith)
      (omega arith) (omega arith) (omega arith) (omega arith)

abbrev ping_eth : EthernetHeader
ping_eth = record { dst = responder_mac; src = sender_mac; ether_type = 0x0008 }

abbrev ping_ip : Ipv4Header
ping_ip = record {
  version_ihl = 0x45;
  tos = 0;
  total_length = 0x1e00;
  identification = 0x0100;
  flags_fragment = 0;
  ttl = 64;
  protocol = 1;
  header_checksum = 47970;
  src_ip = sender_ip;
  dst_ip = responder_ip;
}

abbrev ping : IcmpEchoHeader
ping = record { kind = 8; code = 0; checksum = 37775; identifier = 0x0100; sequence = 0x0200 }

-- The request, and two bytes of padding.
abbrev ping_frame : List ℕ
ping_frame =
    eth_bytes ping_eth ++ (ipv4_bytes ping_ip ++ (icmp_bytes ping ++ (hello ++ 0 ∷ 0 ∷ [])))

ping-IsRequest : IsRequest responder ping_frame 46 20 30
unfolding bswap16 checksum16 add_words fold_carries eth_bytes ipv4_bytes icmp_bytes load_eth
    load_ipv4 load_icmp
ping-IsRequest = record {
  to_mac = inr refl;
  ether_type = refl;
  header_length = refl;
  whole_header = omega arith;
  header_sum = refl;
  to_ip = refl;
  total_length = refl;
  whole_echo = omega arith;
  whole_packet = omega arith;
  protocol = refl;
  kind = refl;
  icmp_sum = refl;
}

request-outcome_example :
    net_handle_frame chat_code responder ping_frame 46
    ≡ (if ltb reply_size 44 then overrun else done (replied (asked responder) ping_frame 20 30))
request-outcome_example = request-outcome chat_code responder ping_frame 46 20 30 ping-IsRequest

reply-accepted_example :
    let reply = reply_of (asked responder) ping_frame 20 30 in
    let got = load_icmp reply 34 in
    let request = load_icmp ping_frame 34 in
    (net_handle_frame chat_code sender reply 44 ≡ done (count sender NetStatCounter.ipv4_rx))
    × (checksum16 (drop 34 reply) 10 ≡ 0)
    × (got.kind ≡ 0)
    × (got.code ≡ 0)
    × (got.identifier ≡ request.identifier)
    × (got.sequence ≡ request.sequence)
    × (drop 42 reply ≡ payload_of ping_frame 20 30)
unfolding eth_bytes ipv4_bytes icmp_bytes load_eth load_ipv4
reply-accepted_example =
    reply-accepted chat_code sender responder ping_frame 46 20 30 ping-IsRequest (omega arith)
      (omega arith) refl refl

checksum16_zero_example :
    (checksum16 (ipv4_bytes ping_ip) 20 ≡ 0)
    ↔ ((word_sum (ipv4_bytes ping_ip) % 65535 ≡ 0) × (word_sum (ipv4_bytes ping_ip) ≢ 0))
unfolding ipv4_bytes
checksum16_zero_example = checksum16_zero (ipv4_bytes ping_ip) (omega arith) (omega arith)

fold_carries_lem_example :
    (fold_carries 2 0x1ffff < 2 ^ 16)
    × (fold_carries 2 0x1ffff % 65535 ≡ 0x1ffff % 65535)
    × ((fold_carries 2 0x1ffff ≡ 0) ↔ (◌≡◌ {A = ℕ} 0x1ffff 0))
fold_carries_lem_example = fold_carries_lem 0x1ffff (omega arith)

ipv4-checked_example :
    checksum16
      (ipv4_bytes (record ping_ip {
        header_checksum = bswap16 (
            checksum16
              (ipv4_bytes (record ping_ip { header_checksum = 0 }) ++ 1 ∷ 2 ∷ 3 ∷ 4 ∷ [])
              24);
      })
        ++ 1 ∷ 2 ∷ 3 ∷ 4 ∷ [])
      24
    ≡ 0
ipv4-checked_example =
    ipv4-checked ping_ip (1 ∷ 2 ∷ 3 ∷ 4 ∷ []) (omega arith) (omega arith) (omega arith)
