-- ===== src/Echo.antt =====
-- ICMP echo in kernel/net_proto.cc: what becomes of a request that passes the checks.
pub mod Reply
use networking_p.Prelude.{
  ℕ, ◌+◌, ◌-◌, ◌*◌, ◌%◌, ◌≤◌, ◌≡◌, ◌⊎◌, inl, inr, refl, sym, ap, ◌∙◌, true, ◌||◌, ltb,
  if◌then◌else◌, List, some, drop, take, arith,
}
use networking_p.Address.{Mac, broadcast, mac_equals, ip_equals_refl, mac_equals_refl}
use networking_p.NetStats.{NetStatCounter}
use networking_p.World.{World, count, Invoke}
use networking_p.VirtioNet.Api.{net_send_raw}
use networking_p.Wire.{
  bswap16, load_eth, load_ipv4, load_icmp, eth_size, ip_size, icmp_size, eth_type_ipv4, proto_icmp,
}
use networking_p.NetProto.Checksum.{checksum16}
use networking_p.NetProto.Send.{count_if}
use networking_p.NetProto.Handle.{
  done, overrun, mac_is_for_me, ip_is_for_me, ipv4_header_length, net_handle_frame, answer_echo,
  echo_reply_frame, icmp_echo_request, reply_size,
}
use networking_p.NetProto.Path.{frame-ipv4, ipv4-payload, payload-echo}

-- A frame of `len` bytes that is an echo request for `b`: its IPv4 header takes `hdr_len` bytes, options
-- included, and its packet `total`; padding may follow.
pub record IsRequest (b : World) (mem : List ℕ) (len hdr_len total : ℕ) : Type 0 where
  pub to_mac : ((load_eth mem 0).dst ≡ broadcast) ⊎ ((load_eth mem 0).dst ≡ b.my_mac)
  pub ether_type : bswap16 (load_eth mem 0).ether_type ≡ eth_type_ipv4
  pub header_length : (load_ipv4 mem eth_size).version_ihl % 16 * 4 ≡ hdr_len
  pub whole_header : ip_size ≤ hdr_len
  pub header_sum : checksum16 (drop eth_size mem) hdr_len ≡ 0
  pub to_ip : (load_ipv4 mem eth_size).dst_ip ≡ b.my_ip
  pub total_length : bswap16 (load_ipv4 mem eth_size).total_length ≡ total
  pub whole_echo : hdr_len + icmp_size ≤ total
  pub whole_packet : eth_size + total ≤ len
  pub protocol : (load_ipv4 mem eth_size).protocol ≡ proto_icmp
  pub kind : (load_icmp mem (eth_size + hdr_len)).kind ≡ icmp_echo_request
  pub icmp_sum : checksum16 (drop (eth_size + hdr_len) mem) (total - hdr_len) ≡ 0

-- What follows the ICMP header of the packet.
abbrev pub payload_of : List ℕ → ℕ → ℕ → List ℕ
payload_of mem hdr_len total =
    take (total - hdr_len - icmp_size) (drop (eth_size + hdr_len + icmp_size) mem)

-- The reply that is built for a frame.
abbrev pub reply_of : World → List ℕ → ℕ → ℕ → List ℕ
reply_of w mem hdr_len total =
    echo_reply_frame w (load_eth mem 0) (load_ipv4 mem eth_size)
      (load_icmp mem (eth_size + hdr_len)) (payload_of mem hdr_len total) hdr_len (total - hdr_len)

-- The state when the reply is built.
abbrev pub asked : World → World
asked b = count (count b NetStatCounter.ipv4_rx) NetStatCounter.icmp_rx

-- The state after a reply went to `net_send_raw`.
abbrev pub replied : World → List ℕ → ℕ → ℕ → World
replied w mem hdr_len total =
    let r = net_send_raw w (some (reply_of w mem hdr_len total)) (eth_size + total) in
    count_if r.0 (count_if r.0 r.1 NetStatCounter.ipv4_tx) NetStatCounter.icmp_tx

for-me : (b : World) (m : Mac) → (m ≡ broadcast) ⊎ (m ≡ b.my_mac) → mac_is_for_me b m ≡ true
unfolding mac_is_for_me
for-me b m (inl e) = rw (e, mac_equals_refl) refl
for-me b m (inr e) = rw (e, mac_equals_refl) (ground arith)

answers :
    (w : World) (mem : List ℕ) (hdr_len total : ℕ)
    → hdr_len ≤ total
    → (load_icmp mem (eth_size + hdr_len)).kind ≡ icmp_echo_request
    → checksum16 (drop (eth_size + hdr_len) mem) (total - hdr_len) ≡ 0
    → answer_echo w mem hdr_len total ≡ (
        if ltb reply_size (eth_size + total)
        then overrun
        else done (replied (count w NetStatCounter.icmp_rx) mem hdr_len total))
unfolding answer_echo
answers w mem hdr_len total le kind sum =
    let len : eth_size + hdr_len + (total - hdr_len) ≡ eth_size + total = omega arith in
    rw (answer_echo, kind, sum, len) refl

-- A request to this machine's MAC address or to the broadcast address, with IPv4 options or without,
-- padded or not, that passes the checks of `handle_ipv4`: it is answered if its IPv4 packet and the
-- Ethernet header take at most 1514 bytes, and the array `reply` is overrun if they take more.
pub request-outcome :
    (invoke : Invoke) (b : World) (mem : List ℕ) (len hdr_len total : ℕ)
    → IsRequest b mem len hdr_len total
    → net_handle_frame invoke b mem len ≡ (
        if ltb reply_size (eth_size + total)
        then overrun
        else done (replied (asked b) mem hdr_len total))
unfolding ip_is_for_me ipv4_header_length
request-outcome invoke b mem len hdr_len total r =
    let ip = load_ipv4 mem eth_size in
    let mine : ip_is_for_me b ip ≡ true = rw r.to_ip (ip_equals_refl b.my_ip) in
    frame-ipv4 invoke b mem len (omega (arith, r.whole_header, r.whole_echo, r.whole_packet))
      (for-me b (load_eth mem 0).dst r.to_mac) r.ether_type
    ∙ ipv4-payload invoke b mem len hdr_len r.header_length r.whole_header
        (omega (arith, r.whole_header, r.whole_echo, r.whole_packet)) r.header_sum mine
    ∙ payload-echo invoke (count b NetStatCounter.ipv4_rx) mem len ip hdr_len total r.total_length
        r.whole_echo r.whole_packet r.protocol
    ∙ answers (count b NetStatCounter.ipv4_rx) mem hdr_len total
        (omega (arith, r.whole_header, r.whole_echo, r.whole_packet)) r.kind r.icmp_sum
