-- ===== src/Echo/Reply.antt =====
-- The echo reply of kernel/net_proto.cc, and what the requester makes of it.
use networking_p.Prelude.{
  ℕ, zero, suc, true, ◌+◌, ◌-◌, ◌*◌, ◌%◌, ◌≤◌, ◌≡◌, ◌≢◌, sym, ap, ◌∙◌, subst, List, [], ◌∷◌, ◌++◌,
  drop, take, length, replicate, append_assoc, drop-append, drop-drop, length-replicate,
  length-take, length-drop, arith,
}
use networking_p.Address.{ip_bytes, mac_equals_refl, ip_equals_refl}
use networking_p.NetStats.{NetStatCounter}
use networking_p.World.{World, count, Invoke}
use networking_p.Wire.{
  IsBytes, bswap16, load_eth, load_ipv4, load_icmp, eth_size, ip_size, icmp_size, eth_bytes,
  ipv4_bytes, icmp_bytes, EthernetHeader, Ipv4Header, IcmpEchoHeader, eth_type_ipv4, proto_icmp,
}
use networking_p.Wire.Fields.{
  bswap16-lt, byte-lt, load_eth-eth_bytes, load_ipv4-ipv4_bytes, load_icmp-drop, load_icmp-first,
}
use networking_p.NetProto.Checksum.{checksum16}
use networking_p.NetProto.Checksum.Sum.{checksum16-append}
use networking_p.NetProto.Handle.{
  done, mac_is_for_me, ip_is_for_me, ipv4_header_length, net_handle_frame, answer_echo,
  echo_reply_frame, eth_reply, ip_reply, icmp_reply, ip_part, icmp_part, icmp_echo_request,
}
use networking_p.NetProto.Checked.{
  IsHeader, IsEcho, length-ipv4_bytes, ip_part-checked, icmp_part-checked,
}
use networking_p.NetProto.Path.{frame-ipv4, ipv4-payload, payload-echo}
use networking_p.Echo.{IsRequest, payload_of, reply_of, asked}

-- Headers that were read from bytes.
load_ipv4-IsHeader : (mem : List ℕ) (n : ℕ) → IsBytes mem → IsHeader (load_ipv4 mem n)
unfolding load_ipv4
load_ipv4-IsHeader mem n h = omega (arith, λ (i : ℕ). byte-lt mem i h)

load_icmp-IsEcho : (mem : List ℕ) (n : ℕ) → IsBytes mem → IsEcho (load_icmp mem n)
unfolding load_icmp
load_icmp-IsEcho mem n h = omega (arith, λ (i : ℕ). byte-lt mem i h)

drop-IsBytes : (n : ℕ) (xs : List ℕ) → IsBytes xs → IsBytes (drop n xs)
drop-IsBytes zero xs h = h
drop-IsBytes (suc n) [] h = tt
drop-IsBytes (suc n) (x ∷ xs) h = drop-IsBytes n xs h.1

take-IsBytes : (n : ℕ) (xs : List ℕ) → IsBytes xs → IsBytes (take n xs)
take-IsBytes zero xs h = tt
take-IsBytes (suc n) [] h = tt
take-IsBytes (suc n) (x ∷ xs) h = (h.0, take-IsBytes n xs h.1)

-- The three parts of a reply, one behind the other.
module _ (e : EthernetHeader) (h : Ipv4Header) (options echo : List ℕ) (hdr_len : ℕ)
    (size : ip_size + length options ≡ hdr_len) where
  abbrev frame : List ℕ
  frame = eth_bytes e ++ ((ipv4_bytes h ++ options) ++ echo)

  ip_length : length (ipv4_bytes h ++ options) ≡ hdr_len
  ip_length = length-ipv4_bytes h options ∙ size

  frame-ip : load_ipv4 frame eth_size ≡ h
  frame-ip =
      ap (λ xs. load_ipv4 (eth_bytes e ++ xs) eth_size) (append_assoc (ipv4_bytes h) options echo)
      ∙ load_ipv4-ipv4_bytes e h (options ++ echo)

  frame-sum :
      checksum16 (ipv4_bytes h ++ options) hdr_len ≡ 0
      → checksum16 (drop eth_size frame) hdr_len ≡ 0
  unfolding eth_bytes
  frame-sum ok =
      let all = checksum16-append (ipv4_bytes h ++ options) echo in rw ip_length at all ∙ ok

  frame-echo : drop (eth_size + hdr_len) frame ≡ echo
  unfolding eth_bytes
  frame-echo =
      let whole : length (ipv4_bytes h ++ options) + 0 ≡ hdr_len = omega (arith, ip_length) in
      let behind : drop hdr_len ((ipv4_bytes h ++ options) ++ echo) ≡ echo =
        rw whole at (drop-append (ipv4_bytes h ++ options) echo 0) in
      drop-append (eth_bytes e) ((ipv4_bytes h ++ options) ++ echo) hdr_len ∙ behind

answer-ignored :
    (w : World) (mem : List ℕ) (hdr_len total : ℕ)
    → (load_icmp mem (eth_size + hdr_len)).kind ≢ icmp_echo_request
    → answer_echo w mem hdr_len total ≡ done w
unfolding answer_echo
answer-ignored w mem hdr_len total other = ground arith

-- A frame to `a` with a good header and an ICMP message that is no request.
accepted-quietly :
    (invoke : Invoke) (a : World) (e : EthernetHeader) (h : Ipv4Header) (options echo : List ℕ)
    (hdr_len total : ℕ) (size : ip_size + length options ≡ hdr_len)
    → e.dst ≡ a.my_mac
    → bswap16 e.ether_type ≡ eth_type_ipv4
    → h.version_ihl % 16 * 4 ≡ hdr_len
    → h.dst_ip ≡ a.my_ip
    → checksum16 (ipv4_bytes h ++ options) hdr_len ≡ 0
    → bswap16 h.total_length ≡ total
    → hdr_len + icmp_size ≤ total
    → h.protocol ≡ proto_icmp
    → (load_icmp echo 0).kind ≢ icmp_echo_request
    → net_handle_frame invoke a (frame e h options echo hdr_len size) (eth_size + total)
      ≡ done (count a NetStatCounter.ipv4_rx)
unfolding mac_is_for_me ip_is_for_me ipv4_header_length
accepted-quietly invoke a e h options echo hdr_len total size to_a kind ihl mine sum length_field
      fits proto other =
    let mem = frame e h options echo hdr_len size in
    let len = eth_size + total in
    let w = count a NetStatCounter.ipv4_rx in
    let ip = frame-ip e h options echo hdr_len size in
    let for_a : mac_is_for_me a (load_eth mem 0).dst ≡ true =
      rw (load_eth-eth_bytes, to_a, mac_equals_refl) (ground arith) in
    let ip_for_a : ip_is_for_me a (load_ipv4 mem eth_size) ≡ true =
      rw (ip, mine) (ip_equals_refl a.my_ip) in
    let header : ipv4_header_length (load_ipv4 mem eth_size) ≡ hdr_len = rw ip ihl in
    let message : load_icmp mem (eth_size + hdr_len) ≡ load_icmp echo 0 =
      load_icmp-drop (eth_size + hdr_len) mem
      ∙ ap (λ xs. load_icmp xs 0) (frame-echo e h options echo hdr_len size) in
    frame-ipv4 invoke a mem len (omega arith) for_a (rw load_eth-eth_bytes kind)
    ∙ ipv4-payload invoke a mem len hdr_len header (omega arith) (omega arith)
        (frame-sum e h options echo hdr_len size sum) ip_for_a
    ∙ payload-echo invoke w mem len (load_ipv4 mem eth_size) hdr_len total (rw ip length_field) fits
        (omega arith) (rw ip proto)
    ∙ answer-ignored w mem hdr_len total (rw message other)

length-payload_of :
    (mem : List ℕ) (hdr_len total : ℕ)
    → hdr_len + icmp_size ≤ total
    → eth_size + total ≤ length mem
    → length (payload_of mem hdr_len total) ≡ total - hdr_len - icmp_size
length-payload_of mem hdr_len total fits whole =
    let behind = drop (eth_size + hdr_len + icmp_size) mem in
    omega (
      arith,
      length-take (total - hdr_len - icmp_size) behind,
      length-drop (eth_size + hdr_len + icmp_size) mem,
    )

-- The reply that `b` builds for a request in memory, IPv4 options and padding included, that the machine
-- `a` sent: it passes every check of the IPv4 layer there, is counted as an IPv4 packet and is not
-- answered. Its ICMP message has a good checksum, type 0, code 0, and the request's identifier, sequence
-- number and payload.
pub reply-accepted :
    (invoke : Invoke) (a b : World) (mem : List ℕ) (len hdr_len total : ℕ)
    → IsRequest b mem len hdr_len total
    → IsBytes mem
    → eth_size + total ≤ length mem
    → (load_eth mem 0).src ≡ a.my_mac
    → (load_ipv4 mem eth_size).src_ip ≡ a.my_ip
    → let reply = reply_of (asked b) mem hdr_len total in
      let got = load_icmp reply (eth_size + hdr_len) in
      let request = load_icmp mem (eth_size + hdr_len) in
      (net_handle_frame invoke a reply (eth_size + total) ≡ done (count a NetStatCounter.ipv4_rx))
      × (checksum16 (drop (eth_size + hdr_len) reply) (total - hdr_len) ≡ 0)
      × (got.kind ≡ 0)
      × (got.code ≡ 0)
      × (got.identifier ≡ request.identifier)
      × (got.sequence ≡ request.sequence)
      × (drop (eth_size + hdr_len + icmp_size) reply ≡ payload_of mem hdr_len total)
unfolding icmp_bytes echo_reply_frame ip_part icmp_part eth_reply ip_reply icmp_reply
reply-accepted invoke a b mem len hdr_len total r bytes whole from_a from_ip =
    let h = load_ipv4 mem eth_size in
    let i = load_icmp mem (eth_size + hdr_len) in
    let payload = payload_of mem hdr_len total in
    let n = total - hdr_len in
    let reply = reply_of (asked b) mem hdr_len total in
    let options : List ℕ = replicate (hdr_len - ip_size) 0 in
    let c = bswap16 (checksum16 (icmp_part i payload 0) n) in
    let s = bswap16 (checksum16 (ip_part b h hdr_len 0) hdr_len) in
    let header : IsHeader h = load_ipv4-IsHeader mem eth_size bytes in
    let b_bytes : IsBytes (ip_bytes b.my_ip) =
      subst (λ ip. IsBytes (ip_bytes ip)) r.to_ip (load_ipv4-IsHeader mem eth_size bytes).9 in
    let size : ip_size + length options ≡ hdr_len =
      omega (arith, length-replicate {A = ℕ} (hdr_len - ip_size) 0, r.whole_header) in
    let message : drop (eth_size + hdr_len) reply ≡ icmp_part i payload c =
      frame-echo (eth_reply b (load_eth mem 0)) (ip_reply b h s) options (icmp_part i payload c)
        hdr_len size in
    let loaded : load_icmp reply (eth_size + hdr_len) ≡ icmp_reply i c =
      load_icmp-drop (eth_size + hdr_len) reply
      ∙ ap (λ xs. load_icmp xs 0) message
      ∙ load_icmp-first (icmp_reply i c) payload in
    let ok : checksum16 (icmp_part i payload c) n ≡ 0 =
      icmp_part-checked i payload n (load_icmp-IsEcho mem (eth_size + hdr_len) bytes)
        (take-IsBytes (n - icmp_size) (drop (eth_size + hdr_len + icmp_size) mem)
          (drop-IsBytes (eth_size + hdr_len + icmp_size) mem bytes))
        (omega (arith, length-payload_of mem hdr_len total r.whole_echo whole, r.whole_echo))
        (omega (arith, r.total_length, bswap16-lt h.total_length)) in
    let kind : (load_icmp (icmp_part i payload c) 0).kind ≢ icmp_echo_request = λ e. omega (
      arith,
      sym (ap (λ (x : IcmpEchoHeader). x.kind) (load_icmp-first (icmp_reply i c) payload)) ∙ e,
    ) in
    (
      accepted-quietly invoke a (eth_reply b (load_eth mem 0)) (ip_reply b h s) options
          (icmp_part i payload c) hdr_len total size from_a r.ether_type r.header_length from_ip
          (ip_part-checked b h hdr_len header b_bytes r.whole_header
            (omega (arith, r.header_length)))
          r.total_length r.whole_echo r.protocol kind,
      ap (λ xs. checksum16 xs n) message ∙ ok,
      ap (λ (x : IcmpEchoHeader). x.kind) loaded,
      ap (λ (x : IcmpEchoHeader). x.code) loaded,
      ap (λ (x : IcmpEchoHeader). x.identifier) loaded,
      ap (λ (x : IcmpEchoHeader). x.sequence) loaded,
      sym (drop-drop icmp_size (eth_size + hdr_len) reply) ∙ ap (drop icmp_size) message,
    )
