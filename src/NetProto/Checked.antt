-- ===== src/NetProto/Checked.antt =====
-- The checksums that kernel/net_proto.cc writes are those that it accepts.
use networking_p.Prelude.{
  ℕ, zero, suc, ◌+◌, ◌-◌, ◌*◌, ◌/◌, ◌%◌, ◌^◌, ◌≤◌, ◌<◌, ◌≡◌, sym, ◌∙◌, List, [], ◌++◌, length,
  All-append, length-replicate, replicate, arith,
}
use networking_p.Address.{Ip, ip_bytes}
use networking_p.World.{World}
use networking_p.Wire.{
  IsBytes, bswap16, Ipv4Header, IcmpEchoHeader, ipv4_bytes, icmp_bytes, ip_size,
}
use networking_p.Wire.Fields.{bswap16_bytes, bswap16-lt}
use networking_p.NetProto.Checksum.{checksum16}
use networking_p.NetProto.Checksum.Sum.{word_sum, checksum16_patched, checksum16-lt}
use networking_p.NetProto.Send.{ipv4_header, checked_header}
use networking_p.NetProto.Handle.{ip_part, ip_reply, icmp_part, icmp_reply}

abbrev pub IsHeader : Ipv4Header → Type 0
IsHeader h =
    (h.version_ihl < 256)
    × (h.tos < 256)
    × (h.total_length < 2 ^ 16)
    × (h.identification < 2 ^ 16)
    × (h.flags_fragment < 2 ^ 16)
    × (h.ttl < 256)
    × (h.protocol < 256)
    × (h.header_checksum < 2 ^ 16)
    × IsBytes (ip_bytes h.src_ip)
    × IsBytes (ip_bytes h.dst_ip)

pub ipv4_bytes-IsBytes : (h : Ipv4Header) → IsHeader h → IsBytes (ipv4_bytes h)
unfolding ipv4_bytes
ipv4_bytes-IsBytes h v = omega arith

pub length-ipv4_bytes :
    (h : Ipv4Header) (rest : List ℕ) → length (ipv4_bytes h ++ rest) ≡ ip_size + length rest
unfolding ipv4_bytes
length-ipv4_bytes h rest = omega arith

-- The bytes of a field that holds a turned-round number, as a big-endian word.
turned : (x : ℕ) → x < 2 ^ 16 → bswap16 x % 256 * 256 + bswap16 x / 256 ≡ x
turned x h = omega (arith, bswap16_bytes x h)

-- A header, followed by options, with a checksum in its field.
ipv4_patched :
    (h : Ipv4Header) (rest : List ℕ) (c : ℕ)
    → c < 2 ^ 16
    → word_sum (ipv4_bytes (record h { header_checksum = bswap16 c }) ++ rest)
      ≡ word_sum (ipv4_bytes (record h { header_checksum = 0 }) ++ rest) + c
unfolding ipv4_bytes word_sum
ipv4_patched h rest c lt = omega (arith, turned c lt)

-- The checksum of an IPv4 header, options included, that was computed with a zero field and
-- stored turned round is accepted.
pub ipv4-checked :
    (h : Ipv4Header) (options : List ℕ)
    → IsHeader h
    → IsBytes options
    → length options ≤ 40
    → let sum =
        checksum16
          (ipv4_bytes (record h { header_checksum = 0 }) ++ options)
          (ip_size + length options) in
      checksum16
        (ipv4_bytes (record h { header_checksum = bswap16 sum }) ++ options)
        (ip_size + length options)
      ≡ 0
ipv4-checked h options v bytes short =
    let n = ip_size + length options in
    let blank = record h { header_checksum = 0 } in
    let sum = checksum16 (ipv4_bytes blank ++ options) n in
    let full = record h { header_checksum = bswap16 sum } in
    checksum16_patched (ipv4_bytes blank ++ options) (ipv4_bytes full ++ options) n
      (length-ipv4_bytes blank options) (length-ipv4_bytes full options) (omega arith)
      (All-append _ (ipv4_bytes blank) options (ipv4_bytes-IsBytes blank (omega arith)) bytes)
      (All-append _ (ipv4_bytes full) options
        (ipv4_bytes-IsBytes full (omega (arith, bswap16-lt sum))) bytes)
      (ipv4_patched h options sum (checksum16-lt (ipv4_bytes blank ++ options) n))

abbrev pub IsEcho : IcmpEchoHeader → Type 0
IsEcho i = (i.identifier < 2 ^ 16) × (i.sequence < 2 ^ 16)

echo-IsBytes :
    (i : IcmpEchoHeader) (c : ℕ) → IsEcho i → c < 2 ^ 16 → IsBytes (icmp_bytes (icmp_reply i c))
unfolding icmp_bytes icmp_reply
echo-IsBytes i c v h = omega arith

length-icmp_part :
    (i : IcmpEchoHeader) (payload : List ℕ) (c : ℕ)
    → length (icmp_part i payload c) ≡ 8 + length payload
unfolding icmp_part icmp_bytes
length-icmp_part i payload c = omega arith

icmp_patched :
    (i : IcmpEchoHeader) (payload : List ℕ) (c : ℕ)
    → c < 2 ^ 16
    → word_sum (icmp_part i payload (bswap16 c)) ≡ word_sum (icmp_part i payload 0) + c
unfolding icmp_part icmp_bytes icmp_reply word_sum
icmp_patched i payload c lt = omega (arith, turned c lt)

icmp_part-IsBytes :
    (i : IcmpEchoHeader) (payload : List ℕ) (c : ℕ)
    → IsEcho i
    → IsBytes payload
    → c < 2 ^ 16
    → IsBytes (icmp_part i payload c)
unfolding icmp_part
icmp_part-IsBytes i payload c v bytes h =
    All-append _ (icmp_bytes (icmp_reply i c)) payload (echo-IsBytes i c v h) bytes

-- The ICMP part of the echo reply carries a checksum that is accepted.
pub icmp_part-checked :
    (i : IcmpEchoHeader) (payload : List ℕ) (n : ℕ)
    → IsEcho i
    → IsBytes payload
    → n ≡ 8 + length payload
    → n ≤ 2 ^ 16
    → checksum16 (icmp_part i payload (bswap16 (checksum16 (icmp_part i payload 0) n))) n ≡ 0
icmp_part-checked i payload n v bytes e le =
    let sum = checksum16 (icmp_part i payload 0) n in
    checksum16_patched (icmp_part i payload 0) (icmp_part i payload (bswap16 sum)) n
      (length-icmp_part i payload 0 ∙ sym e) (length-icmp_part i payload (bswap16 sum) ∙ sym e) le
      (icmp_part-IsBytes i payload 0 v bytes (omega arith))
      (icmp_part-IsBytes i payload (bswap16 sum) v bytes (bswap16-lt sum))
      (icmp_patched i payload sum (checksum16-lt (icmp_part i payload 0) n))

zeros-IsBytes : (n : ℕ) → IsBytes (replicate n 0)
zeros-IsBytes zero = tt
zeros-IsBytes (suc n) = (omega arith, zeros-IsBytes n)

-- The IPv4 part of the echo reply, zeroed options included, carries a checksum that is accepted.
pub ip_part-checked :
    (w : World) (ip : Ipv4Header) (hdr_len : ℕ)
    → IsHeader ip
    → IsBytes (ip_bytes w.my_ip)
    → ip_size ≤ hdr_len
    → hdr_len ≤ 60
    → checksum16
        (ip_part w ip hdr_len (bswap16 (checksum16 (ip_part w ip hdr_len 0) hdr_len)))
        hdr_len
      ≡ 0
unfolding ip_part ip_reply
ip_part-checked w ip hdr_len v mine lo hi =
    let options : List ℕ = replicate (hdr_len - ip_size) 0 in
    let size : ip_size + length options ≡ hdr_len =
      omega (arith, length-replicate {A = ℕ} (hdr_len - ip_size) 0) in
    rw size at (
      ipv4-checked (ip_reply w ip 0) options (omega arith) (zeros-IsBytes (hdr_len - ip_size))
        (omega arith))

-- The header that `net_send_ipv4` sends carries a checksum that is accepted.
pub checked_header-checked :
    (w : World) (dst : Ip) (protocol total_len : ℕ)
    → IsBytes (ip_bytes w.my_ip)
    → IsBytes (ip_bytes dst)
    → protocol < 256
    → checksum16 (ipv4_bytes (checked_header w dst protocol total_len)) ip_size ≡ 0
unfolding checked_header ipv4_header ipv4_bytes
checked_header-checked w dst protocol total_len mine theirs lt =
    ipv4-checked (ipv4_header w dst protocol total_len 0) []
      (omega (arith, bswap16-lt (total_len % 2 ^ 16), bswap16-lt 0x2222)) tt (omega arith)
