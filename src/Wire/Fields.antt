-- ===== src/Wire/Fields.antt =====
-- Fields of headers that were laid out in memory and read back.
use networking_p.Prelude.{
  ℕ, ◌+◌, ◌*◌, ◌/◌, ◌%◌, ◌^◌, ◌<◌, ◌≡◌, List, ◌++◌, arith, zero, suc, [], ◌∷◌, drop, ap, ◌∙◌, refl,
}
use networking_p.Prelude.Words.{bit_or_low}
use networking_p.Wire.{
  bswap16, EthernetHeader, load_eth, eth_bytes, Ipv4Header, load_ipv4, ipv4_bytes, UdpHeader,
  load_udp, udp_bytes, ArpPacket, load_arp, arp_bytes, IcmpEchoHeader, load_icmp, icmp_bytes,
  IsBytes, byte,
}

-- `bswap16` exchanges the two bytes of a word.
pub bswap16_bytes : (x : ℕ) → x < 2 ^ 16 → bswap16 x ≡ x % 256 * 256 + x / 256
unfolding bswap16
bswap16_bytes x h = omega (arith, bit_or_low 8 x (x / 256) (omega arith))

pub bswap16-lt : (x : ℕ) → bswap16 x < 2 ^ 16
unfolding bswap16
bswap16-lt x = omega arith

pub bswap16-bswap16 : (x : ℕ) → x < 2 ^ 16 → bswap16 (bswap16 x) ≡ x
bswap16-bswap16 x h = omega (arith, bswap16_bytes x h, bswap16_bytes (bswap16 x) (bswap16-lt x))

-- A field that is loaded and turned round is the big-endian number in the frame.
pub bswap16-load16 : (hi lo : ℕ) → hi < 256 → lo < 256 → bswap16 (hi + 256 * lo) ≡ hi * 256 + lo
bswap16-load16 hi lo p q = omega (arith, bswap16_bytes (hi + 256 * lo) (omega arith))

pub word_of_bytes : (x : ℕ) → x % 256 + 256 * (x / 256) ≡ x
word_of_bytes x = omega arith

-- A header that was laid out reads back as it was, at the place where the layers put it: the
-- Ethernet header first, the ARP packet or the IPv4 header behind it, and so on.
pub load_eth-eth_bytes : (e : EthernetHeader) (rest : List ℕ) → load_eth (eth_bytes e ++ rest) 0 ≡ e
unfolding load_eth eth_bytes
load_eth-eth_bytes e rest = ground arith

pub load_arp-arp_bytes :
    (e : EthernetHeader) (p : ArpPacket) (rest : List ℕ)
    → load_arp (eth_bytes e ++ (arp_bytes p ++ rest)) 14 ≡ p
unfolding load_arp arp_bytes eth_bytes
load_arp-arp_bytes e p rest = ground arith

pub load_ipv4-ipv4_bytes :
    (e : EthernetHeader) (h : Ipv4Header) (rest : List ℕ)
    → load_ipv4 (eth_bytes e ++ (ipv4_bytes h ++ rest)) 14 ≡ h
unfolding load_ipv4 ipv4_bytes eth_bytes
load_ipv4-ipv4_bytes e h rest = ground arith

pub load_udp-udp_bytes : (u : UdpHeader) (rest : List ℕ) → load_udp (udp_bytes u ++ rest) 0 ≡ u
unfolding load_udp udp_bytes
load_udp-udp_bytes u rest = ground arith

pub load_icmp-icmp_bytes :
    (e : EthernetHeader) (h : Ipv4Header) (i : IcmpEchoHeader) (rest : List ℕ)
    → load_icmp (eth_bytes e ++ (ipv4_bytes h ++ (icmp_bytes i ++ rest))) 34 ≡ i
unfolding load_icmp icmp_bytes ipv4_bytes eth_bytes
load_icmp-icmp_bytes e h i rest = ground arith

-- A byte of the memory, or the zero that is read behind its end.
pub byte-lt : (mem : List ℕ) (i : ℕ) → IsBytes mem → byte mem i < 256
byte-lt [] i h = omega arith
byte-lt (x ∷ mem) zero h = h.0
byte-lt (x ∷ mem) (suc i) h = byte-lt mem i h.1

pub byte-drop : (n : ℕ) (mem : List ℕ) (i : ℕ) → byte mem (n + i) ≡ byte (drop n mem) i
byte-drop zero mem i = let same : 0 + i ≡ i = omega arith in rw same refl
byte-drop (suc n) [] i = refl
byte-drop (suc n) (x ∷ mem) i =
    let same : suc n + i ≡ suc (n + i) = omega arith in rw same (byte-drop n mem i)

-- The ICMP header at an offset, in the memory from there on.
pub load_icmp-drop : (n : ℕ) (mem : List ℕ) → load_icmp mem n ≡ load_icmp (drop n mem) 0
unfolding load_icmp
load_icmp-drop n mem =
    let first : byte mem n ≡ byte (drop n mem) 0 =
      ap (byte mem) (omega arith) ∙ byte-drop n mem 0 in
    let third : byte mem (n + 2 + 1) ≡ byte (drop n mem) 3 =
      ap (byte mem) (omega arith) ∙ byte-drop n mem 3 in
    let fifth : byte mem (n + 4 + 1) ≡ byte (drop n mem) 5 =
      ap (byte mem) (omega arith) ∙ byte-drop n mem 5 in
    let seventh : byte mem (n + 6 + 1) ≡ byte (drop n mem) 7 =
      ap (byte mem) (omega arith) ∙ byte-drop n mem 7 in
    rw
      (
        first,
        byte-drop n mem 1,
        byte-drop n mem 2,
        third,
        byte-drop n mem 4,
        fifth,
        byte-drop n mem 6,
        seventh,
      )
      refl

pub load_icmp-first : (i : IcmpEchoHeader) (rest : List ℕ) → load_icmp (icmp_bytes i ++ rest) 0 ≡ i
unfolding load_icmp icmp_bytes
load_icmp-first i rest = ground arith
