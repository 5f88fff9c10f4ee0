-- ===== src/Wire.antt =====
-- The packed headers of kernel/ethernet.h, kernel/arp.h, kernel/ipv4.h, kernel/icmp.h and
-- kernel/udp.h, and `bswap16` of kernel/net_proto.cc and kernel/udp.cc.
-- The processor is little-endian: a 16-bit field is loaded and stored low byte first, and the
-- code turns it round with `bswap16`. `load` reads a struct at an offset, `bytes` lays it out.
pub mod Fields
use networking_p.Prelude.{ℕ, ◌+◌, ◌*◌, ◌/◌, ◌%◌, ◌^◌, ◌<◌, List, [], ◌∷◌, ◌++◌, get_or, All}
use Prim.Native.Nat.{bit_or}
use networking_p.Prelude.Words.{u16, ◌<<◌, ◌>>>◌}
use networking_p.Address.{Ip, Mac, ip_bytes, mac_bytes}

abbrev pub IsBytes : List ℕ → Type 0
IsBytes xs = All (λ b. b < 256) xs

abbrev pub byte : List ℕ → ℕ → ℕ
byte mem i = get_or mem i 0

abbrev pub load16 : List ℕ → ℕ → ℕ
load16 mem i = byte mem i + 256 * byte mem (i + 1)

abbrev pub bytes16 : ℕ → List ℕ
bytes16 x = x % 256 ∷ x / 256 ∷ []

unfoldable pub bswap16 : ℕ → ℕ
bswap16 x = u16 (bit_or (x >>> 8) (x << 8))

abbrev pub load_ip : List ℕ → ℕ → Ip
load_ip mem i = record {
  a = byte mem i;
  b = byte mem (i + 1);
  c = byte mem (i + 2);
  d = byte mem (i + 3);
}

abbrev pub load_mac : List ℕ → ℕ → Mac
load_mac mem i = record {
  m0 = byte mem i;
  m1 = byte mem (i + 1);
  m2 = byte mem (i + 2);
  m3 = byte mem (i + 3);
  m4 = byte mem (i + 4);
  m5 = byte mem (i + 5);
}

pub record EthernetHeader : Type 0 where
  pub dst : Mac
  pub src : Mac
  pub ether_type : ℕ

pub record ArpPacket : Type 0 where
  pub htype : ℕ
  pub ptype : ℕ
  pub hlen : ℕ
  pub plen : ℕ
  pub oper : ℕ
  pub sha : Mac
  pub spa : Ip
  pub tha : Mac
  pub tpa : Ip

pub record Ipv4Header : Type 0 where
  pub version_ihl : ℕ
  pub tos : ℕ
  pub total_length : ℕ
  pub identification : ℕ
  pub flags_fragment : ℕ
  pub ttl : ℕ
  pub protocol : ℕ
  pub header_checksum : ℕ
  pub src_ip : Ip
  pub dst_ip : Ip

pub record IcmpEchoHeader : Type 0 where
  pub kind : ℕ
  pub code : ℕ
  pub checksum : ℕ
  pub identifier : ℕ
  pub sequence : ℕ

pub record UdpHeader : Type 0 where
  pub src_port : ℕ
  pub dst_port : ℕ
  pub length : ℕ
  pub checksum : ℕ

-- `sizeof` of the five.
abbrev pub eth_size : ℕ
eth_size = 14

abbrev pub arp_size : ℕ
arp_size = 28

abbrev pub ip_size : ℕ
ip_size = 20

abbrev pub icmp_size : ℕ
icmp_size = 8

abbrev pub udp_size : ℕ
udp_size = 8

abbrev pub eth_type_arp : ℕ
eth_type_arp = 0x0806

abbrev pub eth_type_ipv4 : ℕ
eth_type_ipv4 = 0x0800

abbrev pub proto_icmp : ℕ
proto_icmp = 1

abbrev pub proto_udp : ℕ
proto_udp = 17

unfoldable pub load_eth : List ℕ → ℕ → EthernetHeader
load_eth mem i = record {
  dst = load_mac mem i;
  src = load_mac mem (i + 6);
  ether_type = load16 mem (i + 12);
}

unfoldable pub load_arp : List ℕ → ℕ → ArpPacket
load_arp mem i = record {
  htype = load16 mem i;
  ptype = load16 mem (i + 2);
  hlen = byte mem (i + 4);
  plen = byte mem (i + 5);
  oper = load16 mem (i + 6);
  sha = load_mac mem (i + 8);
  spa = load_ip mem (i + 14);
  tha = load_mac mem (i + 18);
  tpa = load_ip mem (i + 24);
}

unfoldable pub load_ipv4 : List ℕ → ℕ → Ipv4Header
load_ipv4 mem i = record {
  version_ihl = byte mem i;
  tos = byte mem (i + 1);
  total_length = load16 mem (i + 2);
  identification = load16 mem (i + 4);
  flags_fragment = load16 mem (i + 6);
  ttl = byte mem (i + 8);
  protocol = byte mem (i + 9);
  header_checksum = load16 mem (i + 10);
  src_ip = load_ip mem (i + 12);
  dst_ip = load_ip mem (i + 16);
}

unfoldable pub load_icmp : List ℕ → ℕ → IcmpEchoHeader
load_icmp mem i = record {
  kind = byte mem i;
  code = byte mem (i + 1);
  checksum = load16 mem (i + 2);
  identifier = load16 mem (i + 4);
  sequence = load16 mem (i + 6);
}

unfoldable pub load_udp : List ℕ → ℕ → UdpHeader
load_udp mem i = record {
  src_port = load16 mem i;
  dst_port = load16 mem (i + 2);
  length = load16 mem (i + 4);
  checksum = load16 mem (i + 6);
}

unfoldable pub eth_bytes : EthernetHeader → List ℕ
eth_bytes h = mac_bytes h.dst ++ (mac_bytes h.src ++ bytes16 h.ether_type)

unfoldable pub arp_bytes : ArpPacket → List ℕ
arp_bytes p =
    bytes16 p.htype
    ++ (bytes16 p.ptype
        ++ (p.hlen ∷ p.plen ∷ bytes16 p.oper
            ++ (mac_bytes p.sha ++ (ip_bytes p.spa ++ (mac_bytes p.tha ++ ip_bytes p.tpa)))))

unfoldable pub ipv4_bytes : Ipv4Header → List ℕ
ipv4_bytes h =
    h.version_ihl ∷ h.tos ∷ bytes16 h.total_length
    ++ (bytes16 h.identification
        ++ (bytes16 h.flags_fragment
            ++ (h.ttl ∷ h.protocol ∷ bytes16 h.header_checksum
                ++ (ip_bytes h.src_ip ++ ip_bytes h.dst_ip))))

unfoldable pub icmp_bytes : IcmpEchoHeader → List ℕ
icmp_bytes h = h.kind ∷ h.code ∷ bytes16 h.checksum ++ (bytes16 h.identifier ++ bytes16 h.sequence)

unfoldable pub udp_bytes : UdpHeader → List ℕ
udp_bytes h = bytes16 h.src_port ++ (bytes16 h.dst_port ++ (bytes16 h.length ++ bytes16 h.checksum))
