-- ===== src/NetProto.antt =====
-- kernel/net_proto.cc and kernel/net_proto.h: Ethernet, ARP, IPv4 and ICMP.
pub mod Checksum
pub mod Send
pub mod Handle
pub mod Checked
pub mod Path
pub mod Bounded
pub mod Sizes
