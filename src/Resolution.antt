-- ===== src/Resolution.antt =====
-- The exchange by which one machine learns another's address, through kernel/net_proto.cc,
-- kernel/arp_cache.cc and the fake backend of kernel/virtio_net.cc.
pub mod Frames
pub mod Exchange
