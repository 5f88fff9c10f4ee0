-- ===== src/Udp.antt =====
-- kernel/udp.cc and kernel/udp.h: datagrams and the table of port handlers.
pub mod Table
pub mod Dispatch
pub mod Send
pub mod Ports
