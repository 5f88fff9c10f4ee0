-- ===== src/VirtioNet.antt =====
-- kernel/virtio_net.cc and kernel/virtio_net.h: the raw Ethernet interface of the kernel.
pub mod State
pub mod Fake
pub mod Device
pub mod Api
pub mod Slots
pub mod Fifo
pub mod Transmit
pub mod Sending
