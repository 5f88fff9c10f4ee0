-- ===== src/Tests.antt =====
-- Concrete runs of the stack, and the theorems at concrete inputs.
mod Blocks
mod Fixtures
mod Counters
mod Arp
mod Frames
mod Chat
mod Rings
mod Ports
mod Text
mod Disk
mod Memory
mod Refs
mod Queues
