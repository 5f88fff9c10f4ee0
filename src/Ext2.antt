-- ===== src/Ext2.antt =====
-- kernel/ext2.cc and kernel/ext2.h: reading an ext2 file system from a block device.
pub mod Layout
pub mod Node
pub mod Entries
pub mod Mount
