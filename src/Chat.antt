-- ===== src/Chat.antt =====
-- kernel/net_chat.cc and kernel/net_chat.h: chat messages over UDP.
pub mod Store
pub mod Queues
pub mod Text
pub mod Api
