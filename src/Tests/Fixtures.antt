-- ===== src/Tests/Fixtures.antt =====
-- Two machines with the fake backend, as the two-machine demo names them.
use networking_p.Prelude.{true, false, List, ◌∷◌, replicate}
use networking_p.Address.{Ip, Mac}
use networking_p.NetStats.{no_stats}
use networking_p.ArpCache.{ArpCache, empty_entry, capacity}
use networking_p.Udp.Table.{UdpHandlerEntry, zero_handler}
use networking_p.Chat.Store.{ChatState, zero_message, history_size}
use networking_p.VirtioNet.State.{
  fake, NetState, VirtioHwState, VirtioQueue, FrameSlot, zero_desc, zero_avail, zero_used,
  zero_buffer, queue_size,
}
use networking_p.World.{World}

abbrev pub sender_ip : Ip
sender_ip = record { a = 10; b = 0; c = 2; d = 21 }

abbrev pub responder_ip : Ip
responder_ip = record { a = 10; b = 0; c = 2; d = 15 }

abbrev pub sender_mac : Mac
sender_mac = record { m0 = 0x52; m1 = 0x54; m2 = 0; m3 = 0x12; m4 = 0x34; m5 = 0x57 }

abbrev pub responder_mac : Mac
responder_mac = record { m0 = 0x52; m1 = 0x54; m2 = 0; m3 = 0x12; m4 = 0x34; m5 = 0x56 }

abbrev pub no_arp : ArpCache
no_arp = record { entries = replicate capacity empty_entry; clock = 0 }

-- One handler, at address 7, for the chat port.
abbrev pub handlers : List UdpHandlerEntry
handlers = record { valid = true; port = 4390; handler = 7 } ∷ replicate 7 zero_handler

abbrev pub no_chat : ChatState
no_chat = record {
  history = replicate history_size zero_message;
  inbox = replicate history_size zero_message;
  history_next = 0;
  history_count = 0;
  inbox_read = 0;
  inbox_write = 0;
  inbox_count = 0;
}

abbrev pub no_queue : VirtioQueue
no_queue = record {
  desc = replicate queue_size zero_desc;
  avail = zero_avail;
  used = zero_used;
  has_notify = false;
  rung = 0;
  used_consume = 0;
  pending = 0;
}

abbrev pub no_device : VirtioHwState
no_device = record {
  ready = false;
  rx = no_queue;
  tx = no_queue;
  rx_buffers = replicate queue_size zero_buffer;
  tx_buffers = replicate queue_size zero_buffer;
}

-- Slots of 16 bytes are enough for the runs.
abbrev pub small_slot : FrameSlot
small_slot = record { bytes = replicate 16 0; len = 0; occupied = false }

abbrev pub fake_net : NetState
fake_net = record {
  backend = fake;
  tx_desc = replicate queue_size zero_desc;
  rx_desc = replicate queue_size zero_desc;
  tx_avail = zero_avail;
  rx_avail = zero_avail;
  tx_used = zero_used;
  rx_used = zero_used;
  tx_slots = replicate queue_size small_slot;
  rx_slots = replicate queue_size small_slot;
  tx_next_probe = 0;
  tx_used_consume = 0;
  tx_pending = 0;
  rx_next_probe = 0;
  rx_used_consume = 0;
  rx_ready = 0;
  last_fake_tx = replicate 64 0;
  last_fake_tx_len = 0;
  last_fake_tx_valid = false;
}

abbrev pub responder : World
responder = record {
  stats = no_stats;
  arp = no_arp;
  udp = handlers;
  chat = no_chat;
  net = fake_net;
  hw = no_device;
  my_mac = responder_mac;
  my_ip = responder_ip;
}

abbrev pub sender : World
sender = record responder { my_mac = sender_mac; my_ip = sender_ip }
