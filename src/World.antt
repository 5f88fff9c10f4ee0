-- ===== src/World.antt =====
-- The globals of the networking stack together: `g_stats`, the ARP cache, the UDP handler table,
-- the chat state, `g_net`, `g_hw`, and the identity `g_my_mac`, `g_my_ip` of kernel/net_proto.cc.
-- No global is reached through two names, so a call is a function of this record.
use networking_p.Prelude.{ℕ, List}
use networking_p.Address.{Ip, Mac}
use networking_p.NetStats.{NetStats, NetStatCounter, net_stats_increment}
use networking_p.ArpCache.{ArpCache}
use networking_p.Udp.Table.{UdpHandlerEntry}
use networking_p.Chat.Store.{ChatState}
use networking_p.VirtioNet.State.{NetState, VirtioHwState}

pub record World : Type 0 where
  pub stats : NetStats
  pub arp : ArpCache
  pub udp : List UdpHandlerEntry
  pub chat : ChatState
  pub net : NetState
  pub hw : VirtioHwState
  pub my_mac : Mac
  pub my_ip : Ip

-- `net_stats_increment(counter)`.
abbrev pub count : World → NetStatCounter → World
count w c = record w { stats = net_stats_increment w.stats c }

-- The code that a function pointer of type `UdpHandler` runs: source address, source port,
-- payload and its length.
abbrev pub Invoke : Type 0
Invoke = ℕ → Ip → ℕ → List ℕ → ℕ → World → World
