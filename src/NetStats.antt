-- ===== src/NetStats.antt =====
-- kernel/net_stats.cc and kernel/net_stats.h: the packet and drop counters.
-- The lock is held for the whole of each function, so a call is one step on the state.
-- `net_stats_snapshot` returns the record itself; `net_stats_print` only writes to the console.
pub mod Counters
use networking_p.Prelude.{ℕ, ◌+◌, ◌%◌, ◌^◌}
use networking_p.Prelude.Words.{u64}

pub record NetStats : Type 0 where
  pub raw_rx : ℕ
  pub raw_tx : ℕ
  pub arp_rx : ℕ
  pub arp_tx : ℕ
  pub ipv4_rx : ℕ
  pub ipv4_tx : ℕ
  pub icmp_rx : ℕ
  pub icmp_tx : ℕ
  pub udp_rx : ℕ
  pub udp_tx : ℕ
  pub dropped_short : ℕ
  pub dropped_bad_checksum : ℕ
  pub dropped_not_for_me : ℕ
  pub dropped_unknown_ethertype : ℕ
  pub dropped_unknown_ipv4_protocol : ℕ

pub data NetStatCounter : Type 0 where
  raw_rx raw_tx arp_rx arp_tx ipv4_rx ipv4_tx icmp_rx icmp_tx udp_rx udp_tx : NetStatCounter
  dropped_short dropped_bad_checksum dropped_not_for_me : NetStatCounter
  dropped_unknown_ethertype dropped_unknown_ipv4_protocol : NetStatCounter

-- `NetStats{}`, the value of `g_stats` after `net_stats_reset`.
abbrev pub no_stats : NetStats
no_stats = record {
  raw_rx = 0;
  raw_tx = 0;
  arp_rx = 0;
  arp_tx = 0;
  ipv4_rx = 0;
  ipv4_tx = 0;
  icmp_rx = 0;
  icmp_tx = 0;
  udp_rx = 0;
  udp_tx = 0;
  dropped_short = 0;
  dropped_bad_checksum = 0;
  dropped_not_for_me = 0;
  dropped_unknown_ethertype = 0;
  dropped_unknown_ipv4_protocol = 0;
}

unfoldable pub net_stats_reset : NetStats → NetStats
net_stats_reset s = no_stats

-- The counter that `counter_ref` names, read.
unfoldable pub counter_ref : NetStats → NetStatCounter → ℕ
counter_ref s NetStatCounter.raw_rx = s.raw_rx
counter_ref s NetStatCounter.raw_tx = s.raw_tx
counter_ref s NetStatCounter.arp_rx = s.arp_rx
counter_ref s NetStatCounter.arp_tx = s.arp_tx
counter_ref s NetStatCounter.ipv4_rx = s.ipv4_rx
counter_ref s NetStatCounter.ipv4_tx = s.ipv4_tx
counter_ref s NetStatCounter.icmp_rx = s.icmp_rx
counter_ref s NetStatCounter.icmp_tx = s.icmp_tx
counter_ref s NetStatCounter.udp_rx = s.udp_rx
counter_ref s NetStatCounter.udp_tx = s.udp_tx
counter_ref s NetStatCounter.dropped_short = s.dropped_short
counter_ref s NetStatCounter.dropped_bad_checksum = s.dropped_bad_checksum
counter_ref s NetStatCounter.dropped_not_for_me = s.dropped_not_for_me
counter_ref s NetStatCounter.dropped_unknown_ethertype = s.dropped_unknown_ethertype
counter_ref s NetStatCounter.dropped_unknown_ipv4_protocol = s.dropped_unknown_ipv4_protocol

-- The same counter, written.
unfoldable pub set_counter : NetStats → NetStatCounter → ℕ → NetStats
set_counter s NetStatCounter.raw_rx v = record s { raw_rx = v }
set_counter s NetStatCounter.raw_tx v = record s { raw_tx = v }
set_counter s NetStatCounter.arp_rx v = record s { arp_rx = v }
set_counter s NetStatCounter.arp_tx v = record s { arp_tx = v }
set_counter s NetStatCounter.ipv4_rx v = record s { ipv4_rx = v }
set_counter s NetStatCounter.ipv4_tx v = record s { ipv4_tx = v }
set_counter s NetStatCounter.icmp_rx v = record s { icmp_rx = v }
set_counter s NetStatCounter.icmp_tx v = record s { icmp_tx = v }
set_counter s NetStatCounter.udp_rx v = record s { udp_rx = v }
set_counter s NetStatCounter.udp_tx v = record s { udp_tx = v }
set_counter s NetStatCounter.dropped_short v = record s { dropped_short = v }
set_counter s NetStatCounter.dropped_bad_checksum v = record s { dropped_bad_checksum = v }
set_counter s NetStatCounter.dropped_not_for_me v = record s { dropped_not_for_me = v }
set_counter s NetStatCounter.dropped_unknown_ethertype v = record s {
  dropped_unknown_ethertype = v;
}
set_counter s NetStatCounter.dropped_unknown_ipv4_protocol v = record s {
  dropped_unknown_ipv4_protocol = v;
}

-- `++counter_ref(g_stats, counter)` on a `uint64_t`.
unfoldable pub net_stats_increment : NetStats → NetStatCounter → NetStats
net_stats_increment s c = set_counter s c (u64 (counter_ref s c + 1))
