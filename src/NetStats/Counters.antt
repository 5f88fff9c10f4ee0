-- ===== src/NetStats/Counters.antt =====
-- What `net_stats_increment` does to each of the counters of kernel/net_stats.cc.
use networking_p.Prelude.{ℕ, ◌+◌, ◌≡◌, refl, ◌≢◌, List, [], ◌∷◌, arith}
use mathlib.Core.Logic.{ite}
use networking_p.Prelude.Words.{u64}
use networking_p.NetStats.{NetStats, NetStatCounter, counter_ref, set_counter, net_stats_increment}

pub counter-discrete : Discrete NetStatCounter
counter-discrete = hlevel

counter_ref-set_self :
    (s : NetStats) (c : NetStatCounter) (v : ℕ) → counter_ref (set_counter s c v) c ≡ v
unfolding counter_ref set_counter
counter_ref-set_self s NetStatCounter.raw_rx v = refl
counter_ref-set_self s NetStatCounter.raw_tx v = refl
counter_ref-set_self s NetStatCounter.arp_rx v = refl
counter_ref-set_self s NetStatCounter.arp_tx v = refl
counter_ref-set_self s NetStatCounter.ipv4_rx v = refl
counter_ref-set_self s NetStatCounter.ipv4_tx v = refl
counter_ref-set_self s NetStatCounter.icmp_rx v = refl
counter_ref-set_self s NetStatCounter.icmp_tx v = refl
counter_ref-set_self s NetStatCounter.udp_rx v = refl
counter_ref-set_self s NetStatCounter.udp_tx v = refl
counter_ref-set_self s NetStatCounter.dropped_short v = refl
counter_ref-set_self s NetStatCounter.dropped_bad_checksum v = refl
counter_ref-set_self s NetStatCounter.dropped_not_for_me v = refl
counter_ref-set_self s NetStatCounter.dropped_unknown_ethertype v = refl
counter_ref-set_self s NetStatCounter.dropped_unknown_ipv4_protocol v = refl

counter_ref-set_ne :
    (s : NetStats) (c d : NetStatCounter) (v : ℕ)
    → d ≢ c
    → counter_ref (set_counter s c v) d ≡ counter_ref s d
unfolding counter_ref set_counter
counter_ref-set_ne s NetStatCounter.raw_rx d v ne = ground arith
counter_ref-set_ne s NetStatCounter.raw_tx d v ne = ground arith
counter_ref-set_ne s NetStatCounter.arp_rx d v ne = ground arith
counter_ref-set_ne s NetStatCounter.arp_tx d v ne = ground arith
counter_ref-set_ne s NetStatCounter.ipv4_rx d v ne = ground arith
counter_ref-set_ne s NetStatCounter.ipv4_tx d v ne = ground arith
counter_ref-set_ne s NetStatCounter.icmp_rx d v ne = ground arith
counter_ref-set_ne s NetStatCounter.icmp_tx d v ne = ground arith
counter_ref-set_ne s NetStatCounter.udp_rx d v ne = ground arith
counter_ref-set_ne s NetStatCounter.udp_tx d v ne = ground arith
counter_ref-set_ne s NetStatCounter.dropped_short d v ne = ground arith
counter_ref-set_ne s NetStatCounter.dropped_bad_checksum d v ne = ground arith
counter_ref-set_ne s NetStatCounter.dropped_not_for_me d v ne = ground arith
counter_ref-set_ne s NetStatCounter.dropped_unknown_ethertype d v ne = ground arith
counter_ref-set_ne s NetStatCounter.dropped_unknown_ipv4_protocol d v ne = ground arith

-- One event adds one, modulo 2 ^ 64, to its own counter and leaves the other fourteen alone.
pub counter_ref-increment :
    (s : NetStats) (c d : NetStatCounter)
    → counter_ref (net_stats_increment s c) d
      ≡ ite (counter-discrete d c) (u64 (counter_ref s d + 1)) (counter_ref s d)
unfolding net_stats_increment
counter_ref-increment s c d = ground (
  arith,
  counter_ref-set_self s c (u64 (counter_ref s c + 1)),
  counter_ref-set_ne s c d (u64 (counter_ref s c + 1)),
)

-- A run of events in order.
pub count_events : NetStats → List NetStatCounter → NetStats
count_events s [] = s
count_events s (c ∷ cs) = count_events (net_stats_increment s c) cs

-- How often `d` stands in the run.
pub occurrences : NetStatCounter → List NetStatCounter → ℕ
occurrences d [] = 0
occurrences d (c ∷ cs) = ite (counter-discrete d c) 1 0 + occurrences d cs
