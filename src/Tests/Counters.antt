-- ===== src/Tests/Counters.antt =====
-- Runs of kernel/net_stats.cc.
use networking_p.Prelude.{List, [], ◌∷◌}
use networking_p.NetStats.{NetStatCounter}

abbrev events : List NetStatCounter
events = NetStatCounter.raw_rx ∷ NetStatCounter.arp_rx ∷ NetStatCounter.raw_rx ∷ []
