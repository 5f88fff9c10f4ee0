-- ===== src/Tests/Arp.antt =====
-- Runs of kernel/arp_cache.cc.
use networking_p.Prelude.{
  ℕ, zero, suc, ◌<◌, ◌≡◌, refl, ◌≢◌, true, false, if◌then◌else◌, none, some, arith,
}
use networking_p.Address.{Ip, ip_equals}
use networking_p.ArpCache.{
  ArpCache, capacity, at, hit, evicted, find_entry, find_from, choose_insert_slot, first_empty,
  oldest_from, insert_slot, insert_entry, lookup_entry, arp_cache_insert, arp_cache_lookup,
  arp_cache_reset,
}
use networking_p.ArpCache.Valid.{
  IsValid, insert_entry-IsValid, arp_cache-IsValid, arp_cache_reset-IsValid,
}
use networking_p.ArpCache.Mapping.{resolve, throws_out, resolve-insert_entry, evicted_oldest}
use networking_p.Tests.Fixtures.{no_arp, sender_mac, responder_mac}

-- A peer of the local network.
abbrev peer : ℕ → Ip
peer n = record { a = 10; b = 0; c = 2; d = n }

-- The peers 1 to `n`, learned in this order.
abbrev learned : ℕ → ArpCache
learned zero = no_arp
learned (suc n) = insert_entry (learned n) (peer (suc n)) sender_mac

no_arp-IsValid : IsValid no_arp
unfolding arp_cache_reset
no_arp-IsValid = arp_cache_reset-IsValid no_arp

learned-IsValid_two : IsValid (learned 2)
unfolding insert_entry
learned-IsValid_two =
    insert_entry-IsValid (peer 2) sender_mac
      (insert_entry-IsValid (peer 1) sender_mac no_arp-IsValid (omega arith)) (omega arith)

learned-IsValid_full : IsValid (learned 8)
unfolding insert_entry
learned-IsValid_full =
    insert_entry-IsValid (peer 8) sender_mac
      (insert_entry-IsValid (peer 7) sender_mac
        (insert_entry-IsValid (peer 6) sender_mac
          (insert_entry-IsValid (peer 5) sender_mac
            (insert_entry-IsValid (peer 4) sender_mac
              (insert_entry-IsValid (peer 3) sender_mac learned-IsValid_two (omega arith))
              (omega arith))
            (omega arith))
          (omega arith))
        (omega arith))
      (omega arith)

two_resolve : resolve (learned 2) (peer 1) ≡ some sender_mac
unfolding insert_entry lookup_entry find_entry find_from ip_equals insert_slot choose_insert_slot
    first_empty oldest_from
two_resolve = refl

arp_cache-IsValid_example :
    IsValid (arp_cache_insert (learned 2) (some (peer 1)) none)
    × IsValid (arp_cache_lookup (learned 2) (some (peer 1)) true).1
    × IsValid (arp_cache_reset (learned 2))
unfolding insert_entry
arp_cache-IsValid_example =
    arp_cache-IsValid (learned 2) (some (peer 1)) none true learned-IsValid_two (omega arith)

resolve-insert_entry_example :
    resolve (insert_entry (learned 8) (peer 9) responder_mac) (peer 2) ≡ (
      if ip_equals (peer 9) (peer 2)
      then some responder_mac
      else if throws_out (learned 8).entries (peer 9) (peer 2)
      then none
      else resolve (learned 8) (peer 2))
unfolding insert_entry
resolve-insert_entry_example =
    resolve-insert_entry (peer 9) responder_mac (peer 2) learned-IsValid_full (omega arith)

full_evicts : evicted (learned 8).entries (peer 9) ≡ some (peer 1)
unfolding insert_entry evicted find_entry find_from ip_equals insert_slot choose_insert_slot
    first_empty oldest_from
full_evicts = refl

evicted_oldest_example :
    ((j : ℕ) → hit (at (learned 8).entries j) (peer 9) ≡ false)
    × ((j : ℕ) → j < capacity → (at (learned 8).entries j).valid ≡ true)
    × ((k : ℕ) × (k < capacity)
        × ((at (learned 8).entries k).ip ≡ peer 1)
        × ((j : ℕ)
            → j < capacity
            → j ≢ k
            → (at (learned 8).entries k).last_seen < (at (learned 8).entries j).last_seen))
evicted_oldest_example = evicted_oldest (peer 9) (peer 1) learned-IsValid_full full_evicts
