-- ===== src/ArpCache.antt =====
-- kernel/arp_cache.cc and kernel/arp_cache.h: the fixed-size map from IPv4 to MAC addresses.
-- The array is a list of `capacity` entries, an index of -1 is `none`, a null pointer is `none`.
-- Each function holds the lock throughout, so a call is one step on the state.
pub mod Scan
pub mod Valid
pub mod Mapping
use networking_p.Prelude.{
  ℕ, ◌+◌, ◌≡◌, Bool, true, false, not, ◌&&◌, ltb, leb, if◌then◌else◌, Option, none, some, List, [],
  ◌∷◌, get_or, set, drop, replicate, arith,
}
use networking_p.Prelude.Words.{u64}
use networking_p.Address.{Ip, Mac, ip_equals, zero_ip, zero_mac}

abbrev pub capacity : ℕ
capacity = 8

pub record ArpEntry : Type 0 where
  pub valid : Bool
  pub ip : Ip
  pub mac : Mac
  pub last_seen : ℕ

-- `g_arp_cache` and `g_arp_cache_clock`.
pub record ArpCache : Type 0 where
  pub entries : List ArpEntry
  pub clock : ℕ

abbrev pub empty_entry : ArpEntry
empty_entry = record { valid = false; ip = zero_ip; mac = zero_mac; last_seen = 0 }

abbrev pub at : List ArpEntry → ℕ → ArpEntry
at es i = get_or es i empty_entry

-- The test of the loop of `find_entry_locked`.
abbrev pub hit : ArpEntry → Ip → Bool
hit e ip = e.valid && ip_equals e.ip ip

-- The loop of `find_entry_locked` from index `i` on.
unfoldable pub find_from : ℕ → List ArpEntry → Ip → Option ℕ
find_from i [] ip = none
find_from i (e ∷ es) ip = if hit e ip then some i else find_from (i + 1) es ip

unfoldable pub find_entry : List ArpEntry → Ip → Option ℕ
find_entry es ip = find_from 0 es ip

-- The first loop of `choose_insert_slot_locked`.
unfoldable pub first_empty : ℕ → List ArpEntry → Option ℕ
first_empty i [] = none
first_empty i (e ∷ es) = if not e.valid then some i else first_empty (i + 1) es

-- Its second loop, over the indices from `i` on; `oldest` is the best so far.
unfoldable pub oldest_from : List ArpEntry → ℕ → ℕ → List ArpEntry → ℕ
oldest_from all oldest i [] = oldest
oldest_from all oldest i (e ∷ es) =
    oldest_from all (if ltb e.last_seen (at all oldest).last_seen then i else oldest) (i + 1) es

unfoldable pub choose_insert_slot : List ArpEntry → ℕ
choose_insert_slot es = elim (first_empty 0 es) [
  | some i ↦ i
  | none ↦ oldest_from es 0 1 (drop 1 es)
]

unfoldable pub arp_cache_reset : ArpCache → ArpCache
arp_cache_reset c = record { entries = replicate capacity empty_entry; clock = 0 }

-- `slot` of `arp_cache_insert`.
unfoldable pub insert_slot : List ArpEntry → Ip → ℕ
insert_slot es ip = elim (find_entry es ip) [ some k ↦ k | none ↦ choose_insert_slot es ]

-- `replacing` and `evicted_ip`: the address that an insertion throws out.
unfoldable pub evicted : List ArpEntry → Ip → Option Ip
evicted es ip = elim (find_entry es ip) [
  | some k ↦ none
  | none ↦ let e = at es (choose_insert_slot es) in if e.valid then some e.ip else none
]

unfoldable pub insert_entry : ArpCache → Ip → Mac → ArpCache
insert_entry c ip mac =
    let now = u64 (c.clock + 1) in
    record {
      entries =
          set c.entries (insert_slot c.entries ip)
            (record { valid = true; ip = ip; mac = mac; last_seen = now });
      clock = now;
    }

unfoldable pub arp_cache_insert : ArpCache → Option Ip → Option Mac → ArpCache
arp_cache_insert c none mac = c
arp_cache_insert c (some ip) none = c
arp_cache_insert c (some ip) (some mac) = insert_entry c ip mac

-- `none` is the result false; `some mac` is true with `mac` written to `mac_out`.
unfoldable pub lookup_entry : ArpCache → Ip → Option Mac × ArpCache
lookup_entry c ip = elim (find_entry c.entries ip) [
  | none ↦ (none, c)
  | some k ↦
      let now = u64 (c.clock + 1) in
      let e = at c.entries k in
      (some e.mac, record { entries = set c.entries k (record e { last_seen = now }); clock = now })
]

-- `has_out` says that `mac_out` is not null.
unfoldable pub arp_cache_lookup : ArpCache → Option Ip → Bool → Option Mac × ArpCache
arp_cache_lookup c none has_out = (none, c)
arp_cache_lookup c (some ip) has_out = if has_out then lookup_entry c ip else (none, c)

-- `has_out` says that `out` is not null; `none` is the result false.
unfoldable pub arp_cache_snapshot : ArpCache → ℕ → Bool → Option ArpEntry
arp_cache_snapshot c index has_out =
    if not has_out then none else if leb capacity index then none else some (at c.entries index)
