-- ===== src/ArpCache/Valid.antt =====
-- The invariant of the table of kernel/arp_cache.cc, and that each function keeps it.
use networking_p.Prelude.{
  ℕ, zero, suc, ◌+◌, ◌%◌, ◌^◌, ◌≤◌, ◌<◌, ◌≡◌, refl, sym, ap, ◌∙◌, ◌≢◌, ◌⊎◌, inl, inr, Bool, true,
  false, Bool-cases, Option, none, some, List, length, set, length-set, replicate, get_or-set_self,
  get_or-set_ne, arith,
}
use native.Mathlib.Decide.{ℕ_discrete}
use networking_p.Address.{Ip, Mac, eq_of_ip_equals, ip_equals_refl}
use networking_p.ArpCache.{
  ArpEntry, ArpCache, capacity, at, hit, empty_entry, find_entry, insert_slot, insert_entry,
  lookup_entry, arp_cache_insert, arp_cache_lookup, arp_cache_reset,
}
use networking_p.ArpCache.Scan.{find_from-Found, choose_insert_slot-Chosen}

-- The array has its declared size, no address stands in two valid entries, and the time stamps
-- of the valid entries are distinct and not ahead of the clock.
pub record IsValid (c : ArpCache) : Type 0 where
  pub size : length c.entries ≡ capacity
  pub one_each :
      (i j : ℕ)
      → (at c.entries i).valid ≡ true
      → (at c.entries j).valid ≡ true
      → (at c.entries i).ip ≡ (at c.entries j).ip
      → i ≡ j
  pub past : (i : ℕ) → (at c.entries i).valid ≡ true → (at c.entries i).last_seen ≤ c.clock
  pub one_time :
      (i j : ℕ)
      → (at c.entries i).valid ≡ true
      → (at c.entries j).valid ≡ true
      → (at c.entries i).last_seen ≡ (at c.entries j).last_seen
      → i ≡ j

pub hit-valid : (e : ArpEntry) (ip : Ip) → hit e ip ≡ true → (e.valid ≡ true) × (e.ip ≡ ip)
hit-valid e ip h = (ground arith, eq_of_ip_equals e.ip ip (ground arith))

pub hit_of_eq : (e : ArpEntry) (ip : Ip) → e.valid ≡ true → e.ip ≡ ip → hit e ip ≡ true
hit_of_eq e ip v p = rw (v, p) (ip_equals_refl ip)

-- What `find_entry_locked` returns: nothing, if no entry holds the address, or such an entry.
pub find_entry-Found :
    (es : List ArpEntry) (ip : Ip)
    → ((find_entry es ip ≡ none) × ((j : ℕ) → hit (at es j) ip ≡ false))
      ⊎ ((k : ℕ) × (find_entry es ip ≡ some k) × (hit (at es k) ip ≡ true) × (k < length es))
unfolding find_entry
find_entry-Found es ip = elim (find_from-Found 0 es ip) [
  | inl (r, all) ↦ inl (r, all)
  | inr (k, r, h, lt) ↦ inr (k, ground arith, h, lt)
]

-- In a valid table the other entries do not hold an address that one holds.
pub hit_unique :
    {c : ArpCache} (ip : Ip) (k j : ℕ)
    → IsValid c
    → hit (at c.entries k) ip ≡ true
    → j ≢ k
    → hit (at c.entries j) ip ≡ false
hit_unique {c} ip k j v h ne = elim (Bool-cases (hit (at c.entries j) ip)) [
  | inr f ↦ f
  | inl t ↦
      let (vj, pj) = hit-valid (at c.entries j) ip t in
      let (vk, pk) = hit-valid (at c.entries k) ip h in
      absurd (ne (v.one_each j k vj vk (pj ∙ sym pk)))
]

-- The slot that an insertion writes: in range, and the only one that may hold the address.
pub insert_slot_lem :
    {c : ArpCache} (ip : Ip)
    → IsValid c
    → (insert_slot c.entries ip < length c.entries)
      × ((j : ℕ) → j ≢ insert_slot c.entries ip → hit (at c.entries j) ip ≡ false)
unfolding insert_slot
insert_slot_lem {c} ip v = elim (find_entry-Found c.entries ip) [
  | inl (r, all) ↦
      rw (r, insert_slot)
        ((choose_insert_slot-Chosen c.entries (omega (arith, v.size))).in_range, λ j ne. all j)
  | inr (k, r, h, lt) ↦ rw (r, insert_slot) (lt, λ j ne. hit_unique ip k j v h ne)
]

-- The table after a write of a live entry that is stamped with the next time.
abbrev pub stamped : ArpCache → ℕ → ArpEntry → ArpCache
stamped c k e = record { entries = set c.entries k e; clock = (c.clock + 1) % 2 ^ 64 }

pub at-set :
    (es : List ArpEntry) (k j : ℕ) (e : ArpEntry)
    → k < length es
    → (at (set es k e) k ≡ e) × (j ≢ k → at (set es k e) j ≡ at es j)
at-set es k j e lt = (
  get_or-set_self es k e empty_entry lt,
  λ ne. get_or-set_ne es k j e empty_entry (λ q. ne (sym q)),
)

module _ {c : ArpCache} (k : ℕ) (e : ArpEntry) (v : IsValid c) (lt : k < length c.entries)
    (tick : c.clock + 1 < 2 ^ 64) (live : e.valid ≡ true)
    (now : e.last_seen ≡ (c.clock + 1) % 2 ^ 64)
    (alone : (j : ℕ) → j ≢ k → hit (at c.entries j) e.ip ≡ false) where
  abbrev after : ℕ → ArpEntry
  after j = at (stamped c k e).entries j

  after_self : after k ≡ e
  after_self = (at-set c.entries k k e lt).0

  after_ne : (j : ℕ) → j ≢ k → after j ≡ at c.entries j
  after_ne j ne = (at-set c.entries k j e lt).1 ne

  other_ip : (j : ℕ) → j ≢ k → (at c.entries j).valid ≡ true → (at c.entries j).ip ≢ e.ip
  other_ip j ne vj p = cc (alone j ne, hit_of_eq (at c.entries j) e.ip vj p)

  after_cases : (j : ℕ) → ((j ≡ k) × (after j ≡ e)) ⊎ ((j ≢ k) × (after j ≡ at c.entries j))
  after_cases j = elim (ℕ_discrete j k) [
    | yes q ↦ inl (q, ap after q ∙ after_self)
    | no ne ↦ inr (ne, after_ne j ne)
  ]

  past_ne : (j : ℕ) → (at c.entries j).valid ≡ true → (at c.entries j).last_seen ≢ e.last_seen
  past_ne j vj p = absurd (omega (arith, v.past j vj))

  stamped-one_each :
      (i j : ℕ)
      → (after i).valid ≡ true
      → (after j).valid ≡ true
      → (after i).ip ≡ (after j).ip
      → i ≡ j
  stamped-one_each i j vi vj p = elim (after_cases i) [
    | inl (qi, ei) ↦ elim (after_cases j) [
      | inl (qj, _) ↦ qi ∙ sym qj
      | inr (ne, ej) ↦ absurd (other_ip j ne (rw ej at vj) (sym (rw (ei, ej) at p)))
    ]
    | inr (ni, ei) ↦ elim (after_cases j) [
      | inl (_, ej) ↦ absurd (other_ip i ni (rw ei at vi) (rw (ei, ej) at p))
      | inr (ne, ej) ↦ v.one_each i j (rw ei at vi) (rw ej at vj) (rw (ei, ej) at p)
    ]
  ]

  stamped-one_time :
      (i j : ℕ)
      → (after i).valid ≡ true
      → (after j).valid ≡ true
      → (after i).last_seen ≡ (after j).last_seen
      → i ≡ j
  stamped-one_time i j vi vj p = elim (after_cases i) [
    | inl (qi, ei) ↦ elim (after_cases j) [
      | inl (qj, _) ↦ qi ∙ sym qj
      | inr (ne, ej) ↦ absurd (past_ne j (rw ej at vj) (sym (rw (ei, ej) at p)))
    ]
    | inr (ni, ei) ↦ elim (after_cases j) [
      | inl (_, ej) ↦ absurd (past_ne i (rw ei at vi) (rw (ei, ej) at p))
      | inr (ne, ej) ↦ v.one_time i j (rw ei at vi) (rw ej at vj) (rw (ei, ej) at p)
    ]
  ]

  stamped-past : (i : ℕ) → (after i).valid ≡ true → (after i).last_seen ≤ (c.clock + 1) % 2 ^ 64
  stamped-past i vi = elim (after_cases i) [
    | inl (_, ei) ↦ rw ei (omega arith)
    | inr (_, ei) ↦ rw ei (omega (arith, v.past i (rw ei at vi)))
  ]

  pub stamped-IsValid : IsValid (stamped c k e)
  stamped-IsValid = record {
    size = length-set c.entries k e ∙ v.size;
    one_each = stamped-one_each;
    past = stamped-past;
    one_time = stamped-one_time;
  }

-- `arp_cache_insert` keeps the invariant, until the clock comes to 2 ^ 64.
pub insert_entry-IsValid :
    {c : ArpCache} (ip : Ip) (mac : Mac)
    → IsValid c
    → c.clock + 1 < 2 ^ 64
    → IsValid (insert_entry c ip mac)
unfolding insert_entry
insert_entry-IsValid {c} ip mac v tick =
    let (lt, alone) = insert_slot_lem ip v in
    stamped-IsValid (insert_slot c.entries ip) _ v lt tick refl refl alone

pub lookup_entry-IsValid :
    {c : ArpCache} (ip : Ip) → IsValid c → c.clock + 1 < 2 ^ 64 → IsValid (lookup_entry c ip).1
unfolding lookup_entry
lookup_entry-IsValid {c} ip v tick = elim (find_entry-Found c.entries ip) [
  | inl (r, all) ↦ rw (r, lookup_entry) v
  | inr (k, r, h, lt) ↦
      let (vk, pk) = hit-valid (at c.entries k) ip h in
      rw (r, lookup_entry)
        (stamped-IsValid k _ v lt tick vk refl (λ j ne. rw pk (hit_unique ip k j v h ne)))
]

reset_empty : (n j : ℕ) → (at (replicate n empty_entry) j).valid ≡ false
reset_empty zero j = refl
reset_empty (suc n) zero = refl
reset_empty (suc n) (suc j) = reset_empty n j

pub arp_cache_reset-IsValid : (c : ArpCache) → IsValid (arp_cache_reset c)
unfolding arp_cache_reset
arp_cache_reset-IsValid c = record {
  size = refl;
  one_each = λ i j vi. cc (vi, reset_empty 8 i);
  past = λ i vi. cc (vi, reset_empty 8 i);
  one_time = λ i j vi. cc (vi, reset_empty 8 i);
}

-- Insert, lookup and reset keep a valid table valid, whatever pointers are null, as
-- long as the clock is below 2^64 - 1.
pub arp_cache-IsValid :
    (c : ArpCache) (ip : Option Ip) (mac : Option Mac) (has_out : Bool)
    → IsValid c
    → c.clock + 1 < 2 ^ 64
    → IsValid (arp_cache_insert c ip mac)
      × IsValid (arp_cache_lookup c ip has_out).1
      × IsValid (arp_cache_reset c)
unfolding arp_cache_insert arp_cache_lookup
arp_cache-IsValid c ip mac has_out v tick =
    (insert ip mac, lookup ip has_out, arp_cache_reset-IsValid c)
  where
    insert : (ip : Option Ip) (mac : Option Mac) → IsValid (arp_cache_insert c ip mac)
    insert none mac = v
    insert (some ip) none = v
    insert (some ip) (some mac) = insert_entry-IsValid ip mac v tick

    lookup : (ip : Option Ip) (has_out : Bool) → IsValid (arp_cache_lookup c ip has_out).1
    lookup none has_out = v
    lookup (some ip) true = lookup_entry-IsValid ip v tick
    lookup (some ip) false = v
