-- ===== src/ArpCache/Mapping.antt =====
-- The table of kernel/arp_cache.cc as a map from addresses, and which address it gives up.
use networking_p.Prelude.{
  ℕ, ◌+◌, ◌%◌, ◌^◌, ◌<◌, ◌≡◌, refl, sym, ap, ◌∙◌, ◌≢◌, inl, inr, Bool, true, false, Bool-cases,
  if◌then◌else◌, Option, none, some, List, length, set, arith,
}
use native.Mathlib.Decide.{ℕ_discrete}
use networking_p.Address.{Ip, Mac, ip_equals, eq_of_ip_equals, ip_equals_refl}
use networking_p.ArpCache.{
  ArpEntry, ArpCache, capacity, at, hit, find_entry, insert_slot, evicted, insert_entry,
  lookup_entry, choose_insert_slot,
}
use networking_p.ArpCache.Scan.{choose_insert_slot-Chosen}
use networking_p.ArpCache.Valid.{
  IsValid, hit-valid, hit_unique, find_entry-Found, insert_slot_lem, insert_entry-IsValid,
  lookup_entry-IsValid, at-set,
}

-- What a lookup of the address returns.
abbrev pub resolve : ArpCache → Ip → Option Mac
resolve c q = (lookup_entry c q).0

find_entry_of_hit :
    {c : ArpCache} (q : Ip) (k : ℕ)
    → IsValid c
    → hit (at c.entries k) q ≡ true
    → find_entry c.entries q ≡ some k
find_entry_of_hit {c} q k v h = elim (find_entry-Found c.entries q) [
  | inl (r, all) ↦ cc (all k, h)
  | inr (j, r, hj, lt) ↦ elim (ℕ_discrete k j) [
    | yes e ↦ r ∙ ap some (sym e)
    | no ne ↦ cc (hit_unique q j k v hj ne, h)
  ]
]

pub resolve_of_hit :
    {c : ArpCache} (q : Ip) (k : ℕ)
    → IsValid c
    → hit (at c.entries k) q ≡ true
    → resolve c q ≡ some (at c.entries k).mac
unfolding lookup_entry
resolve_of_hit q k v h = rw (find_entry_of_hit q k v h, resolve, lookup_entry) refl

pub resolve_of_miss :
    (c : ArpCache) (q : Ip) → ((j : ℕ) → hit (at c.entries j) q ≡ false) → resolve c q ≡ none
unfolding lookup_entry
resolve_of_miss c q all = elim (find_entry-Found c.entries q) [
  | inl (r, _) ↦ rw (r, resolve, lookup_entry) refl
  | inr (j, r, hj, lt) ↦ cc (all j, hj)
]

-- Does inserting `ip` throw out `q`?
abbrev pub throws_out : List ArpEntry → Ip → Ip → Bool
throws_out es ip q = elim (evicted es ip) [ none ↦ false | some e ↦ ip_equals e q ]

-- An address is thrown out exactly if the slot to write holds it, and it is not the new one.
throws_out_slot :
    {c : ArpCache} (ip q : Ip)
    → IsValid c
    → ip_equals ip q ≡ false
    → throws_out c.entries ip q ≡ hit (at c.entries (insert_slot c.entries ip)) q
unfolding evicted insert_slot
throws_out_slot {c} ip q v ne = elim (find_entry-Found c.entries ip) [
  | inl (r, _) ↦ rw (r, throws_out, evicted, insert_slot) (ground arith)
  | inr (k, r, h, lt) ↦
      let (vk, pk) = hit-valid (at c.entries k) ip h in
      rw (r, throws_out, evicted, insert_slot, vk, pk) (sym ne)
]

module _ {c : ArpCache} (ip : Ip) (mac : Mac) (q : Ip) (v : IsValid c)
    (tick : c.clock + 1 < 2 ^ 64) where
  abbrev slot : ℕ
  slot = insert_slot c.entries ip

  abbrev later : ArpCache
  later = insert_entry c ip mac

  abbrev fresh : ArpEntry
  fresh = record { valid = true; ip = ip; mac = mac; last_seen = (c.clock + 1) % 2 ^ 64 }

  later_self : at later.entries slot ≡ fresh
  unfolding insert_entry
  later_self = (at-set c.entries slot slot fresh (insert_slot_lem ip v).0).0

  later_ne : (j : ℕ) → j ≢ slot → at later.entries j ≡ at c.entries j
  unfolding insert_entry
  later_ne j ne = (at-set c.entries slot j fresh (insert_slot_lem ip v).0).1 ne

  resolve_new : ip ≡ q → resolve later q ≡ some mac
  resolve_new e =
      let h : hit (at later.entries slot) q ≡ true = rw later_self (rw e (ip_equals_refl q)) in
      resolve_of_hit q slot (insert_entry-IsValid ip mac v tick) h
      ∙ ap (λ (x : ArpEntry). some x.mac) later_self

  miss_elsewhere :
      ip_equals ip q ≡ false
      → ((j : ℕ) → j ≢ slot → hit (at c.entries j) q ≡ false)
      → resolve later q ≡ none
  miss_elsewhere ne all = resolve_of_miss later q λ j. elim (ℕ_discrete j slot) [
    | yes e ↦ rw (e, later_self) ne
    | no other ↦ rw (later_ne j other) (all j other)
  ]

  resolve_old :
      ip_equals ip q ≡ false
      → resolve later q ≡ (if throws_out c.entries ip q then none else resolve c q)
  resolve_old ne = rw (throws_out_slot ip q v ne) (elim (find_entry-Found c.entries q) [
    | inl (_, all) ↦
        rw (all slot) (miss_elsewhere ne (λ j _. all j) ∙ sym (resolve_of_miss c q all))
    | inr (k, r, h, lt) ↦ elim (ℕ_discrete k slot) [
      | yes e ↦ rw (← e, h) (miss_elsewhere ne (λ j o. hit_unique q k j v h (rw (← e) at o)))
      | no other ↦ rw (hit_unique q k slot v h (λ e. other (sym e))) (
          resolve_of_hit q k (insert_entry-IsValid ip mac v tick) (rw (later_ne k other) h)
          ∙ ap (λ (x : ArpEntry). some x.mac) (later_ne k other)
          ∙ sym (resolve_of_hit q k v h))
    ]
  ])

-- The law of the map: after an insertion the new address resolves to its MAC, the address that
-- was thrown out does not resolve, and every other address resolves as before.
pub resolve-insert_entry :
    {c : ArpCache} (ip : Ip) (mac : Mac) (q : Ip)
    → IsValid c
    → c.clock + 1 < 2 ^ 64
    → resolve (insert_entry c ip mac) q ≡ (
        if ip_equals ip q
        then some mac
        else if throws_out c.entries ip q
        then none
        else resolve c q)
resolve-insert_entry ip mac q v tick = elim (Bool-cases (ip_equals ip q)) [
  | inl e ↦ rw e (resolve_new ip mac q v tick (eq_of_ip_equals ip q e))
  | inr ne ↦ rw ne (resolve_old ip mac q v tick ne)
]

evicted_slot :
    (es : List ArpEntry) (ip e : Ip)
    → evicted es ip ≡ some e
    → ((j : ℕ) → hit (at es j) ip ≡ false)
      × ((at es (choose_insert_slot es)).valid ≡ true)
      × ((at es (choose_insert_slot es)).ip ≡ e)
unfolding evicted
evicted_slot es ip e h = elim (find_entry-Found es ip) [
  | inr (k, r, hk, lt) ↦ cc (rw (r, evicted) at h)
  | inl (r, all) ↦
      let h' : (if (at es (choose_insert_slot es)).valid
            then some (at es (choose_insert_slot es)).ip
            else none)
          ≡ some e =
        rw (r, evicted) at h in
      (all, ground arith, ground arith)
]

-- What the table gives up: an insertion throws out an address only if it is new and all eight
-- slots are taken, and then the one whose entry was seen strictly before every other entry.
pub evicted_oldest :
    {c : ArpCache} (ip e : Ip)
    → IsValid c
    → evicted c.entries ip ≡ some e
    → ((j : ℕ) → hit (at c.entries j) ip ≡ false)
      × ((j : ℕ) → j < capacity → (at c.entries j).valid ≡ true)
      × ((k : ℕ) × (k < capacity)
          × ((at c.entries k).ip ≡ e)
          × ((j : ℕ)
              → j < capacity
              → j ≢ k
              → (at c.entries k).last_seen < (at c.entries j).last_seen))
evicted_oldest {c} ip e v h =
    let (absent, live, held) = evicted_slot c.entries ip e h in
    let chosen = choose_insert_slot-Chosen c.entries (omega (arith, v.size)) in
    let k = choose_insert_slot c.entries in
    elim chosen.why [
      | inl dead ↦ cc (dead, live)
      | inr (full, least) ↦ (
        absent,
        λ j lt. full j (omega (arith, v.size)),
        (
          k,
          omega (arith, v.size, chosen.in_range),
          held,
          λ j lt ne. omega (
            arith,
            least j (omega (arith, v.size)),
            λ (q : (at c.entries k).last_seen ≡ (at c.entries j).last_seen).
                absurd {A = ⊥} (ne (sym (v.one_time k j live (full j (omega (arith, v.size))) q))),
          ),
        ),
      )
    ]

touched_same :
    (es : List ArpEntry) (k now j : ℕ)
    → k < length es
    → let e = at (set es k (record (at es k) { last_seen = now })) j in
      (e.valid ≡ (at es j).valid) × (e.ip ≡ (at es j).ip) × (e.mac ≡ (at es j).mac)
touched_same es k now j lt =
    let (self, other) = at-set es k j (record (at es k) { last_seen = now }) lt in
    elim (ℕ_discrete j k) [
      | yes e ↦ rw (e, self) (refl, refl, refl)
      | no ne ↦ rw (other ne) (refl, refl, refl)
    ]

-- A lookup leaves all of every entry but its time stamp.
lookup_same :
    (c : ArpCache) (ip : Ip) (j : ℕ)
    → let e = at (lookup_entry c ip).1.entries j in
      (e.valid ≡ (at c.entries j).valid)
      × (e.ip ≡ (at c.entries j).ip)
      × (e.mac ≡ (at c.entries j).mac)
unfolding lookup_entry
lookup_same c ip j = elim (find_entry-Found c.entries ip) [
  | inl (r, _) ↦ rw (r, lookup_entry) (refl, refl, refl)
  | inr (k, r, h, lt) ↦
      rw (r, lookup_entry) (touched_same c.entries k ((c.clock + 1) % 2 ^ 64) j lt)
]

-- A lookup changes no mapping, whether it hits or misses.
pub resolve-lookup_entry :
    {c : ArpCache} (ip q : Ip)
    → IsValid c
    → c.clock + 1 < 2 ^ 64
    → resolve (lookup_entry c ip).1 q ≡ resolve c q
resolve-lookup_entry {c} ip q v tick = elim (find_entry-Found c.entries q) [
  | inl (_, all) ↦
      resolve_of_miss (lookup_entry c ip).1 q
        (λ j. let s = lookup_same c ip j in rw (s.0, s.1) (all j))
      ∙ sym (resolve_of_miss c q all)
  | inr (k, _, h, _) ↦
      let s = lookup_same c ip k in
      resolve_of_hit q k (lookup_entry-IsValid ip v tick) (rw (s.0, s.1) h)
      ∙ ap some s.2
      ∙ sym (resolve_of_hit q k v h)
]
