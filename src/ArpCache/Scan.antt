-- ===== src/ArpCache/Scan.antt =====
-- What the scanning loops of kernel/arp_cache.cc find.
use networking_p.Prelude.{
  ℕ, zero, suc, ◌+◌, ◌≤◌, ◌<◌, ◌≡◌, refl, ◌⊎◌, inl, inr, true, false, Bool-cases, ltb,
  if◌then◌else◌, Option, none, some, List, [], ◌∷◌, length, drop, length-drop, arith, ap, ◌∙◌,
}
use native.Mathlib.Nat.{add-zero}
use native.Mathlib.Decide.{dec_lt}
use networking_p.Address.{Ip}
use networking_p.ArpCache.{
  ArpEntry, at, hit, find_from, first_empty, oldest_from, choose_insert_slot,
}

-- What a scan for an address comes back with.
abbrev pub Found : ℕ → List ArpEntry → Ip → Option ℕ → Type 0
Found i es ip r =
    ((r ≡ none) × ((j : ℕ) → hit (at es j) ip ≡ false))
    ⊎ ((j : ℕ) × (r ≡ some (i + j)) × (hit (at es j) ip ≡ true) × (j < length es))

pub find_from-Found : (i : ℕ) (es : List ArpEntry) (ip : Ip) → Found i es ip (find_from i es ip)
unfolding find_from
find_from-Found i [] ip = inl (refl, λ j. refl)
find_from-Found i (e ∷ es) ip = elim (Bool-cases (hit e ip)) [
  | inl h ↦ inr (0, ground arith, h, omega arith)
  | inr h ↦ elim (find_from-Found (i + 1) es ip) [
    | inl (r, all) ↦ inl (ground arith, elim [ zero ↦ h | suc j ↦ all j ])
    | inr (j, r, ok, lt) ↦ inr (suc j, ground arith, ok, omega arith)
  ]
]

abbrev pub Empty : ℕ → List ArpEntry → Option ℕ → Type 0
Empty i es r =
    ((r ≡ none) × ((j : ℕ) → j < length es → (at es j).valid ≡ true))
    ⊎ ((j : ℕ) × (r ≡ some (i + j)) × ((at es j).valid ≡ false) × (j < length es))

pub first_empty-Empty : (i : ℕ) (es : List ArpEntry) → Empty i es (first_empty i es)
unfolding first_empty
first_empty-Empty i [] = inl (refl, λ j h. absurd (omega arith))
first_empty-Empty i (e ∷ es) = elim (Bool-cases e.valid) [
  | inr h ↦ inr (0, ground arith, h, omega arith)
  | inl h ↦ elim (first_empty-Empty (i + 1) es) [
    | inl (r, all) ↦ inl (ground arith, elim [ zero ↦ λ lt. h | suc j ↦ λ lt. all j (omega arith) ])
    | inr (j, r, ok, lt) ↦ inr (suc j, ground arith, ok, omega arith)
  ]
]

-- One round of the second loop, on the time stamps alone.
oldest_step :
    (f : ℕ → ℕ) (oldest i : ℕ)
    → ((j : ℕ) → j < i → f oldest ≤ f j)
    → (j : ℕ) → j < i + 1
    → f (if ltb (f i) (f oldest) then i else oldest) ≤ f j
oldest_step f oldest i below j h = elim (dec_lt j i) [
  | yes p ↦ ground (arith, below j p)
  | no p ↦ let e : j ≡ i = omega arith in rw e (ground arith)
]

seen : List ArpEntry → ℕ → ℕ
seen all j = (at all j).last_seen

-- The second loop keeps the oldest of what it has passed.
oldest_from_min :
    (all : List ArpEntry) (oldest i : ℕ) (es : List ArpEntry)
    → ((j : ℕ) → at es j ≡ at all (i + j))
    → oldest < i
    → i + length es ≡ length all
    → ((j : ℕ) → j < i → seen all oldest ≤ seen all j)
    → (oldest_from all oldest i es < length all)
      × ((j : ℕ) → j < length all → seen all (oldest_from all oldest i es) ≤ seen all j)
unfolding oldest_from seen
oldest_from_min all oldest i [] same lt len below = (omega arith, λ j h. below j (omega arith))
oldest_from_min all oldest i (e ∷ es) same lt len below =
    let here : e ≡ at all i = same 0 ∙ ap (at all) (add-zero i) in
    oldest_from_min all (if ltb e.last_seen (at all oldest).last_seen then i else oldest) (i + 1) es
      (λ j. same (suc j) ∙ ap (at all) (omega arith)) (ground arith) (omega arith)
      (rw here (oldest_step (λ j. (at all j).last_seen) oldest i below))

at-drop : (es : List ArpEntry) (j : ℕ) → at (drop 1 es) j ≡ at es (1 + j)
at-drop [] j = refl
at-drop (e ∷ es) j = let q : suc j ≡ 1 + j = omega arith in ap (at (e ∷ es)) q

-- The slot that `choose_insert_slot_locked` returns: an empty one, or else the least recently
-- seen of a full table.
pub record Chosen (es : List ArpEntry) (k : ℕ) : Type 0 where
  pub in_range : k < length es
  pub why :
      ((at es k).valid ≡ false)
      ⊎ (((j : ℕ) → j < length es → (at es j).valid ≡ true)
          × ((j : ℕ) → j < length es → (at es k).last_seen ≤ (at es j).last_seen))

oldest_of_all :
    (es : List ArpEntry)
    → 0 < length es
    → (oldest_from es 0 1 (drop 1 es) < length es)
      × ((j : ℕ) → j < length es → seen es (oldest_from es 0 1 (drop 1 es)) ≤ seen es j)
oldest_of_all es pos =
    oldest_from_min es 0 1 (drop 1 es) (at-drop es) (omega arith) (omega (arith, length-drop 1 es))
      (λ j h. let e : j ≡ 0 = omega arith in rw e (omega arith))

pub choose_insert_slot-Chosen :
    (es : List ArpEntry) → 0 < length es → Chosen es (choose_insert_slot es)
unfolding choose_insert_slot seen
choose_insert_slot-Chosen es pos = elim (first_empty-Empty 0 es) [
  | inr (j, r, ok, lt) ↦
      let e : choose_insert_slot es ≡ j = rw (r, choose_insert_slot) (omega arith) in
      rw e (record { in_range = lt; why = inl ok })
  | inl (r, full) ↦
      rw (r, choose_insert_slot)
        (record { in_range = (oldest_of_all es pos).0; why = inr (full, (oldest_of_all es pos).1) })
]
