-- ===== src/PhysMem/Usable.antt =====
-- The memory map that kernel/physmem.cc reads, and the ranges of free frames made from it.
use networking_p.Prelude.{
  ℕ, ◌+◌, ◌*◌, ◌%◌, ◌^◌, ◌≤◌, ◌<◌, ◌≡◌, ◌≢◌, ◌⊎◌, ◌↔◌, inl, inr, refl, subst, true, ◌==◌,
  if◌then◌else◌, List, [], ◌∷◌, All, ==_iff, ==-cases, ne→==, Bool-cases, arith,
}
use mathlib.Core.Bool.{false≢true}
use networking_p.Prelude.Words.{u64}
use networking_p.PhysMem.Memory.{IsDirectMap}
use networking_p.PhysMem.{
  MemMapEntry, Range, PhysMem, memmap_usable, usable_at, usable_in, add_ranges,
}

-- The frame lies in the range.
abbrev pub InRange : Range → ℕ → Type 0
InRange r ppn = (r.base ≤ ppn * 2 ^ 12) × (ppn * 2 ^ 12 < r.base + r.length)

abbrev pub InRanges : List Range → ℕ → Type 0
InRanges [] ppn = ⊥
InRanges (r ∷ rs) ppn = InRange r ppn ⊎ InRanges rs ppn

abbrev pub IsApart : Range → Range → Type 0
IsApart r q = (r.base + r.length ≤ q.base) ⊎ (q.base + q.length ≤ r.base)

-- Whole frames, one at least, not that at address 0, within the direct map.
pub record IsWhole (hhdm : ℕ) (r : Range) : Type 0 where
  pub base_aligned : r.base % 2 ^ 12 ≡ 0
  pub length_aligned : r.length % 2 ^ 12 ≡ 0
  pub some_frames : 0 < r.length
  pub not_first : 0 < r.base
  pub mapped : hhdm + (r.base + r.length) ≤ 2 ^ 64

abbrev pub AreWhole : ℕ → List Range → Type 0
AreWhole hhdm [] = Unit
AreWhole hhdm (r ∷ rs) = IsWhole hhdm r × All (IsApart r) rs × AreWhole hhdm rs

abbrev pub reverse_onto : List Range → List Range → List Range
reverse_onto [] qs = qs
reverse_onto (r ∷ rs) qs = reverse_onto rs (r ∷ qs)

abbrev pub range_of : MemMapEntry → Range
range_of e = record { base = e.base; length = e.length }

abbrev pub usable_ranges : List MemMapEntry → List Range
usable_ranges [] = []
usable_ranges (e ∷ es) =
    if e.kind == memmap_usable then range_of e ∷ usable_ranges es else usable_ranges es

usable_yes :
    (e : MemMapEntry) (es : List MemMapEntry)
    → e.kind ≡ memmap_usable
    → usable_ranges (e ∷ es) ≡ range_of e ∷ usable_ranges es
usable_yes e es k = let kind = (==_iff e.kind memmap_usable).1 k in rw kind refl

usable_no :
    (e : MemMapEntry) (es : List MemMapEntry)
    → e.kind ≢ memmap_usable
    → usable_ranges (e ∷ es) ≡ usable_ranges es
usable_no e es ne = let kind = ne→== e.kind memmap_usable ne in rw kind refl

-- What the boot loader promises of the usable entries: whole frames, and no overlap.
abbrev pub IsMemMap : ℕ → List MemMapEntry → Type 0
IsMemMap hhdm es = AreWhole hhdm (usable_ranges es)

module _ (hhdm : ℕ) (direct : IsDirectMap hhdm) where
  pub usable_at_lem :
      (e : MemMapEntry) (p : ℕ)
      → IsWhole hhdm (range_of e)
      → e.kind ≡ memmap_usable
      → (usable_at e (p * 2 ^ 12) ≡ true) ↔ InRange (range_of e) p
  unfolding usable_at
  usable_at_lem e p w k =
      let end : u64 (e.base + e.length) ≡ e.base + e.length =
        omega (arith, direct.upper, w.mapped, w.some_frames) in
      let kind : (e.kind == memmap_usable) ≡ true = (==_iff e.kind memmap_usable).1 k in
      rw (end, kind) ground (arith, w.base_aligned, w.length_aligned, w.some_frames)

  pub usable_in_lem :
      (es : List MemMapEntry) (p : ℕ)
      → IsMemMap hhdm es
      → (usable_in es (p * 2 ^ 12) ≡ true) ↔ InRanges (usable_ranges es) p
  unfolding usable_in usable_at
  usable_in_lem [] p h = (λ e. absurd (false≢true e), λ e. absurd e)
  usable_in_lem (e ∷ es) p h = elim (==-cases e.kind memmap_usable) [
    | inl k ↦
        let whole = subst (AreWhole hhdm) (usable_yes e es k) h in
        let here = usable_at_lem e p whole.0 k in
        let there = usable_in_lem es p whole.2 in
        rw (usable_yes e es k) (elim (Bool-cases (usable_at e (p * 2 ^ 12))) [
          | inl y ↦ rw y (λ t. inl (here.0 y), λ q. refl)
          | inr n ↦ rw n (
            λ t. inr (there.0 t),
            λ q. elim q [ inl i ↦ absurd (cc (n, here.1 i)) | inr i ↦ there.1 i ],
          )
        ])
    | inr ne ↦
        let kind = ne→== e.kind memmap_usable ne in
        let rest = subst (AreWhole hhdm) (usable_no e es ne) h in
        rw (usable_no e es ne, kind) (usable_in_lem es p rest)
  ]

-- What the constructor makes of the map: its usable entries, the last one first.
pub add_ranges-ranges :
    (es : List MemMapEntry) (s : PhysMem)
    → (add_ranges es s).free_ranges ≡ reverse_onto (usable_ranges es) s.free_ranges
unfolding add_ranges
add_ranges-ranges [] s = refl
add_ranges-ranges (e ∷ es) s = elim (==-cases e.kind memmap_usable) [
  | inl k ↦
      let kind = (==_iff e.kind memmap_usable).1 k in
      rw (usable_yes e es k, kind) (add_ranges-ranges es _)
  | inr ne ↦
      let kind = ne→== e.kind memmap_usable ne in
      rw (usable_no e es ne, kind) (add_ranges-ranges es s)
]

pub add_ranges-rest :
    (es : List MemMapEntry) (s : PhysMem)
    → ((add_ranges es s).avail ≡ s.avail)
      × ((add_ranges es s).frame_state ≡ s.frame_state)
      × ((add_ranges es s).memory ≡ s.memory)
unfolding add_ranges
add_ranges-rest [] s = (refl, refl, refl)
add_ranges-rest (e ∷ es) s = elim (Bool-cases (e.kind == memmap_usable)) [
  | inl k ↦ rw k (add_ranges-rest es _)
  | inr k ↦ rw k (add_ranges-rest es s)
]

pub InRanges-reverse :
    (rs qs : List Range) (p : ℕ) → InRanges (reverse_onto rs qs) p ↔ (InRanges rs p ⊎ InRanges qs p)
InRanges-reverse [] qs p = (inr, λ e. elim e [ inl b ↦ absurd b | inr i ↦ i ])
InRanges-reverse (r ∷ rs) qs p =
    let rest = InRanges-reverse rs (r ∷ qs) p in
    (
      λ i. elim (rest.0 i) [
        | inl a ↦ inl (inr a)
        | inr b ↦ elim b [ inl c ↦ inl (inl c) | inr c ↦ inr c ]
      ],
      λ i.
          rest.1 (elim i [
            | inl a ↦ elim a [ inl b ↦ inr (inl b) | inr b ↦ inl b ]
            | inr c ↦ inr (inr c)
          ]),
    )

IsApart-more :
    (r : Range) (qs rs : List Range)
    → All (IsApart r) rs
    → All (λ q. All (IsApart q) qs) rs
    → All (λ q. All (IsApart q) (r ∷ qs)) rs
IsApart-more r qs [] h k = tt
IsApart-more r qs (x ∷ rs) h k =
    ((elim h.0 [ inl e ↦ inr e | inr e ↦ inl e ], k.0), IsApart-more r qs rs h.1 k.1)

pub AreWhole-reverse :
    (hhdm : ℕ) (rs qs : List Range)
    → AreWhole hhdm rs
    → AreWhole hhdm qs
    → All (λ r. All (IsApart r) qs) rs
    → AreWhole hhdm (reverse_onto rs qs)
AreWhole-reverse hhdm [] qs h k apart = k
AreWhole-reverse hhdm (r ∷ rs) qs h k apart =
    AreWhole-reverse hhdm rs (r ∷ qs) h.2 (h.0, apart.0, k) (IsApart-more r qs rs h.1 apart.1)
