-- ===== src/PhysMem/Ranges.antt =====
-- The ranges of free frames in kernel/physmem.cc as `alloc` takes frames from them.
use networking_p.Prelude.{
  ℕ, ◌+◌, ◌-◌, ◌*◌, ◌/◌, ◌^◌, ◌≤◌, ◌≡◌, ◌≢◌, ◌↔◌, inl, inr, refl, sym, subst, List, [], ◌∷◌, All,
  ==-cases, ne→==, arith,
}
use networking_p.Prelude.Words.{u64}
use networking_p.PhysMem.{Range, frame_size, rest_ranges}
use networking_p.PhysMem.Memory.{IsDirectMap}
use networking_p.PhysMem.Usable.{InRange, InRanges, IsApart, IsWhole, AreWhole}

abbrev pub first_frame : Range → ℕ
first_frame r = r.base / 2 ^ 12

abbrev shorter : Range → Range
shorter r = record { base = r.base + 2 ^ 12; length = r.length - 2 ^ 12 }

apart_not :
    (r : Range) (rs : List Range) (p : ℕ) → All (IsApart r) rs → InRange r p → ¬ InRanges rs p
apart_not r [] p h i k = k
apart_not r (q ∷ rs) p h i (inl k) = elim h.0 [ inl e ↦ omega arith | inr e ↦ omega arith ]
apart_not r (q ∷ rs) p h i (inr k) = apart_not r rs p h.1 i k

IsApart-shorter :
    (r : Range) (rs : List Range)
    → 2 ^ 12 ≤ r.length
    → All (IsApart r) rs
    → All (IsApart (shorter r)) rs
IsApart-shorter r [] l h = tt
IsApart-shorter r (q ∷ rs) l h =
    (elim h.0 [ inl e ↦ inl (omega arith) | inr e ↦ inr (omega arith) ], IsApart-shorter r rs l h.1)

module _ (hhdm : ℕ) (direct : IsDirectMap hhdm) where
  module _ (r : Range) (w : IsWhole hhdm r) where
    pub first-InRange : InRange r (first_frame r)
    first-InRange = omega (arith, w.base_aligned, w.some_frames)

    room : 2 ^ 12 ≤ r.length
    room = omega (arith, w.length_aligned, w.some_frames)

    next_length : u64 (r.length + 2 ^ 64 - frame_size) ≡ r.length - 2 ^ 12
    next_length = omega (arith, room, w.mapped, direct.upper)

    next_base : u64 (r.base + frame_size) ≡ r.base + 2 ^ 12
    next_base = omega (arith, room, w.mapped, direct.upper)

    shorter-IsWhole : r.length ≢ 2 ^ 12 → IsWhole hhdm (shorter r)
    shorter-IsWhole ne = record {
      base_aligned = omega (arith, w.base_aligned);
      length_aligned = omega (arith, w.length_aligned, room);
      some_frames = omega (arith, room);
      not_first = omega arith;
      mapped = omega (arith, w.mapped, room);
    }

    shorter-InRange : (p : ℕ) → InRange (shorter r) p ↔ (InRange r p × p ≢ first_frame r)
    shorter-InRange p = (
      λ i. (omega (arith, room), λ e. omega (arith, w.base_aligned)),
      λ i. let low = first_below p i.0 i.1 in omega (arith, room),
    )
      where
        first_below : (p : ℕ) → InRange r p → p ≢ first_frame r → r.base + 2 ^ 12 ≤ p * 2 ^ 12
        first_below p i ne = omega (arith, w.base_aligned)

  module _ (r : Range) (rs : List Range) where
    last_rest : IsWhole hhdm r → r.length ≡ 2 ^ 12 → rest_ranges r rs ≡ rs
    unfolding rest_ranges
    last_rest w e =
        let zero_left : r.length - 2 ^ 12 ≡ 0 = omega arith in rw (next_length r w, zero_left) refl

    more_rest : IsWhole hhdm r → r.length ≢ 2 ^ 12 → rest_ranges r rs ≡ shorter r ∷ rs
    unfolding rest_ranges
    more_rest w ne =
        let some_left = ne→== (r.length - 2 ^ 12) 0 (λ e. ne (omega (arith, room r w))) in
        rw (next_length r w, next_base r w, some_left) refl

    pub AreWhole-rest : AreWhole hhdm (r ∷ rs) → AreWhole hhdm (rest_ranges r rs)
    AreWhole-rest h = elim (==-cases r.length (2 ^ 12)) [
      | inl e ↦ subst (AreWhole hhdm) (sym (last_rest h.0 e)) h.2
      | inr ne ↦
          subst (AreWhole hhdm) (sym (more_rest h.0 ne))
            (shorter-IsWhole r h.0 ne, IsApart-shorter r rs (room r h.0) h.1, h.2)
    ]

    later : AreWhole hhdm (r ∷ rs) → (p : ℕ) → InRanges rs p → p ≢ first_frame r
    later h p i e = apart_not r rs p h.1 (subst (InRange r) (sym e) (first-InRange r h.0)) i

    only_first : IsWhole hhdm r → r.length ≡ 2 ^ 12 → (p : ℕ) → InRange r p → p ≡ first_frame r
    only_first w e p i = omega (arith, w.base_aligned)

    pub InRanges-rest :
        AreWhole hhdm (r ∷ rs)
        → (p : ℕ) → InRanges (rest_ranges r rs) p ↔ (InRanges (r ∷ rs) p × p ≢ first_frame r)
    InRanges-rest h p = elim (==-cases r.length (2 ^ 12)) [
      | inl e ↦ rw (last_rest h.0 e) (
        λ i. (inr i, later h p i),
        λ t. elim t.0 [ inl i ↦ absurd (t.1 (only_first h.0 e p i)) | inr i ↦ i ],
      )
      | inr ne ↦
          let short = shorter-InRange r h.0 p in
          rw (more_rest h.0 ne) (
            λ t. elim t [
              | inl i ↦ (inl (short.0 i).0, (short.0 i).1)
              | inr i ↦ (inr i, later h p i)
            ],
            λ t. elim t.0 [ inl i ↦ inl (short.1 (i, t.1)) | inr i ↦ inr i ],
          )
    ]
