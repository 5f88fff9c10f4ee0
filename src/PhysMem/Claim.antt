-- ===== src/PhysMem/Claim.antt =====
-- `alloc` of kernel/physmem.cc against who owns which frame.
use networking_p.Prelude.{
  Member, IsDistinct, ℕ, ◌+◌, ◌*◌, ◌≤◌, ◌<◌, ◌≡◌, ◌≢◌, ◌⊎◌, ◌↔◌, inl, inr, refl, ap, sym, ◌∙◌,
  subst, Bool, true, none, some, List, [], ◌∷◌, ==_iff, ==-cases, ne→==, arith,
}
use mathlib.Core.Bool.{false≢true}
use networking_p.Prelude.Sets.{updated, updated_self, updated_ne}
use networking_p.PhysMem.{
  MemMapEntry, Range, PhysMem, frame_ppn, zero_words, mark, alloc, zero_frame, take_avail,
  take_range, rest_ranges,
}
use networking_p.PhysMem.Memory.{
  IsDirectMap, IsMapped, va, zero_words_outside, frame_va_lem, frame_ppn_lem, canonical,
}
use networking_p.PhysMem.Usable.{InRanges, AreWhole, IsMemMap}
use networking_p.PhysMem.Ranges.{first_frame, first-InRange}
use networking_p.PhysMem.Owned.{
  IsChain, IsUsable, IsOwned, mark_self, mark_ne, IsChain-ext, usable-IsMapped,
}

-- The state after frame `p` is given out, with what is left of the list and of the ranges.
abbrev pub claimed : ℕ → PhysMem → ℕ → ℕ → List Range → PhysMem
claimed hhdm s p a rs = record s {
  avail = a;
  free_ranges = rs;
  frame_state = mark s.frame_state p 1;
  memory = zero_words s.memory (va hhdm p) 512;
}

module _ (hhdm : ℕ) (es : List MemMapEntry) (direct : IsDirectMap hhdm)
    (map : IsMemMap hhdm es) where
  pub frame-IsMapped : (p : ℕ) → IsUsable es p → IsMapped hhdm p
  frame-IsMapped p u = (usable-IsMapped hhdm es p direct map u).0

  zero_frame_lem :
      (p : ℕ) (s : PhysMem)
      → IsMapped hhdm p
      → zero_frame hhdm (p, s) ≡ some (p, record s { memory = zero_words s.memory (va hhdm p) 512 })
  unfolding zero_frame
  zero_frame_lem p s h = rw (frame_va_lem hhdm direct p h, canonical hhdm direct p h) refl

  -- A pointer to a frame at the head of the list is taken for what it is.
  pub alloc_head :
      (p : ℕ) (s : PhysMem)
      → IsMapped hhdm p
      → s.avail ≡ va hhdm p
      → alloc hhdm s ≡ some (p, claimed hhdm s p (s.memory s.avail) s.free_ranges)
  unfolding alloc take_avail
  alloc_head p s mapped e =
      let nonzero = ne→== s.avail 0 (λ z. omega (arith, direct.upper, e)) in
      let number : frame_ppn hhdm s.avail ≡ p =
        ap (frame_ppn hhdm) e ∙ frame_ppn_lem hhdm direct p mapped in
      rw (alloc, nonzero, number) (zero_frame_lem p _ mapped)

  module _ (s : PhysMem) (used : ℕ → Bool) (h : IsOwned hhdm es s used) where
    pub claim :
        (p a : ℕ) (rs : List Range) (frames : List ℕ)
        → IsUsable es p
        → IsChain hhdm s.memory a frames
        → IsDistinct frames
        → AreWhole hhdm rs
        → ((q : ℕ) → Member q frames ↔ (Member q h.frames × q ≢ p))
        → ((q : ℕ) → InRanges rs q ↔ (InRanges s.free_ranges q × q ≢ p))
        → IsOwned hhdm es (claimed hhdm s p a rs) (updated used p true)
    claim p a rs frames up chain distinct whole members ranges = record {
      frames = frames;
      chain =
          IsChain-ext hhdm s.memory _ a frames
            (λ q i.
              zero_words_outside s.memory (va hhdm p) 512 (va hhdm q) (far q ((members q).0 i).1))
            chain;
      distinct = distinct;
      whole = whole;
      apart = λ q i j. h.apart q ((members q).0 i).0 ((ranges q).0 j).0;
      listed = λ q i.
          let old = (members q).0 i in
          ((h.listed q old.0).0, updated_ne used p q true old.1 ∙ (h.listed q old.0).1);
      ranged = λ q i.
          let old = (ranges q).0 i in
          ((h.ranged q old.0).0, updated_ne used p q true old.1 ∙ (h.ranged q old.0).1);
      used_usable = λ q u. elim (==-cases q p) [
        | inl e ↦ subst (IsUsable es) (sym e) up
        | inr ne ↦ h.used_usable q (sym (updated_ne used p q true ne) ∙ u)
      ];
      covered = λ q u f. elim (==-cases q p) [
        | inl e ↦
            absurd (false≢true (sym f ∙ ap (updated used p true) e ∙ updated_self used p true))
        | inr ne ↦ elim (h.covered q u (sym (updated_ne used p q true ne) ∙ f)) [
          | inl i ↦ inl ((members q).1 (i, ne))
          | inr i ↦ inr ((ranges q).1 (i, ne))
        ]
      ];
      tracked = λ q lt. elim (==-cases q p) [
        | inl e ↦ (
          λ u. ap (mark s.frame_state p 1) e ∙ mark_self s.frame_state p 1 (omega arith),
          λ u. ap (updated used p true) e ∙ updated_self used p true,
        )
        | inr ne ↦ rw (updated_ne used p q true ne, mark_ne s.frame_state p 1 q ne) (h.tracked q lt)
      ];
    }
      where
        far : (q : ℕ) → q ≢ p → (va hhdm q < va hhdm p) ⊎ (va hhdm p + 8 * 512 ≤ va hhdm q)
        far q ne = omega arith

    -- The first branch.
    pub alloc-avail :
        (p : ℕ) (ps : List ℕ)
        → h.frames ≡ p ∷ ps
        → alloc hhdm s ≡ some (p, claimed hhdm s p (s.memory s.avail) s.free_ranges)
    alloc-avail p ps e =
        let chain = subst (IsChain hhdm s.memory s.avail) e h.chain in
        let member = subst (Member p) (sym e) (inl refl) in
        alloc_head p s (frame-IsMapped p (h.listed p member).0) chain.0

    -- The second.
    pub alloc-range :
        (r : Range) (rs : List Range)
        → h.frames ≡ []
        → s.free_ranges ≡ r ∷ rs
        → alloc hhdm s
          ≡ some (first_frame r, claimed hhdm s (first_frame r) s.avail (rest_ranges r rs))
    unfolding alloc take_range
    alloc-range r rs e f =
        let empty : s.avail ≡ 0 = subst (IsChain hhdm s.memory s.avail) e h.chain in
        let is_empty = (==_iff s.avail 0).1 empty in
        let whole = subst (AreWhole hhdm) f h.whole in
        let in_range =
          subst (λ x. InRanges x (first_frame r)) (sym f)
            (inl (first-InRange hhdm direct r whole.0)) in
        let mapped = frame-IsMapped (first_frame r) (h.ranged (first_frame r) in_range).0 in
        rw (alloc, is_empty, f) (zero_frame_lem (first_frame r) _ mapped)

    pub alloc-empty : h.frames ≡ [] → s.free_ranges ≡ [] → alloc hhdm s ≡ none
    unfolding alloc
    alloc-empty e f =
        let empty : s.avail ≡ 0 = subst (IsChain hhdm s.memory s.avail) e h.chain in
        let is_empty = (==_iff s.avail 0).1 empty in rw (alloc, is_empty, f) refl
