-- ===== src/PhysMem/Steps.antt =====
-- Runs of the allocator of kernel/physmem.cc: calls of `alloc` and `free`, and writes by the users of
-- the frames that were given out.
use networking_p.Prelude.{
  ℕ, ◌+◌, ◌*◌, ◌^◌, ◌<◌, ◌≡◌, ◌⊎◌, ◌↔◌, inl, inr, refl, ap, sym, ◌∙◌, subst, Bool, true, false,
  none, some, some_inj, not_some, List, [], ◌∷◌, All, Bool-cases, arith,
}
use mathlib.Core.Bool.{false≢true}
use networking_p.Prelude.Sets.{updated}
use networking_p.PhysMem.{MemMapEntry, Range, PhysMem, write, phys_mem, alloc, free, unconstructed}
use networking_p.PhysMem.Memory.{IsDirectMap, va, write_ne, zero_words_inside, write_self}
use networking_p.PhysMem.Usable.{
  InRanges, AreWhole, IsMemMap, usable_ranges, reverse_onto, usable_in_lem, add_ranges-ranges,
  add_ranges-rest, InRanges-reverse, AreWhole-reverse, IsApart,
}
use networking_p.PhysMem.Owned.{IsUsable, IsOwned, IsChain-ext}
use networking_p.Prelude.Assert.{◌>>=◌}
use networking_p.PhysMem.Claim.{claimed, alloc-avail}
use networking_p.PhysMem.Outcome.{full, given, alloc-outcome}
use networking_p.PhysMem.Release.{released, free-used, free-unused, release, release-frames, keep}

-- One step, with the frames in use before and after it. A frame whose state is not tracked must be in
-- use to be freed; any other may be freed at any time. Words are written at their updated addresses.
pub data Step (hhdm : ℕ) (es : List MemMapEntry) (s : PhysMem) (used : ℕ → Bool)
    : PhysMem → (ℕ → Bool) → Type 0 where
  allocates :
      (p : ℕ) (t : PhysMem)
      → alloc hhdm s ≡ some (p, t)
      → Step hhdm es s used t (updated used p true)
  frees :
      (p : ℕ) (t : PhysMem)
      → p < 2 ^ 48
      → (p < 2 ^ 16) ⊎ (used p ≡ true)
      → free hhdm (some es) p s ≡ some t
      → Step hhdm es s used t (updated used p false)
  writes :
      (p i v : ℕ)
      → used p ≡ true
      → i < 512
      → Step hhdm es s used (record s { memory = write s.memory (va hhdm p + 8 * i) v }) used

-- From the constructor on.
pub data Reach (hhdm : ℕ) (es : List MemMapEntry) (memory : ℕ → ℕ)
    : PhysMem → (ℕ → Bool) → Type 0 where
  start : Reach hhdm es memory (phys_mem (some es) memory) (λ p. false)
  next :
      {s t : PhysMem} {used used' : ℕ → Bool}
      → Reach hhdm es memory s used
      → Step hhdm es s used t used'
      → Reach hhdm es memory t used'

module _ (hhdm : ℕ) (es : List MemMapEntry) (direct : IsDirectMap hhdm)
    (map : IsMemMap hhdm es) where
  start-IsOwned : (memory : ℕ → ℕ) → IsOwned hhdm es (phys_mem (some es) memory) (λ p. false)
  unfolding phys_mem
  start-IsOwned memory =
      let s = unconstructed memory in
      let ranges = add_ranges-ranges es s in
      let rest = add_ranges-rest es s in
      record {
        frames = [];
        chain = rest.0;
        distinct = tt;
        whole =
            subst (AreWhole hhdm) (sym ranges)
              (AreWhole-reverse hhdm (usable_ranges es) [] map tt (all_apart (usable_ranges es)));
        apart = λ p i. absurd i;
        listed = λ p i. absurd i;
        ranged = λ p i. (
          (usable_in_lem hhdm direct es p map).1
              (only (usable_ranges es) p (subst (λ x. InRanges x p) ranges i)),
          refl,
        );
        used_usable = λ p e. absurd (false≢true e);
        covered = λ p u f. inr (
            subst (λ x. InRanges x p) (sym ranges)
              ((InRanges-reverse (usable_ranges es) [] p).1
                (inl ((usable_in_lem hhdm direct es p map).0 u))));
        tracked = λ p lt. (
          λ e. absurd (false≢true e),
          λ e. absurd (zero_one (sym (ap (λ (f : ℕ → ℕ). f p) rest.1) ∙ e)),
        );
      }
    where
      all_apart : (rs : List Range) → All (λ r. All (IsApart r) []) rs
      all_apart [] = tt
      all_apart (r ∷ rs) = (tt, all_apart rs)

      only : (rs : List Range) (p : ℕ) → InRanges (reverse_onto rs []) p → InRanges rs p
      only rs p i = elim ((InRanges-reverse rs [] p).0 i) [ inl a ↦ a | inr b ↦ absurd b ]

      zero_one : ¬ ◌≡◌ {A = ℕ} 0 1
      zero_one e = omega arith

  -- A user's write leaves the list of free frames alone.
  write-IsOwned :
      (s : PhysMem) (used : ℕ → Bool) (p i v : ℕ)
      → used p ≡ true
      → i < 512
      → IsOwned hhdm es s used
      → IsOwned hhdm es (record s { memory = write s.memory (va hhdm p + 8 * i) v }) used
  write-IsOwned s used p i v u lt h = record {
    frames = h.frames;
    chain =
        IsChain-ext hhdm s.memory (write s.memory (va hhdm p + 8 * i) v) s.avail h.frames
          (λ q m.
            write_ne s.memory (va hhdm p + 8 * i) v (va hhdm q)
              (λ e. false≢true (sym (h.listed q m).1 ∙ ap used (same q e) ∙ u)))
          h.chain;
    distinct = h.distinct;
    whole = h.whole;
    apart = h.apart;
    listed = h.listed;
    ranged = h.ranged;
    used_usable = h.used_usable;
    covered = h.covered;
    tracked = h.tracked;
  }
    where
      same : (q : ℕ) → va hhdm q ≡ va hhdm p + 8 * i → q ≡ p
      same q e = omega arith

  Step-IsOwned :
      (s : PhysMem) (used : ℕ → Bool) (t : PhysMem) (used' : ℕ → Bool)
      → Step hhdm es s used t used'
      → IsOwned hhdm es s used
      → IsOwned hhdm es t used'
  Step-IsOwned s used _ _ (allocates p t e) h = elim (alloc-outcome hhdm es direct map s used h) [
    | full f k ↦ absurd (not_some (sym f ∙ e))
    | given q a rs f u n k ↦
        subst (λ (x : ℕ × PhysMem). IsOwned hhdm es x.1 (updated used x.0 true))
          (some_inj (sym f ∙ e)) k
  ]
  Step-IsOwned s used _ _ (frees p t lt ok e) h = elim (Bool-cases (used p)) [
    | inl u ↦
        subst (λ x. IsOwned hhdm es x (updated used p false))
          (some_inj (sym (free-used hhdm es direct map s used h p u lt) ∙ e))
          (release hhdm es direct map s used h p u)
    | inr n ↦
        subst (λ x. IsOwned hhdm es x (updated used p false))
          (some_inj (sym (free-unused hhdm es direct map s used h p n (small ok n)) ∙ e))
          (keep hhdm es direct map s used h p n)
  ]
    where
      small : (p < 2 ^ 16) ⊎ (used p ≡ true) → used p ≡ false → p < 2 ^ 16
      small (inl l) n = l
      small (inr u) n = absurd (false≢true (sym n ∙ u))
  Step-IsOwned s used _ _ (writes p i v u lt) h = write-IsOwned s used p i v u lt h

  -- With a memory map of whole frames that do not overlap, in each state that steps lead to: every
  -- usable frame is in use, in the list of free frames or in a range, and in one of them alone, and
  -- the states of tracked frames say which are in use.
  pub Reach-IsOwned :
      (memory : ℕ → ℕ) (s : PhysMem) (used : ℕ → Bool)
      → Reach hhdm es memory s used
      → IsOwned hhdm es s used
  Reach-IsOwned memory s used start = start-IsOwned memory
  Reach-IsOwned memory t used' (next r st) =
      Step-IsOwned _ _ t used' st (Reach-IsOwned memory _ _ r)

  module _ (memory : ℕ → ℕ) (s : PhysMem) (used : ℕ → Bool) (r : Reach hhdm es memory s used) where
    owned : IsOwned hhdm es s used
    owned = Reach-IsOwned memory s used r

    -- With a memory map of whole frames that do not overlap, in each state that steps lead to: what
    -- `alloc` gives out is a usable frame that is not in use, and every word of it is zero.
    pub alloc_fresh :
        (p : ℕ) (t : PhysMem)
        → alloc hhdm s ≡ some (p, t)
        → (used p ≡ false) × IsUsable es p × ((i : ℕ) → i < 512 → t.memory (va hhdm p + 8 * i) ≡ 0)
    alloc_fresh p t e = elim (alloc-outcome hhdm es direct map s used owned) [
      | full f k ↦ absurd (not_some (sym f ∙ e))
      | given q a rs f u n k ↦
          subst
            (λ (x : ℕ × PhysMem).
              (used x.0 ≡ false)
              × IsUsable es x.0
              × ((i : ℕ) → i < 512 → x.1.memory (va hhdm x.0 + 8 * i) ≡ 0))
            (some_inj (sym f ∙ e)) (n, u, λ i lt. zero_words_inside s.memory (va hhdm q) 512 i lt)
    ]

    -- With a memory map of whole frames that do not overlap, in each state that steps lead to: `alloc`
    -- stops the machine exactly if every usable frame is in use.
    pub alloc_full : (alloc hhdm s ≡ none) ↔ ((p : ℕ) → IsUsable es p → used p ≡ true)
    alloc_full = elim (alloc-outcome hhdm es direct map s used owned) [
      | full f k ↦ (λ e. k, λ u. f)
      | given q a rs f u n k ↦
          (λ e. absurd (not_some (sym e ∙ f)), λ all. absurd (false≢true (sym n ∙ all q u)))
    ]

    -- With a memory map of whole frames that do not overlap, in each state that steps lead to: `free`
    -- of a frame that is not in use changes nothing, if its number is below 65536.
    pub free_ignored : (p : ℕ) → used p ≡ false → p < 2 ^ 16 → free hhdm (some es) p s ≡ some s
    free_ignored p n lt = free-unused hhdm es direct map s used owned p n lt

    -- With a memory map of whole frames that do not overlap, in each state that steps lead to: a frame
    -- in use that is freed is the next one to be given out, and then the pointer to the list and the
    -- ranges are what they were.
    pub free-alloc :
        (p : ℕ)
        → used p ≡ true
        → p < 2 ^ 48
        → (t : PhysMem) × ((free hhdm (some es) p s >>= alloc hhdm) ≡ some (p, t))
          × (t.avail ≡ s.avail)
          × (t.free_ranges ≡ s.free_ranges)
    free-alloc p u lt =
        let after = release hhdm es direct map s used owned p u in
        let s1 = released hhdm s p in
        (
          claimed hhdm s1 p (s1.memory s1.avail) s1.free_ranges,
          ap (λ o. o >>= alloc hhdm) (free-used hhdm es direct map s used owned p u lt)
              ∙ alloc-avail hhdm es direct map s1 (updated used p false) after p owned.frames
                  (release-frames hhdm es direct map s used owned p u),
          write_self s.memory (va hhdm p) s.avail,
          refl,
        )
