-- ===== src/PhysMem/Outcome.antt =====
-- What a call of `alloc` of kernel/physmem.cc comes to, from any state in order.
use networking_p.Prelude.{
  Member, IsDistinct, ℕ, ◌≡◌, ◌≢◌, ◌↔◌, inl, inr, refl, sym, subst, Bool, true, false, none, some,
  List, [], ◌∷◌, Bool-cases,
}
use networking_p.Prelude.Sets.{updated}
use networking_p.PhysMem.{MemMapEntry, Range, PhysMem, alloc, rest_ranges}
use networking_p.PhysMem.Memory.{IsDirectMap}
use networking_p.PhysMem.Usable.{InRanges, AreWhole, IsMemMap}
use networking_p.PhysMem.Ranges.{first_frame, first-InRange, AreWhole-rest, InRanges-rest}
use networking_p.PhysMem.Owned.{IsChain, IsUsable, IsOwned}
use networking_p.PhysMem.Claim.{claimed, claim, alloc-avail, alloc-range, alloc-empty}

-- It finds no frame, as all are in use, or gives out one that was not.
pub data Outcome (hhdm : ℕ) (es : List MemMapEntry) (s : PhysMem) (used : ℕ → Bool) : Type 0 where
  full : alloc hhdm s ≡ none → ((p : ℕ) → IsUsable es p → used p ≡ true) → Outcome hhdm es s used
  given :
      (p a : ℕ) (rs : List Range)
      → alloc hhdm s ≡ some (p, claimed hhdm s p a rs)
      → IsUsable es p
      → used p ≡ false
      → IsOwned hhdm es (claimed hhdm s p a rs) (updated used p true)
      → Outcome hhdm es s used

Member-rest :
    (p : ℕ) (ps : List ℕ)
    → IsDistinct (p ∷ ps)
    → (q : ℕ) → Member q ps ↔ (Member q (p ∷ ps) × q ≢ p)
Member-rest p ps d q = (
  λ i. (inr i, λ e. d.0 (subst (λ x. Member x ps) e i)),
  λ t. elim t.0 [ inl e ↦ absurd (t.1 e) | inr i ↦ i ],
)

module _ (hhdm : ℕ) (es : List MemMapEntry) (direct : IsDirectMap hhdm)
    (map : IsMemMap hhdm es) where
  module _ (s : PhysMem) (used : ℕ → Bool) (h : IsOwned hhdm es s used) where
    from_avail : (p : ℕ) (ps : List ℕ) → h.frames ≡ p ∷ ps → Outcome hhdm es s used
    from_avail p ps e =
        let member = subst (Member p) (sym e) (inl refl) in
        let distinct = subst IsDistinct e h.distinct in
        let state = h.listed p member in
        given p (s.memory s.avail) s.free_ranges (alloc-avail hhdm es direct map s used h p ps e)
          state.0 state.1
          (claim hhdm es direct map s used h p (s.memory s.avail) s.free_ranges ps state.0
            (subst (IsChain hhdm s.memory s.avail) e h.chain).1 distinct.1 h.whole
            (λ q.
              subst (λ (fs : List ℕ). Member q ps ↔ (Member q fs × q ≢ p)) (sym e)
                (Member-rest p ps distinct q))
            (λ q. (λ i. (i, λ x. h.apart p member (subst (InRanges s.free_ranges) x i)), λ t. t.0)))

    from_range :
        (r : Range) (rs : List Range)
        → h.frames ≡ []
        → s.free_ranges ≡ r ∷ rs
        → Outcome hhdm es s used
    from_range r rs e f =
        let whole = subst (AreWhole hhdm) f h.whole in
        let p = first_frame r in
        let in_range =
          subst (λ x. InRanges x p) (sym f) (inl (first-InRange hhdm direct r whole.0)) in
        let state = h.ranged p in_range in
        given p s.avail (rest_ranges r rs) (alloc-range hhdm es direct map s used h r rs e f)
          state.0 state.1
          (claim hhdm es direct map s used h p s.avail (rest_ranges r rs) h.frames state.0 h.chain
            h.distinct (AreWhole-rest hhdm direct r rs whole)
            (λ q. (
              λ i. (i, λ x. h.apart q i (subst (InRanges s.free_ranges) (sym x) in_range)),
              λ t. t.0,
            ))
            (λ q.
              subst (λ x. InRanges (rest_ranges r rs) q ↔ (InRanges x q × q ≢ p)) (sym f)
                (InRanges-rest hhdm direct r rs whole q)))

    all_used : h.frames ≡ [] → s.free_ranges ≡ [] → (p : ℕ) → IsUsable es p → used p ≡ true
    all_used e f p u = elim (Bool-cases (used p)) [
      | inl t ↦ t
      | inr t ↦ elim (h.covered p u t) [
        | inl i ↦ absurd (subst (Member p) e i)
        | inr i ↦ absurd (subst (λ x. InRanges x p) f i)
      ]
    ]

    outcome_from :
        (fs : List ℕ) (rs : List Range)
        → h.frames ≡ fs
        → s.free_ranges ≡ rs
        → Outcome hhdm es s used
    outcome_from (p ∷ ps) rs e f = from_avail p ps e
    outcome_from [] (r ∷ rs) e f = from_range r rs e f
    outcome_from [] [] e f = full (alloc-empty hhdm es direct map s used h e f) (all_used e f)

    pub alloc-outcome : Outcome hhdm es s used
    alloc-outcome = outcome_from h.frames s.free_ranges refl refl
