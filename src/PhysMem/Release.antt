-- ===== src/PhysMem/Release.antt =====
-- `free` of kernel/physmem.cc against who owns which frame.
use networking_p.Prelude.{
  Member, ℕ, ◌+◌, ◌*◌, ◌^◌, ◌≤◌, ◌<◌, ◌≡◌, ◌≢◌, inl, inr, refl, ap, sym, ◌∙◌, subst, Bool, true,
  false, ltb, ◌==◌, some, List, ◌∷◌, ==_iff, ==-cases, ne→==, Bool-cases, arith,
}
use mathlib.Core.Bool.{false≢true}
use networking_p.Prelude.Sets.{updated, updated_self, updated_ne}
use networking_p.Prelude.Words.{u64, ◌<<◌}
use networking_p.PhysMem.{
  MemMapEntry, PhysMem, write, mark, ppn_is_tracked, pa_in_usable_range, usable_in, put_back,
  push_frame, free,
}
use networking_p.PhysMem.Memory.{IsDirectMap, va, write_self, write_ne, canonical}
use networking_p.PhysMem.Usable.{InRanges, IsMemMap}
use networking_p.PhysMem.Owned.{
  IsChain, IsUsable, IsOwned, mark_self, mark_ne, IsChain-ext, usable-IsMapped,
}

-- The state after frame `p` is taken back.
abbrev pub released : ℕ → PhysMem → ℕ → PhysMem
released hhdm s p = record s {
  avail = va hhdm p;
  frame_state = mark s.frame_state p 2;
  memory = write s.memory (va hhdm p) s.avail;
}

module _ (hhdm : ℕ) (es : List MemMapEntry) (direct : IsDirectMap hhdm)
    (map : IsMemMap hhdm es) where
  free_usable :
      (p : ℕ) (s : PhysMem)
      → IsUsable es p
      → p < 2 ^ 48
      → free hhdm (some es) p s ≡ some (put_back (va hhdm p) p s)
  unfolding free pa_in_usable_range
  free_usable p s u lt =
      let mapped = usable-IsMapped hhdm es p direct map u in
      let nonzero : (p == 0) ≡ false = ne→== p 0 (λ e. omega (arith, mapped.1)) in
      let address : u64 (p << 12) ≡ p * 2 ^ 12 = omega arith in
      let place : u64 (p * 2 ^ 12 + hhdm) ≡ va hhdm p =
        omega (arith, direct.upper, direct.word, mapped.0) in
      rw (free, nonzero, address, u, place, canonical hhdm direct p mapped.0) refl

  -- The state of a frame with a large number is not looked at.
  pub free_untracked :
      (p : ℕ) (s : PhysMem)
      → IsUsable es p
      → 2 ^ 16 ≤ p
      → p < 2 ^ 48
      → free hhdm (some es) p s ≡ some (released hhdm s p)
  unfolding put_back push_frame ppn_is_tracked
  free_untracked p s u low lt =
      let large : ltb p (2 ^ 16) ≡ false = ground (arith, low) in
      free_usable p s u lt ∙ ap some (rw (put_back, large) refl)

  module _ (s : PhysMem) (used : ℕ → Bool) (h : IsOwned hhdm es s used) (p : ℕ) where
    pub free-used : used p ≡ true → p < 2 ^ 48 → free hhdm (some es) p s ≡ some (released hhdm s p)
    unfolding put_back push_frame ppn_is_tracked
    free-used u lt = elim (Bool-cases (ltb p (2 ^ 16))) [
      | inl small ↦
          let in_use : (s.frame_state p == 1) ≡ true =
            (==_iff (s.frame_state p) 1).1 ((h.tracked p (ground (arith, small))).0 u) in
          free_usable p s (h.used_usable p u) lt ∙ ap some (rw (put_back, small, in_use) refl)
      | inr large ↦ free_untracked p s (h.used_usable p u) (ground (arith, large)) lt
    ]

    -- A frame that is not in use is refused, if its state is tracked.
    pub free-unused : used p ≡ false → p < 2 ^ 16 → free hhdm (some es) p s ≡ some s
    unfolding put_back ppn_is_tracked free pa_in_usable_range
    free-unused u lt = elim (Bool-cases (usable_in es (p * 2 ^ 12))) [
      | inl usable ↦
          let small : ltb p (2 ^ 16) ≡ true = ground (arith, lt) in
          let not_in_use : (s.frame_state p == 1) ≡ false =
            ne→== (s.frame_state p) 1 (λ e. false≢true (sym u ∙ (h.tracked p lt).1 e)) in
          free_usable p s usable (omega arith) ∙ ap some (rw (put_back, small, not_in_use) refl)
      | inr other ↦
          let address : u64 (p << 12) ≡ p * 2 ^ 12 = omega arith in
          elim (==-cases p 0) [
            | inl z ↦ let first = (==_iff p 0).1 z in rw (free, first) refl
            | inr ne ↦ let later = ne→== p 0 ne in rw (free, later, address, other) refl
          ]
    ]

    pub release : used p ≡ true → IsOwned hhdm es (released hhdm s p) (updated used p false)
    release u =
        let usable = h.used_usable p u in
        let unlisted : ¬ Member p h.frames = λ i. false≢true (sym (h.listed p i).1 ∙ u) in
        let unranged : ¬ InRanges s.free_ranges p = λ i. false≢true (sym (h.ranged p i).1 ∙ u) in
        record {
          frames = p ∷ h.frames;
          chain = (
            refl,
            subst (λ a. IsChain hhdm (write s.memory (va hhdm p) s.avail) a h.frames)
                (sym (write_self s.memory (va hhdm p) s.avail))
                (IsChain-ext hhdm s.memory _ s.avail h.frames
                  (λ q i.
                    write_ne s.memory (va hhdm p) s.avail (va hhdm q)
                      (other q (λ e. unlisted (subst (λ x. Member x h.frames) e i))))
                  h.chain),
          );
          distinct = (unlisted, h.distinct);
          whole = h.whole;
          apart = λ q i j. elim i [
            | inl e ↦ unranged (subst (InRanges s.free_ranges) e j)
            | inr i' ↦ h.apart q i' j
          ];
          listed = λ q i. elim i [
            | inl e ↦ (
              subst (IsUsable es) (sym e) usable,
              ap (updated used p false) e ∙ updated_self used p false,
            )
            | inr i' ↦
                let old = h.listed q i' in
                (
                  old.0,
                  updated_ne used p q false (λ e. unlisted (subst (λ x. Member x h.frames) e i'))
                      ∙ old.1,
                )
          ];
          ranged = λ q i.
              let old = h.ranged q i in
              (
                old.0,
                updated_ne used p q false (λ e. unranged (subst (InRanges s.free_ranges) e i))
                    ∙ old.1,
              );
          used_usable = λ q v. elim (==-cases q p) [
            | inl e ↦ subst (IsUsable es) (sym e) usable
            | inr ne ↦ h.used_usable q (sym (updated_ne used p q false ne) ∙ v)
          ];
          covered = λ q v f. elim (==-cases q p) [
            | inl e ↦ inl (inl e)
            | inr ne ↦ elim (h.covered q v (sym (updated_ne used p q false ne) ∙ f)) [
              | inl i ↦ inl (inr i)
              | inr i ↦ inr i
            ]
          ];
          tracked = λ q lt. elim (==-cases q p) [
            | inl e ↦ (
              λ v. absurd (
                  false≢true
                    (sym (updated_self used p false) ∙ ap (updated used p false) (sym e) ∙ v)),
              λ v. absurd (
                  two_one (mark s.frame_state p 2 q)
                    (ap (mark s.frame_state p 2) e ∙ mark_self s.frame_state p 2 (omega arith)) v),
            )
            | inr ne ↦
                rw (updated_ne used p q false ne, mark_ne s.frame_state p 2 q ne) (h.tracked q lt)
          ];
        }
      where
        other : (q : ℕ) → q ≢ p → va hhdm q ≢ va hhdm p
        other q ne e = ne (omega arith)

        two_one : (n : ℕ) → n ≡ 2 → n ≢ 1
        two_one n e f = omega arith

    pub release-frames : (u : used p ≡ true) → (release u).frames ≡ p ∷ h.frames
    unfolding release
    release-frames u = refl

    -- Taking back a frame that is not in use changes no owner.
    pub keep : used p ≡ false → IsOwned hhdm es s (updated used p false)
    keep u = record {
      frames = h.frames;
      chain = h.chain;
      distinct = h.distinct;
      whole = h.whole;
      apart = h.apart;
      listed = λ q i. rw (same q) (h.listed q i);
      ranged = λ q i. rw (same q) (h.ranged q i);
      used_usable = λ q. rw (same q) (h.used_usable q);
      covered = λ q. rw (same q) (h.covered q);
      tracked = λ q. rw (same q) (h.tracked q);
    }
      where
        same : (q : ℕ) → updated used p false q ≡ used q
        same q = elim (==-cases q p) [
          | inl e ↦
              ap (updated used p false) e ∙ updated_self used p false ∙ sym u ∙ ap used (sym e)
          | inr ne ↦ updated_ne used p q false ne
        ]
