-- ===== src/PhysMem/Twice.antt =====
-- A frame whose state kernel/physmem.cc does not track, freed twice.
use networking_p.Prelude.{ℕ, ◌+◌, ◌*◌, ◌^◌, ◌≤◌, ◌<◌, ◌≡◌, refl, ap, ◌∙◌, some, List, arith}
use networking_p.Prelude.Assert.{◌>>=◌}
use networking_p.PhysMem.{MemMapEntry, PhysMem, alloc, free}
use networking_p.PhysMem.Memory.{IsDirectMap, va, write_self, zero_words_inside}
use networking_p.PhysMem.Usable.{IsMemMap}
use networking_p.PhysMem.Owned.{IsUsable}
use networking_p.PhysMem.Claim.{claimed, alloc_head, frame-IsMapped}
use networking_p.PhysMem.Release.{released, free_untracked}

module _ (hhdm : ℕ) (es : List MemMapEntry) (direct : IsDirectMap hhdm)
    (map : IsMemMap hhdm es) where
  -- With a memory map of whole frames that do not overlap, whatever the state: the next two calls of
  -- `alloc` both give out a usable frame with a number from 65536 on that is freed twice, and leave
  -- the list of free frames empty.
  pub free-free :
      (s : PhysMem) (p : ℕ)
      → IsUsable es p
      → 2 ^ 16 ≤ p
      → p < 2 ^ 48
      → (t u : PhysMem) × ((free hhdm (some es) p s >>= free hhdm (some es) p >>= alloc hhdm)
          ≡ some (p, t))
        × (alloc hhdm t ≡ some (p, u))
        × (u.avail ≡ 0)
  free-free s p usable low lt =
      let mapped = frame-IsMapped hhdm es direct map p usable in
      let s1 = released hhdm s p in
      let s2 = released hhdm s1 p in
      let loop : s2.memory s2.avail ≡ va hhdm p = write_self s1.memory (va hhdm p) s1.avail in
      let t = claimed hhdm s2 p (s2.memory s2.avail) s2.free_ranges in
      let first : t.memory (va hhdm p) ≡ 0 =
        ap t.memory (first_word p) ∙ zero_words_inside s2.memory (va hhdm p) 512 0 (omega arith) in
      (
        t,
        claimed hhdm t p (t.memory t.avail) t.free_ranges,
        ap (λ o. o >>= free hhdm (some es) p >>= alloc hhdm)
              (free_untracked hhdm es direct map p s usable low lt)
            ∙ ap (λ o. o >>= alloc hhdm) (free_untracked hhdm es direct map p s1 usable low lt)
            ∙ alloc_head hhdm es direct map p s2 mapped refl,
        alloc_head hhdm es direct map p t mapped loop,
        ap t.memory loop ∙ first,
      )
    where
      first_word : (p : ℕ) → va hhdm p ≡ va hhdm p + 8 * 0
      first_word p = omega arith
