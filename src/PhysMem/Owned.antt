-- ===== src/PhysMem/Owned.antt =====
-- The state of kernel/physmem.cc against who owns which frame: each usable frame is in the list of
-- free frames, in a range, or in use, and in one of them alone.
use networking_p.Prelude.{
  Member, IsDistinct, ℕ, ◌+◌, ◌*◌, ◌^◌, ◌≤◌, ◌<◌, ◌≡◌, ◌≢◌, ◌⊎◌, ◌↔◌, inl, inr, refl, ap, sym, ◌∙◌,
  subst, Bool, true, false, ltb, List, [], ◌∷◌, Bool-cases, arith,
}
use networking_p.PhysMem.{MemMapEntry, Range, PhysMem, usable_in, mark, ppn_is_tracked}
use networking_p.PhysMem.Memory.{IsDirectMap, IsMapped, va, write_self, write_ne}
use networking_p.PhysMem.Usable.{InRanges, AreWhole, IsMemMap, usable_ranges, usable_in_lem}

-- The list from the pointer `a` on runs through these frames.
abbrev pub IsChain : ℕ → (ℕ → ℕ) → ℕ → List ℕ → Type 0
IsChain hhdm m a [] = a ≡ 0
IsChain hhdm m a (p ∷ ps) = (a ≡ va hhdm p) × IsChain hhdm m (m a) ps

abbrev pub IsUsable : List MemMapEntry → ℕ → Type 0
IsUsable es p = usable_in es (p * 2 ^ 12) ≡ true

pub record IsOwned (hhdm : ℕ) (es : List MemMapEntry) (s : PhysMem) (used : ℕ → Bool) : Type 0 where
  pub frames : List ℕ
  pub chain : IsChain hhdm s.memory s.avail frames
  pub distinct : IsDistinct frames
  pub whole : AreWhole hhdm s.free_ranges
  pub apart : (p : ℕ) → Member p frames → ¬ InRanges s.free_ranges p
  pub listed : (p : ℕ) → Member p frames → IsUsable es p × used p ≡ false
  pub ranged : (p : ℕ) → InRanges s.free_ranges p → IsUsable es p × used p ≡ false
  pub used_usable : (p : ℕ) → used p ≡ true → IsUsable es p
  pub covered :
      (p : ℕ) → IsUsable es p → used p ≡ false → Member p frames ⊎ InRanges s.free_ranges p
  pub tracked : (p : ℕ) → p < 2 ^ 16 → (used p ≡ true) ↔ (s.frame_state p ≡ 1)

pub mark_self : (f : ℕ → ℕ) (p v : ℕ) → p < 2 ^ 16 → mark f p v p ≡ v
unfolding mark ppn_is_tracked
mark_self f p v lt =
    let small : ltb p 65536 ≡ true = ground (arith, lt) in rw small (write_self f p v)

pub mark_ne : (f : ℕ → ℕ) (p v q : ℕ) → q ≢ p → mark f p v q ≡ f q
unfolding mark
mark_ne f p v q ne = elim (Bool-cases (ppn_is_tracked p)) [
  | inl t ↦ rw t (write_ne f p v q ne)
  | inr t ↦ rw t refl
]

pub IsChain-ext :
    (hhdm : ℕ) (m n : ℕ → ℕ) (a : ℕ) (ps : List ℕ)
    → ((p : ℕ) → Member p ps → n (va hhdm p) ≡ m (va hhdm p))
    → IsChain hhdm m a ps
    → IsChain hhdm n a ps
IsChain-ext hhdm m n a [] same h = h
IsChain-ext hhdm m n a (p ∷ ps) same h =
    let next : n a ≡ m a = ap n h.0 ∙ same p (inl refl) ∙ sym (ap m h.0) in
    (
      h.0,
      subst (λ x. IsChain hhdm n x ps) (sym next)
          (IsChain-ext hhdm m n (m a) ps (λ q i. same q (inr i)) h.1),
    )

AreWhole-IsMapped :
    (hhdm : ℕ) (rs : List Range) (p : ℕ)
    → AreWhole hhdm rs
    → InRanges rs p
    → IsMapped hhdm p × (0 < p)
AreWhole-IsMapped hhdm [] p h i = absurd i
AreWhole-IsMapped hhdm (r ∷ rs) p h (inl i) =
    omega (arith, h.0.base_aligned, h.0.length_aligned, h.0.mapped, h.0.not_first)
AreWhole-IsMapped hhdm (r ∷ rs) p h (inr i) = AreWhole-IsMapped hhdm rs p h.2 i

pub usable-IsMapped :
    (hhdm : ℕ) (es : List MemMapEntry) (p : ℕ)
    → IsDirectMap hhdm
    → IsMemMap hhdm es
    → IsUsable es p
    → IsMapped hhdm p × (0 < p)
usable-IsMapped hhdm es p direct map u =
    AreWhole-IsMapped hhdm (usable_ranges es) p map ((usable_in_lem hhdm direct es p map).0 u)

-- A write in the frame `p` leaves the first word of every other frame alone.
pub other_frame :
    (hhdm : ℕ) (p q a : ℕ) → va hhdm p ≤ a → a < va hhdm p + 2 ^ 12 → q ≢ p → va hhdm q ≢ a
other_frame hhdm p q a low high ne e = omega arith
