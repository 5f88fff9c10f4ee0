-- ===== src/PhysMem/Memory.antt =====
-- Words and frames in the memory of kernel/physmem.cc: what `alloc` clears, and the list of free
-- frames that runs through their first words.
use networking_p.Prelude.{
  ℕ, zero, suc, ◌+◌, ◌-◌, ◌*◌, ◌%◌, ◌^◌, ◌≤◌, ◌<◌, ◌≡◌, ◌≢◌, ◌⊎◌, refl, ◌∙◌, true, leb, some,
  ==_refl, ne→==, arith,
}
use networking_p.PhysMem.{write, zero_words, frame_va, frame_ppn, check_canonical}

pub write_self : (m : ℕ → ℕ) (a v : ℕ) → write m a v a ≡ v
unfolding write
write_self m a v = let same = ==_refl a in rw same refl

pub write_ne : (m : ℕ → ℕ) (a v x : ℕ) → x ≢ a → write m a v x ≡ m x
unfolding write
write_ne m a v x ne = let other = ne→== x a ne in rw other refl

pub zero_words_outside :
    (m : ℕ → ℕ) (a n x : ℕ) → (x < a) ⊎ (a + 8 * n ≤ x) → zero_words m a n x ≡ m x
unfolding zero_words
zero_words_outside m a zero x out = refl
zero_words_outside m a (suc n) x out =
    zero_words_outside (write m a 0) (a + 8) n x (omega arith) ∙ write_ne m a 0 x (λ e. omega arith)

pub zero_words_inside : (m : ℕ → ℕ) (a n i : ℕ) → i < n → zero_words m a n (a + 8 * i) ≡ 0
unfolding zero_words
zero_words_inside m a zero i h = absurd (omega arith)
zero_words_inside m a (suc n) zero h =
    let here : a + 8 * 0 ≡ a = omega arith in
    rw here (zero_words_outside (write m a 0) (a + 8) n a (omega arith) ∙ write_self m a 0)
zero_words_inside m a (suc n) (suc i) h =
    let there : a + 8 * suc i ≡ (a + 8) + 8 * i = omega arith in
    rw there (zero_words_inside (write m a 0) (a + 8) n i (omega arith))

-- The direct map begins at a frame's boundary in the upper half of the addresses.
pub record IsDirectMap (hhdm : ℕ) : Type 0 where
  pub upper : 2 ^ 64 - 2 ^ 47 ≤ hhdm
  pub word : hhdm < 2 ^ 64
  pub aligned : hhdm % 2 ^ 12 ≡ 0

-- A frame that the direct map reaches.
abbrev pub IsMapped : ℕ → ℕ → Type 0
IsMapped hhdm ppn = hhdm + (ppn + 1) * 2 ^ 12 ≤ 2 ^ 64

abbrev pub va : ℕ → ℕ → ℕ
va hhdm ppn = hhdm + ppn * 2 ^ 12

module _ (hhdm : ℕ) (direct : IsDirectMap hhdm) where
  pub frame_va_lem : (ppn : ℕ) → IsMapped hhdm ppn → frame_va hhdm ppn ≡ va hhdm ppn
  frame_va_lem ppn h = omega (arith, direct.upper, direct.word)

  pub frame_ppn_lem : (ppn : ℕ) → IsMapped hhdm ppn → frame_ppn hhdm (va hhdm ppn) ≡ ppn
  unfolding frame_ppn
  frame_ppn_lem ppn h = omega (arith, direct.upper, direct.word)

  pub canonical : (ppn : ℕ) → IsMapped hhdm ppn → check_canonical (va hhdm ppn) ≡ some (va hhdm ppn)
  unfolding check_canonical
  canonical ppn h =
      let high : leb (2 ^ 64 - 2 ^ 47) (va hhdm ppn) ≡ true = ground (arith, direct.upper) in
      ground (arith, high)
