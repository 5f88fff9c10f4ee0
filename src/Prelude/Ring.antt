-- ===== src/Prelude/Ring.antt =====
-- Rings of eight places in a list: the items from a place on, and what a write does to them.
-- The chat queues and the rings of the driver both have eight places.
use Prim.Native.Nat.{ℕ, zero, suc, ◌+◌, ◌-◌, ◌%◌, ◌<◌}
use mathlib.Core.Path.{◌≡◌, refl, ap, ap₂}
use mathlib.Core.Logic.{◌≢◌}
use mathlib.Core.List.{List, [], ◌∷◌, ◌++◌}
use native.Mathlib.Omega.{arith}
use networking_p.Prelude.Lists.{length, get_or, set, get_or-set_self, get_or-set_ne}

module _ {ℓ} {A : Type ℓ} (d : A) where
  -- `n` items from place `h` on.
  unfoldable pub window : List A → ℕ → ℕ → List A
  window buf h zero = []
  window buf h (suc n) = get_or buf (h % 8) d ∷ window buf (h + 1) n

  pub length-window : (buf : List A) (h n : ℕ) → length (window buf h n) ≡ n
  unfolding window
  length-window buf h zero = refl
  length-window buf h (suc n) = ap suc (length-window buf (h + 1) n)

  -- Only the place modulo eight counts.
  pub window_mod : (buf : List A) (h k n : ℕ) → h % 8 ≡ k % 8 → window buf h n ≡ window buf k n
  unfolding window
  window_mod buf h k zero e = refl
  window_mod buf h k (suc n) e =
      ap₂ ◌∷◌ (ap (λ (i : ℕ). get_or buf i d) e) (window_mod buf (h + 1) (k + 1) n (omega arith))

  -- A write outside of the window leaves it alone.
  pub window-set_out :
      (buf : List A) (x : A) (i n h : ℕ)
      → ((j : ℕ) → j < n → i ≢ (h + j) % 8)
      → window (set buf i x) h n ≡ window buf h n
  unfolding window
  window-set_out buf x i zero h out = refl
  window-set_out buf x i (suc n) h out =
      ap₂ ◌∷◌ (get_or-set_ne buf i (h % 8) x d (λ e. out 0 (omega arith) (omega arith)))
        (window-set_out buf x i n (h + 1) (λ j lt e. out (suc j) (omega arith) (omega arith)))

  -- A write just past the window makes it longer by the item.
  pub window-set_end :
      (buf : List A) (x : A) (i n h : ℕ)
      → length buf ≡ 8
      → n < 8
      → i ≡ (h + n) % 8
      → window (set buf i x) h (suc n) ≡ window buf h n ++ x ∷ []
  unfolding window
  window-set_end buf x i zero h size lt e =
      let here : h % 8 ≡ i = omega arith in
      ap (λ (y : A). y ∷ []) (rw here (get_or-set_self buf i x d (omega arith)))
  window-set_end buf x i (suc n) h size lt e =
      ap₂ ◌∷◌ (get_or-set_ne buf i (h % 8) x d (λ q. absurd (omega arith)))
        (window-set_end buf x i n (h + 1) size (omega arith) (omega arith))

  -- The first item, and the rest.
  pub window_first :
      (buf : List A) (h n : ℕ)
      → 0 < n
      → window buf h n ≡ get_or buf (h % 8) d ∷ window buf (h + 1) (n - 1)
  unfolding window
  window_first buf h zero pos = absurd (omega arith)
  window_first buf h (suc n) pos = ap (λ (k : ℕ). window buf h (suc k)) (omega arith)
