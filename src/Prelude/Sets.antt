-- ===== src/Prelude/Sets.antt =====
-- Functions of numbers with one value changed, such as sets as Boolean functions.
use Prim.Native.Nat.{ℕ, zero, suc, ◌+◌, ◌≤◌, ◌<◌}
use mathlib.Core.Path.{◌≡◌, refl, ap, sym, ◌∙◌, fun_ext}
use mathlib.Core.Logic.{◌≢◌, inl, inr}
use mathlib.Core.Bool.{Bool, true, false, false≢true}
use native.Mathlib.Omega.{arith}
use networking_p.Prelude.Conds.{◌==◌, if◌then◌else◌, ==_refl, ne→==, ==-cases, Bool-cases}
use networking_p.Prelude.Lists.{one_if}

module _ {ℓ} {A : Type ℓ} where
  unfoldable pub updated : (ℕ → A) → ℕ → A → ℕ → A
  updated f p a q = if q == p then a else f q

  pub updated_self : (f : ℕ → A) (p : ℕ) (a : A) → updated f p a p ≡ a
  unfolding updated
  updated_self f p a = let same = ==_refl p in rw same refl

  pub updated_ne : (f : ℕ → A) (p q : ℕ) (a : A) → q ≢ p → updated f p a q ≡ f q
  unfolding updated
  updated_ne f p q a ne = let other = ne→== q p ne in rw other refl

pub updated_same {ℓ} : {A : Type ℓ} → (f : ℕ → A) (p : ℕ) (a : A) → f p ≡ a → updated f p a ≡ f
updated_same f p a here = fun_ext λ q. elim (==-cases q p) [
  | inl e ↦ ap (updated f p a) e ∙ updated_self f p a ∙ sym (ap f e ∙ here)
  | inr ne ↦ updated_ne f p q a ne
]

-- A set without one of its numbers.
pub removed_parts : (f : ℕ → Bool) (p q : ℕ) → updated f p false q ≡ true → (q ≢ p) × (f q ≡ true)
removed_parts f p q r = elim (==-cases q p) [
  | inl e ↦ absurd (false≢true (sym (updated_self f p false) ∙ ap (updated f p false) (sym e) ∙ r))
  | inr ne ↦ (ne, sym (updated_ne f p q false ne) ∙ r)
]

-- How many numbers below `k` are in the set.
abbrev pub card : ℕ → (ℕ → Bool) → ℕ
card zero p = 0
card (suc k) p = card k p + one_if (p k)

pub card_bound : (k : ℕ) (p : ℕ → Bool) → card k p ≤ k
card_bound zero p = omega arith
card_bound (suc k) p =
    let rest = card_bound k p in
    elim (Bool-cases (p k)) [ inl e ↦ rw e (omega arith) | inr e ↦ rw e (omega arith) ]

module _ (p q : ℕ → Bool) (sub : (i : ℕ) → p i ≡ true → q i ≡ true) where
  one_mono : (i : ℕ) → one_if (p i) ≤ one_if (q i)
  one_mono i = elim (Bool-cases (p i)) [
    | inl e ↦ let e' = sub i e in rw (e, e') (omega arith)
    | inr e ↦ rw e (omega arith)
  ]

  pub card_mono : (k : ℕ) → card k p ≤ card k q
  card_mono zero = omega arith
  card_mono (suc k) = omega (arith, card_mono k, one_mono k)

  -- A set with a number more is larger.
  pub card_less : (k i : ℕ) → i < k → p i ≡ false → q i ≡ true → card k p < card k q
  card_less zero i lt e e' = absurd (omega arith)
  card_less (suc k) i lt e e' = elim (==-cases i k) [
    | inl same ↦
        let here : p k ≡ false = ap p (sym same) ∙ e in
        let there : q k ≡ true = ap q (sym same) ∙ e' in
        rw (here, there) (omega (arith, card_mono k))
    | inr ne ↦ omega (arith, card_less k i (omega arith) e e', one_mono k)
  ]
