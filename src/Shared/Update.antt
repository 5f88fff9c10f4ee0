-- ===== src/Shared/Update.antt =====
-- Counts that go up or down by one reference, for the middles of kernel/shared.h.
-- whose counts are right.
use networking_p.Prelude.{
  ℕ, ◌+◌, ◌-◌, ◌<◌, ◌≡◌, ◌≢◌, inl, inr, refl, sym, ◌∙◌, subst, ◌==◌, one_if, some, List, ==_refl,
  ne→==, Option-cases, Bool-cases, arith,
}
use networking_p.Shared.{Middle, Store, delete_object}
use networking_p.Shared.Counts.{Holds, IsCounted}

-- The references and the counts of the null pointer do not matter.
pub IsCounted-refs :
    (s : Store) (strong weak strong' weak' : ℕ → ℕ) (xs ys : List ℕ)
    → IsCounted s strong weak
    → ((n : ℕ) → n ≢ 0 → strong' n ≡ strong n)
    → ((n : ℕ) → n ≢ 0 → weak' n ≡ weak n)
    → IsCounted (record s { strong = xs; weak = ys }) strong' weak'
IsCounted-refs s strong weak strong' weak' xs ys h e f = record {
  holds = λ m nz. rw (e m nz, f m nz) (h.holds m nz);
  alone = h.alone;
  alive = h.alive;
  once = h.once;
  real = h.real;
  history = h.history;
  kept = h.kept;
}

abbrev pub plus : (ℕ → ℕ) → ℕ → ℕ → ℕ
plus f m n = f n + one_if (m == n)

abbrev pub minus : (ℕ → ℕ) → ℕ → ℕ → ℕ
minus f m n = f n - one_if (m == n)

pub plus_off : (f : ℕ → ℕ) (m n : ℕ) → n ≢ m → plus f m n ≡ f n
plus_off f m n ne = let other = ne→== m n (λ e. ne (sym e)) in ground (arith, other)

pub minus_off : (f : ℕ → ℕ) (m n : ℕ) → n ≢ m → minus f m n ≡ f n
minus_off f m n ne = let other = ne→== m n (λ e. ne (sym e)) in ground (arith, other)

pub plus_here : (f : ℕ → ℕ) (m : ℕ) → plus f m m ≡ f m + 1
plus_here f m = let same = ==_refl m in ground (arith, same)

pub minus_here : (f : ℕ → ℕ) (m : ℕ) → minus f m m ≡ f m - 1
minus_here f m = let same = ==_refl m in ground (arith, same)

-- The references stay as they are.
abbrev pub SameRefs : Store → Store → Type 0
SameRefs s t = (t.strong ≡ s.strong) × (t.weak ≡ s.weak)

pub delete-SameRefs : (t : ℕ) (s : Store) → SameRefs s (delete_object t s)
unfolding delete_object
delete-SameRefs t s = elim (Bool-cases (t == 0)) [
  | inl e ↦ rw (delete_object, e) (refl, refl)
  | inr e ↦ rw (delete_object, e) (refl, refl)
]

pub null_plus : (f : ℕ → ℕ) (n : ℕ) → n ≢ 0 → plus f 0 n ≡ f n
null_plus f n nz = plus_off f 0 n nz

pub null_minus : (f : ℕ → ℕ) (m n : ℕ) → m ≡ 0 → n ≢ 0 → minus f m n ≡ f n
null_minus f m n z nz = minus_off f m n (λ e. nz (e ∙ z))

module _ (s : Store) (strong weak : ℕ → ℕ) (h : IsCounted s strong weak) (m : ℕ) where
  -- A middle with references is there.
  pub present : m ≢ 0 → 0 < strong m + weak m → (x : Middle) × (s.middles m ≡ some x)
  present nz pos = elim (Option-cases (s.middles m)) [
    | inl e ↦
        let gone = subst (λ o. Holds o (strong m) (weak m)) e (h.holds m nz) in absurd (omega arith)
    | inr p ↦ p
  ]

  pub held : (x : Middle) → m ≢ 0 → s.middles m ≡ some x → Holds (some x) (strong m) (weak m)
  held x nz e = subst (λ o. Holds o (strong m) (weak m)) e (h.holds m nz)
