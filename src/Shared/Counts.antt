-- ===== src/Shared/Counts.antt =====
-- The middles of kernel/shared.h against the references that there are: counts, and the objects'
-- lives.
use networking_p.Prelude.{
  Member, IsDistinct, ℕ, ◌+◌, ◌<◌, ◌≡◌, ◌≢◌, ◌⊎◌, inl, inr, refl, ap, sym, ◌∙◌, subst, Option, none,
  some, ◌∷◌, ==_refl, ==-cases, ne→==, arith,
}
use networking_p.Shared.{Middle, Store, put, delete_object}

abbrev pub ptr_at : Option Middle → ℕ
ptr_at none = 0
ptr_at (some x) = x.ptr

-- A middle with `a` strong and `b` weak references, if there are any.
abbrev pub Holds : Option Middle → ℕ → ℕ → Type 0
Holds none a b = (a ≡ 0) × (b ≡ 0)
Holds (some x) a b =
    (x.strong_count ≡ a)
    × (x.weak_count ≡ b)
    × (0 < a + b)
    × (a ≡ 0 → x.ptr ≡ 0)
    × (0 < a → 0 < x.ptr)

-- `strong` and `weak` say how many references to each address there are.
pub record IsCounted (s : Store) (strong weak : ℕ → ℕ) : Type 0 where
  pub holds : (m : ℕ) → m ≢ 0 → Holds (s.middles m) (strong m) (weak m)
  pub alone :
      (m n : ℕ) → 0 < ptr_at (s.middles m) → ptr_at (s.middles m) ≡ ptr_at (s.middles n) → m ≡ n
  pub alive :
      (m : ℕ)
      → 0 < ptr_at (s.middles m)
      → Member (ptr_at (s.middles m)) s.made × (¬ Member (ptr_at (s.middles m)) s.deleted)
  pub once : IsDistinct s.deleted
  pub real : (t : ℕ) → Member t s.made → 0 < t
  pub history : (t : ℕ) → Member t s.deleted → Member t s.made
  pub kept :
      (t : ℕ)
      → Member t s.made
      → Member t s.deleted ⊎ ((m : ℕ) × m ≢ 0 × (ptr_at (s.middles m) ≡ t))

pub put_self : (m : ℕ) (x : Option Middle) (s : Store) → (put m x s).middles m ≡ x
unfolding put
put_self m x s = let same = ==_refl m in rw same refl

pub put_ne :
    (m : ℕ) (x : Option Middle) (s : Store) (n : ℕ) → n ≢ m → (put m x s).middles n ≡ s.middles n
unfolding put
put_ne m x s n ne = let other = ne→== n m ne in rw other refl

put_rest :
    (m : ℕ) (x : Option Middle) (s : Store)
    → ((put m x s).made ≡ s.made) × ((put m x s).deleted ≡ s.deleted)
unfolding put
put_rest m x s = (refl, refl)

module _ (s : Store) (strong weak : ℕ → ℕ) (h : IsCounted s strong weak) (m : ℕ) (x : Option Middle)
    (strong' weak' : ℕ → ℕ) (strong_off : (n : ℕ) → n ≢ m → strong' n ≡ strong n)
    (weak_off : (n : ℕ) → n ≢ m → weak' n ≡ weak n) (here : Holds x (strong' m) (weak' m)) where
  put-Holds : (n : ℕ) → n ≢ 0 → Holds ((put m x s).middles n) (strong' n) (weak' n)
  put-Holds n nz = elim (==-cases n m) [
    | inl e ↦
        subst (λ k. Holds ((put m x s).middles k) (strong' k) (weak' k)) (sym e)
          (rw (put_self m x s) here)
    | inr ne ↦ rw (put_ne m x s n ne, strong_off n ne, weak_off n ne) (h.holds n nz)
  ]

  -- The middle at `m` is replaced, and keeps its object.
  pub put-IsCounted : ptr_at x ≡ ptr_at (s.middles m) → IsCounted (put m x s) strong' weak'
  unfolding put
  put-IsCounted e = record {
    holds = put-Holds;
    alone = λ a b pos q. h.alone a b (subst (λ t. 0 < t) (same a) pos) (sym (same a) ∙ q ∙ same b);
    alive = λ a pos.
        subst (λ t. Member t s.made × (¬ Member t s.deleted)) (sym (same a))
          (h.alive a (subst (λ t. 0 < t) (same a) pos));
    once = h.once;
    real = h.real;
    history = h.history;
    kept = λ t i. elim (h.kept t i) [ inl d ↦ inl d | inr p ↦ inr (p.0, p.1, same p.0 ∙ p.2) ];
  }
    where
      same : (a : ℕ) → ptr_at ((put m x s).middles a) ≡ ptr_at (s.middles a)
      same a = elim (==-cases a m) [
        | inl q ↦
            ap (λ k. ptr_at ((put m x s).middles k)) q
            ∙ ap ptr_at (put_self m x s)
            ∙ e
            ∙ ap (λ k. ptr_at (s.middles k)) (sym q)
        | inr ne ↦ ap ptr_at (put_ne m x s a ne)
      ]

  -- The object of the middle at `m` is deleted.
  pub delete-IsCounted :
      (t : ℕ)
      → t ≡ ptr_at (s.middles m)
      → 0 < t
      → ptr_at x ≡ 0
      → IsCounted (delete_object t (put m x s)) strong' weak'
  unfolding put delete_object
  delete-IsCounted t e pos z =
      let nonzero = ne→== t 0 (λ q. omega arith) in
      rw (delete_object, nonzero)
        (record {
          holds = put-Holds;
          alone = λ a b p q. elim (==-cases a m) [
            | inl am ↦ absurd (nothing a am p)
            | inr am ↦ elim (==-cases b m) [
              | inl bm ↦ absurd (nothing b bm (subst (λ k. 0 < k) q p))
              | inr bm ↦
                  h.alone a b (subst (λ k. 0 < k) (same a am) p) (sym (same a am) ∙ q ∙ same b bm)
            ]
          ];
          alive = λ a p. elim (==-cases a m) [
            | inl am ↦ absurd (nothing a am p)
            | inr am ↦ old a am (subst (λ k. 0 < k) (same a am) p)
          ];
          once = (
            subst (λ k. ¬ Member k s.deleted) (sym e) (h.alive m (subst (λ k. 0 < k) e pos)).1,
            h.once,
          );
          real = h.real;
          history = λ u i. elim i [
            | inl q ↦
                subst (λ k. Member k s.made) (sym (q ∙ e)) (h.alive m (subst (λ k. 0 < k) e pos)).0
            | inr d ↦ h.history u d
          ];
          kept = λ u i. elim (h.kept u i) [
            | inl d ↦ inl (inr d)
            | inr p ↦ elim (==-cases p.0 m) [
              | inl pm ↦ inl (inl (sym p.2 ∙ ap (λ k. ptr_at (s.middles k)) pm ∙ sym e))
              | inr pm ↦ inr (p.0, p.1, same p.0 pm ∙ p.2)
            ]
          ];
        })
    where
      same : (a : ℕ) → a ≢ m → ptr_at ((put m x s).middles a) ≡ ptr_at (s.middles a)
      same a ne = ap ptr_at (put_ne m x s a ne)

      nothing : (a : ℕ) → a ≡ m → ¬ 0 < ptr_at ((put m x s).middles a)
      nothing a q p =
          let zero_here : ptr_at ((put m x s).middles a) ≡ 0 =
            ap (λ k. ptr_at ((put m x s).middles k)) q ∙ ap ptr_at (put_self m x s) ∙ z in
          omega arith

      old :
          (a : ℕ)
          → a ≢ m
          → 0 < ptr_at (s.middles a)
          → Member (ptr_at ((put m x s).middles a)) s.made
            × (¬ Member (ptr_at ((put m x s).middles a)) (t ∷ s.deleted))
      old a ne p = (
        subst (λ k. Member k s.made) (sym (same a ne)) (h.alive a p).0,
        λ i. elim i [
          | inl q ↦ ne (h.alone a m p (sym (same a ne) ∙ q ∙ e))
          | inr d ↦ (h.alive a p).1 (subst (λ k. Member k s.deleted) (same a ne) d)
        ],
      )

  -- A middle is made at a free address for a new object.
  pub make-IsCounted :
      (t : ℕ)
      → m ≢ 0
      → s.middles m ≡ none
      → ptr_at x ≡ t
      → 0 < t
      → (¬ Member t s.made)
      → IsCounted (record (put m x s) { made = t ∷ s.made }) strong' weak'
  unfolding put
  make-IsCounted t nz free e pos fresh = record {
    holds = put-Holds;
    alone = λ a b p q. elim (==-cases a m) [
      | inl am ↦ elim (==-cases b m) [
        | inl bm ↦ am ∙ sym bm
        | inr bm ↦ absurd (newer b bm (sym q ∙ mine a am))
      ]
      | inr am ↦ elim (==-cases b m) [
        | inl bm ↦ absurd (newer a am (q ∙ mine b bm))
        | inr bm ↦ h.alone a b (subst (λ k. 0 < k) (same a am) p) (sym (same a am) ∙ q ∙ same b bm)
      ]
    ];
    alive = λ a p. elim (==-cases a m) [
      | inl am ↦ (
        inl (mine a am),
        λ d. fresh (h.history t (subst (λ k. Member k s.deleted) (mine a am) d)),
      )
      | inr am ↦
          let old = h.alive a (subst (λ k. 0 < k) (same a am) p) in
          (
            inr (subst (λ k. Member k s.made) (sym (same a am)) old.0),
            λ d. old.1 (subst (λ k. Member k s.deleted) (same a am) d),
          )
    ];
    once = h.once;
    real = λ u i. elim i [ inl q ↦ subst (λ k. 0 < k) (sym q) pos | inr i' ↦ h.real u i' ];
    history = λ u i. inr (h.history u i);
    kept = λ u i. elim i [
      | inl q ↦ inr (m, nz, mine m refl ∙ sym q)
      | inr i' ↦ elim (h.kept u i') [
        | inl d ↦ inl d
        | inr p ↦ elim (==-cases p.0 m) [
          | inl pm ↦
              absurd (lost u i' (sym p.2 ∙ ap (λ k. ptr_at (s.middles k)) pm ∙ ap ptr_at free))
          | inr pm ↦ inr (p.0, p.1, same p.0 pm ∙ p.2)
        ]
      ]
    ];
  }
    where
      same : (a : ℕ) → a ≢ m → ptr_at ((put m x s).middles a) ≡ ptr_at (s.middles a)
      same a ne = ap ptr_at (put_ne m x s a ne)

      mine : (a : ℕ) → a ≡ m → ptr_at ((put m x s).middles a) ≡ t
      mine a q = ap (λ k. ptr_at ((put m x s).middles k)) q ∙ ap ptr_at (put_self m x s) ∙ e

      newer : (a : ℕ) → a ≢ m → ptr_at ((put m x s).middles a) ≢ t
      newer a ne q =
          let here_t = sym (same a ne) ∙ q in
          fresh (
            subst (λ k. Member k s.made) here_t (h.alive a (subst (λ k. 0 < k) (sym here_t) pos)).0)

      lost : (u : ℕ) → Member u s.made → u ≢ 0
      lost u i q = let positive = h.real u i in omega arith
