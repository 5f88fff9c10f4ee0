-- ===== src/Shared/Returns.antt =====
-- Writes to the reference variables of kernel/shared.h, and the constructors.
use networking_p.Prelude.{
  ℕ, zero, suc, ◌+◌, ◌^◌, ◌≤◌, ◌<◌, ◌≡◌, ◌≢◌, ◌⊎◌, inl, inr, refl, ap, ◌∙◌, subst, ◌==◌, count,
  count-set, count_bound, Option, some, List, [], ◌∷◌, length, length-set, get_or, set, ==_iff,
  ==_refl, ==-cases, ne→==, Bool-cases, arith,
}
use networking_p.Shared.{
  Store, Ref, strong_ref, weak_ref, middle_of, strong_at, weak_at, construct_strong, construct_weak,
}
use networking_p.Shared.Counts.{IsCounted}
use networking_p.Shared.Update.{IsCounted-refs, plus, minus, SameRefs}
use networking_p.Shared.Change.{add_strong-IsCounted, add_weak-IsCounted}

-- The counts are those of the references that there are.
pub record IsStore (s : Store) : Type 0 where
  pub counted : IsCounted s (λ m. count m s.strong) (λ m. count m s.weak)
  pub strong_room : length s.strong < 2 ^ 63
  pub weak_room : length s.weak < 2 ^ 63

count_here : (xs : List ℕ) (i : ℕ) → i < length xs → 0 < count (get_or xs i 0) xs
count_here [] i lt = absurd (omega arith)
count_here (x ∷ xs) zero lt = let same = ==_refl x in rw same (omega arith)
count_here (x ∷ xs) (suc i) lt =
    let rest = count_here xs i (omega arith) in
    elim (Bool-cases (x == get_or xs i 0)) [ inl e ↦ rw e (omega arith) | inr e ↦ rw e rest ]

pub count_ref : (xs : List ℕ) (j : ℕ) → (get_or xs j 0 ≡ 0) ⊎ (0 < count (get_or xs j 0) xs)
count_ref [] j = inl refl
count_ref (x ∷ xs) zero = let same = ==_refl x in rw same (inr (omega arith))
count_ref (x ∷ xs) (suc j) = elim (count_ref xs j) [
  | inl e ↦ inl e
  | inr pos ↦
      inr (elim (Bool-cases (x == get_or xs j 0)) [ inl e ↦ rw e (omega arith) | inr e ↦ rw e pos ])
]

-- A variable is written over.
count-replace :
    (xs : List ℕ) (i p n : ℕ)
    → i < length xs
    → count n (set xs i p) ≡ plus (minus (λ m. count m xs) (get_or xs i 0)) p n
count-replace xs i p n lt =
    let change = count-set n xs i p lt in
    elim (==-cases (get_or xs i 0) n) [
      | inl e ↦
          let here = subst (λ m. 0 < count m xs) e (count_here xs i lt) in
          let same = (==_iff (get_or xs i 0) n).1 e in ground (arith, change, here, same)
      | inr ne ↦ let other = ne→== (get_or xs i 0) n ne in ground (arith, change, other)
    ]

pub middle-counted :
    (s : Store) (r : Ref)
    → (middle_of s r ≡ 0) ⊎ (0 < count (middle_of s r) s.strong + count (middle_of s r) s.weak)
unfolding middle_of
middle-counted s (strong_ref j) = elim (count_ref s.strong j) [
  | inl z ↦ inl z
  | inr p ↦ inr (omega arith)
]
middle-counted s (weak_ref j) = elim (count_ref s.weak j) [
  | inl z ↦ inl z
  | inr p ↦ inr (omega arith)
]

-- The operation does not stop, and leaves the counts right.
abbrev pub Returns : Option Store → Type 0
Returns o = (t : Store) × (o ≡ some t) × IsStore t

abbrev pub strong_counts : Store → ℕ → ℕ
strong_counts s n = count n s.strong

abbrev pub weak_counts : Store → ℕ → ℕ
weak_counts s n = count n s.weak

pub set_strong-IsStore :
    (s t : Store) (i p : ℕ) (c : ℕ → ℕ)
    → i < length s.strong
    → length s.strong < 2 ^ 63
    → length s.weak < 2 ^ 63
    → SameRefs s t
    → IsCounted t c (weak_counts s)
    → ((n : ℕ) → n ≢ 0 → plus (minus (strong_counts s) (strong_at s i)) p n ≡ c n)
    → IsStore (record t { strong = set t.strong i p })
set_strong-IsStore s t i p c lt room_s room_w same h e = record {
  counted =
      IsCounted-refs t c (weak_counts s) (λ n. count n (set t.strong i p)) (weak_counts t)
        (set t.strong i p) t.weak h
        (λ n nz. ap (λ xs. count n (set xs i p)) same.0 ∙ count-replace s.strong i p n lt ∙ e n nz)
        (λ n nz. ap (count n) same.1);
  strong_room = omega (arith, length-set t.strong i p, ap length same.0);
  weak_room = omega (arith, ap length same.1);
}

pub set_weak-IsStore :
    (s t : Store) (i p : ℕ) (c : ℕ → ℕ)
    → i < length s.weak
    → length s.strong < 2 ^ 63
    → length s.weak < 2 ^ 63
    → SameRefs s t
    → IsCounted t (strong_counts s) c
    → ((n : ℕ) → n ≢ 0 → plus (minus (weak_counts s) (weak_at s i)) p n ≡ c n)
    → IsStore (record t { weak = set t.weak i p })
set_weak-IsStore s t i p c lt room_s room_w same h e = record {
  counted =
      IsCounted-refs t (strong_counts s) c (strong_counts t) (λ n. count n (set t.weak i p))
        t.strong (set t.weak i p) h (λ n nz. ap (count n) same.0)
        (λ n nz. ap (λ xs. count n (set xs i p)) same.1 ∙ count-replace s.weak i p n lt ∙ e n nz);
  strong_room = omega (arith, ap length same.0);
  weak_room = omega (arith, length-set t.weak i p, ap length same.1);
}

minus_bound : (f : ℕ → ℕ) (m n k : ℕ) → f n ≤ k → minus f m n ≤ k
minus_bound f m n k h = omega arith

-- A construction where the variable's old reference is not counted any more.
pub construct_strong-Returns :
    (s t : Store) (i : ℕ) (r : Ref)
    → i < length s.strong
    → length s.strong < 2 ^ 63
    → length s.weak < 2 ^ 63
    → SameRefs s t
    → IsCounted t (minus (strong_counts s) (strong_at s i)) (weak_counts s)
    → (middle_of t r ≡ 0)
      ⊎ (0
          < minus (strong_counts s) (strong_at s i) (middle_of t r) + weak_counts s (middle_of t r))
    → Returns (construct_strong i r t)
unfolding construct_strong
construct_strong-Returns s t i r lt room_s room_w same h ok =
    let m = middle_of t r in
    let c = minus (strong_counts s) (strong_at s i) in
    let bound =
      minus_bound (strong_counts s) (strong_at s i) m (length s.strong) (count_bound m s.strong) in
    let (p, u, e, k, more) = add_strong-IsCounted t c (weak_counts s) h m ok (omega arith) in
    (
      record u { strong = set u.strong i p },
      rw e refl,
      set_strong-IsStore s u i p (plus c p) lt room_s room_w (more.0 ∙ same.0, more.1 ∙ same.1) k
          (λ n nz. refl),
    )

pub construct_weak-Returns :
    (s t : Store) (i : ℕ) (r : Ref)
    → i < length s.weak
    → length s.strong < 2 ^ 63
    → length s.weak < 2 ^ 63
    → SameRefs s t
    → IsCounted t (strong_counts s) (minus (weak_counts s) (weak_at s i))
    → (middle_of t r ≡ 0)
      ⊎ (0 < strong_counts s (middle_of t r) + minus (weak_counts s) (weak_at s i) (middle_of t r))
    → Returns (construct_weak i r t)
unfolding construct_weak
construct_weak-Returns s t i r lt room_s room_w same h ok =
    let m = middle_of t r in
    let c = minus (weak_counts s) (weak_at s i) in
    let bound =
      minus_bound (weak_counts s) (weak_at s i) m (length s.weak) (count_bound m s.weak) in
    let (p, u, e, k, more) = add_weak-IsCounted t (strong_counts s) c h m ok (omega arith) in
    (
      record u { weak = set u.weak i p },
      rw e refl,
      set_weak-IsStore s u i p (plus c p) lt room_s room_w (more.0 ∙ same.0, more.1 ∙ same.1) k
          (λ n nz. refl),
    )
