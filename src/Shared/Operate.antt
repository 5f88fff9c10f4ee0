-- ===== src/Shared/Operate.antt =====
-- The operations on the references of kernel/shared.h: each returns, and leaves the counts right.
use networking_p.Prelude.{
  Member, ℕ, ◌+◌, ◌<◌, ◌≡◌, ◌≢◌, ◌⊎◌, inl, inr, refl, ap, sym, ◌∙◌, subst, ◌==◌, one_if, none, some,
  ◌∷◌, length, get_or, set, ==_iff, ==_refl, ==-cases, ne→==, arith,
}
use networking_p.Shared.{
  Middle, Store, put, Ref, strong_ref, weak_ref, middle_of, strong_at, weak_at, construct_strong,
  construct_weak, make_strong, clear_strong, clear_weak, assign_strong, assign_weak,
}
use networking_p.Shared.Counts.{Holds, make-IsCounted}
use networking_p.Shared.Update.{IsCounted-refs, plus, minus, SameRefs, plus_off, minus_off}
use networking_p.Shared.Drop.{remove_strong-IsCounted, remove_weak-IsCounted}
use networking_p.Shared.Returns.{
  IsStore, Returns, strong_counts, weak_counts, count_ref, middle-counted, set_strong-IsStore,
  set_weak-IsStore, construct_strong-Returns, construct_weak-Returns,
}

module _ (s : Store) (h : IsStore s) where
  middle_of-same : (t : Store) (r : Ref) → SameRefs s t → middle_of t r ≡ middle_of s r
  unfolding middle_of
  middle_of-same t (strong_ref j) same = ap (λ xs. get_or xs j 0) same.0
  middle_of-same t (weak_ref j) same = ap (λ xs. get_or xs j 0) same.1

  other-counted :
      (f g : ℕ → ℕ) (m n : ℕ)
      → m ≢ n
      → (n ≡ 0) ⊎ (0 < f n + g n)
      → (n ≡ 0) ⊎ (0 < minus f m n + g n)
  other-counted f g m n ne ok =
      let same = minus_off f m n (λ e. ne (sym e)) in
      elim ok [ inl z ↦ inl z | inr p ↦ inr (omega arith) ]

  weak_counted :
      (m n : ℕ)
      → m ≢ n
      → (n ≡ 0) ⊎ (0 < strong_counts s n + weak_counts s n)
      → (n ≡ 0) ⊎ (0 < strong_counts s n + minus (weak_counts s) m n)
  weak_counted m n ne ok =
      let same = minus_off (weak_counts s) m n (λ e. ne (sym e)) in
      elim ok [ inl z ↦ inl z | inr p ↦ inr (omega arith) ]

  -- Construction of a variable that is null.
  pub fresh_strong-Returns :
      (i : ℕ) (r : Ref) → i < length s.strong → strong_at s i ≡ 0 → Returns (construct_strong i r s)
  fresh_strong-Returns i r lt null =
      let none_gone = λ (n : ℕ) (nz : n ≢ 0).
        minus_off (strong_counts s) (strong_at s i) n (λ e. nz (e ∙ null)) in
      construct_strong-Returns s s i r lt h.strong_room h.weak_room (refl, refl)
        (IsCounted-refs s (strong_counts s) (weak_counts s)
          (minus (strong_counts s) (strong_at s i)) (weak_counts s) s.strong s.weak h.counted
          none_gone (λ n nz. refl))
        (elim (==-cases (strong_at s i) (middle_of s r)) [
          | inl e ↦ inl (sym e ∙ null)
          | inr ne ↦
              other-counted (strong_counts s) (weak_counts s) (strong_at s i) (middle_of s r) ne
                (middle-counted s r)
        ])

  pub fresh_weak-Returns :
      (i : ℕ) (r : Ref) → i < length s.weak → weak_at s i ≡ 0 → Returns (construct_weak i r s)
  fresh_weak-Returns i r lt null =
      let none_gone =
        λ (n : ℕ) (nz : n ≢ 0). minus_off (weak_counts s) (weak_at s i) n (λ e. nz (e ∙ null)) in
      construct_weak-Returns s s i r lt h.strong_room h.weak_room (refl, refl)
        (IsCounted-refs s (strong_counts s) (weak_counts s) (strong_counts s)
          (minus (weak_counts s) (weak_at s i)) s.strong s.weak h.counted (λ n nz. refl) none_gone)
        (elim (==-cases (weak_at s i) (middle_of s r)) [
          | inl e ↦ inl (sym e ∙ null)
          | inr ne ↦ weak_counted (weak_at s i) (middle_of s r) ne (middle-counted s r)
        ])

  pub clear_strong-Returns : (i : ℕ) → i < length s.strong → Returns (clear_strong i s)
  unfolding clear_strong
  clear_strong-Returns i lt =
      let (t, e, k, same) =
        remove_strong-IsCounted s (strong_counts s) (weak_counts s) h.counted (strong_at s i)
          (count_ref s.strong i) in
      (
        record t { strong = set t.strong i 0 },
        rw e refl,
        set_strong-IsStore s t i 0 (minus (strong_counts s) (strong_at s i)) lt h.strong_room
            h.weak_room same k (λ n nz. plus_off (minus (strong_counts s) (strong_at s i)) 0 n nz),
      )

  pub clear_weak-Returns : (i : ℕ) → i < length s.weak → Returns (clear_weak i s)
  unfolding clear_weak
  clear_weak-Returns i lt =
      let (t, e, k, same) =
        remove_weak-IsCounted s (strong_counts s) (weak_counts s) h.counted (weak_at s i)
          (count_ref s.weak i) in
      (
        record t { weak = set t.weak i 0 },
        rw e refl,
        set_weak-IsStore s t i 0 (minus (weak_counts s) (weak_at s i)) lt h.strong_room h.weak_room
            same k (λ n nz. plus_off (minus (weak_counts s) (weak_at s i)) 0 n nz),
      )

  pub assign_strong-Returns :
      (i : ℕ) (r : Ref) → i < length s.strong → Returns (assign_strong i r s)
  unfolding assign_strong
  assign_strong-Returns i r lt = elim (==-cases (strong_at s i) (middle_of s r)) [
    | inl e ↦
        let same = (==_iff (strong_at s i) (middle_of s r)).1 e in
        rw (assign_strong, same) (s, refl, h)
    | inr ne ↦
        let other = ne→== (strong_at s i) (middle_of s r) ne in
        let (t, e, k, same) =
          remove_strong-IsCounted s (strong_counts s) (weak_counts s) h.counted (strong_at s i)
            (count_ref s.strong i) in
        rw (assign_strong, other, e)
          (construct_strong-Returns s t i r lt h.strong_room h.weak_room same k (
            rw (middle_of-same t r same) (
              other-counted (strong_counts s) (weak_counts s) (strong_at s i) (middle_of s r) ne
                (middle-counted s r))))
  ]

  pub assign_weak-Returns : (i : ℕ) (r : Ref) → i < length s.weak → Returns (assign_weak i r s)
  unfolding assign_weak
  assign_weak-Returns i r lt = elim (==-cases (weak_at s i) (middle_of s r)) [
    | inl e ↦
        let same = (==_iff (weak_at s i) (middle_of s r)).1 e in rw (assign_weak, same) (s, refl, h)
    | inr ne ↦
        let other = ne→== (weak_at s i) (middle_of s r) ne in
        let (t, e, k, same) =
          remove_weak-IsCounted s (strong_counts s) (weak_counts s) h.counted (weak_at s i)
            (count_ref s.weak i) in
        rw (assign_weak, other, e)
          (construct_weak-Returns s t i r lt h.strong_room h.weak_room same k (
            rw (middle_of-same t r same)
              (weak_counted (weak_at s i) (middle_of s r) ne (middle-counted s r))))
  ]

  -- A new object with its first reference.
  pub make_strong-IsStore :
      (i t m : ℕ)
      → i < length s.strong
      → strong_at s i ≡ 0
      → 0 < t
      → (¬ Member t s.made)
      → m ≢ 0
      → s.middles m ≡ none
      → IsStore (make_strong i t m s)
  unfolding make_strong put
  make_strong-IsStore i t m lt null pos fresh nz free =
      let x : Middle = record { ptr = t; strong_count = 1; weak_count = 0 } in
      let unused =
        subst (λ o. Holds o (strong_counts s m) (weak_counts s m)) free (h.counted.holds m nz) in
      let one = ==_refl m in
      set_strong-IsStore s (record (put m (some x) s) { made = t ∷ s.made }) i m
        (plus (strong_counts s) m) lt h.strong_room h.weak_room (refl, refl)
        (make-IsCounted s (strong_counts s) (weak_counts s) h.counted m (some x)
          (plus (strong_counts s) m) (weak_counts s) (λ n ne. plus_off (strong_counts s) m n ne)
          (λ n ne. refl)
          (
            ground (arith, one, unused.0),
            sym unused.1,
            ground (arith, one),
            λ z. absurd (ground (arith, one, z)),
            λ p. pos,
          )
          t nz free refl pos fresh)
        (λ n nz'.
          ap (λ k. k + one_if (m == n))
            (minus_off (strong_counts s) (strong_at s i) n (λ e. nz' (e ∙ null))))
