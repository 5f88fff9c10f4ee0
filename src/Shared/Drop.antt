-- ===== src/Shared/Drop.antt =====
-- `Middle::remove_strong` and `remove_weak` of kernel/shared.h on middles whose counts are right.
-- whose counts are right.
use networking_p.Prelude.{
  ℕ, ◌-◌, ◌<◌, ◌≡◌, ◌⊎◌, inl, inr, refl, ap, sym, ◌∙◌, ◌&&◌, ◌==◌, if◌then◌else◌, Option, none,
  some, ==_iff, ==-cases, ne→==, Bool-cases, lt→ltb, arith,
}
use networking_p.Shared.{Middle, Store, put, remove_strong, drop_strong, remove_weak, drop_weak}
use networking_p.Shared.Counts.{ptr_at, Holds, IsCounted, put-IsCounted, delete-IsCounted}
use networking_p.Shared.Update.{
  IsCounted-refs, minus, minus_off, minus_here, SameRefs, delete-SameRefs, null_minus, present,
  held,
}

module _ (s : Store) (strong weak : ℕ → ℕ) (h : IsCounted s strong weak) (m : ℕ) where
  -- The last strong reference: what is left of the middle.
  emptied : Middle → Option Middle
  emptied x =
      if x.weak_count == 0
      then none
      else some (record { ptr = 0; strong_count = 0; weak_count = x.weak_count })

  emptied-Holds :
      (x : Middle)
      → strong m ≡ 1
      → x.weak_count ≡ weak m
      → Holds (emptied x) (minus strong m m) (weak m) × (ptr_at (emptied x) ≡ 0)
  unfolding emptied
  emptied-Holds x one e =
      let none_left : minus strong m m ≡ 0 = minus_here strong m ∙ omega arith in
      elim (Bool-cases (x.weak_count == 0)) [
        | inl z ↦ rw (z, none_left) ((refl, sym e ∙ (==_iff x.weak_count 0).0 z), refl)
        | inr nz ↦
            rw (nz, none_left)
              ((refl, e, ground (arith, e, nz), λ q. refl, λ pos. absurd (omega arith)), refl)
      ]

  drop_strong-IsCounted :
      (x : Middle)
      → 0 < strong m
      → s.middles m ≡ some x
      → Holds (some x) (strong m) (weak m)
      → IsCounted (drop_strong m x s) (minus strong m) weak × SameRefs s (drop_strong m x s)
  unfolding drop_strong put emptied
  drop_strong-IsCounted x pos e c = elim (Bool-cases (x.strong_count - 1 == 0)) [
    | inl last ↦
        let left = emptied-Holds x (ground (arith, last, c.0, pos)) c.1 in
        rw (drop_strong, last)
          (
            delete-IsCounted s strong weak h m (emptied x) (minus strong m) weak
                (minus_off strong m) (λ n ne. refl) left.0 x.ptr (ap ptr_at (sym e)) (c.4 pos)
                left.1,
            delete-SameRefs x.ptr (put m (emptied x) s),
          )
    | inr more ↦
        rw (drop_strong, more)
          (
            put-IsCounted s strong weak h m (some (record x { strong_count = x.strong_count - 1 }))
                (minus strong m) weak (minus_off strong m) (λ n ne. refl)
                (rw (minus_here strong m) (
                  ap (λ n. n - 1) c.0,
                  c.1,
                  ground (arith, more, c.0, pos),
                  λ z. absurd (ground (arith, more, c.0, pos, z)),
                  λ q. c.4 pos,
                ))
                (ap ptr_at (sym e)),
            (refl, refl),
          )
  ]

  drop_weak-IsCounted :
      (x : Middle)
      → 0 < weak m
      → s.middles m ≡ some x
      → Holds (some x) (strong m) (weak m)
      → IsCounted (drop_weak m x s) strong (minus weak m) × SameRefs s (drop_weak m x s)
  unfolding drop_weak put
  drop_weak-IsCounted x pos e c = elim (Bool-cases (x.weak_count - 1 == 0 && x.strong_count == 0)) [
    | inl last ↦
        rw (drop_weak, last)
          (
            put-IsCounted s strong weak h m none strong (minus weak m) (λ n ne. refl)
                (minus_off weak m)
                (rw (minus_here weak m) (ground (arith, last, c.0), ground (arith, last, c.1)))
                (sym (ap ptr_at e ∙ c.3 (ground (arith, last, c.0)))),
            (refl, refl),
          )
    | inr more ↦
        rw (drop_weak, more)
          (
            put-IsCounted s strong weak h m (some (record x { weak_count = x.weak_count - 1 }))
                strong (minus weak m) (λ n ne. refl) (minus_off weak m)
                (rw (minus_here weak m)
                  (c.0, ap (λ n. n - 1) c.1, ground (arith, more, c.0, c.1, pos), c.3, c.4))
                (ap ptr_at (sym e)),
            (refl, refl),
          )
  ]

  -- `remove_strong` deletes the object with the last strong reference to it, and frees the middle
  -- if no weak one is left.
  pub remove_strong-IsCounted :
      (m ≡ 0) ⊎ (0 < strong m)
      → (t : Store) × (remove_strong m s ≡ some t)
        × IsCounted t (minus strong m) weak
        × SameRefs s t
  unfolding remove_strong
  remove_strong-IsCounted ok = elim (==-cases m 0) [
    | inl z ↦
        let null = (==_iff m 0).1 z in
        (
          s,
          rw (remove_strong, null) refl,
          IsCounted-refs s strong weak (minus strong m) weak s.strong s.weak h
              (λ n nz. null_minus strong m n z nz) (λ n nz. refl),
          (refl, refl),
        )
    | inr nz ↦
        let pos : 0 < strong m = elim ok [ inl z ↦ absurd (nz z) | inr p ↦ p ] in
        let (x, e) = present s strong weak h m nz (omega arith) in
        let there = ne→== m 0 nz in
        let counts = held s strong weak h m x nz e in
        let owned = lt→ltb 0 x.strong_count (omega (arith, counts.0)) in
        let after = drop_strong-IsCounted x pos e counts in
        (drop_strong m x s, rw (remove_strong, there, e, owned) refl, after.0, after.1)
  ]

  -- `remove_weak` frees the middle with the last reference of either kind.
  pub remove_weak-IsCounted :
      (m ≡ 0) ⊎ (0 < weak m)
      → (t : Store) × (remove_weak m s ≡ some t) × IsCounted t strong (minus weak m) × SameRefs s t
  unfolding remove_weak
  remove_weak-IsCounted ok = elim (==-cases m 0) [
    | inl z ↦
        let null = (==_iff m 0).1 z in
        (
          s,
          rw (remove_weak, null) refl,
          IsCounted-refs s strong weak strong (minus weak m) s.strong s.weak h (λ n nz. refl)
              (λ n nz. null_minus weak m n z nz),
          (refl, refl),
        )
    | inr nz ↦
        let pos : 0 < weak m = elim ok [ inl z ↦ absurd (nz z) | inr p ↦ p ] in
        let (x, e) = present s strong weak h m nz (omega arith) in
        let there = ne→== m 0 nz in
        let counts = held s strong weak h m x nz e in
        let owned = lt→ltb 0 x.weak_count (omega (arith, counts.1)) in
        let after = drop_weak-IsCounted x pos e counts in
        (drop_weak m x s, rw (remove_weak, there, e, owned) refl, after.0, after.1)
  ]
