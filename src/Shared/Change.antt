-- ===== src/Shared/Change.antt =====
-- `Middle::add_strong` and `add_weak` of kernel/shared.h on middles whose counts are right.
-- whose counts are right.
use networking_p.Prelude.{
  ℕ, ◌+◌, ◌^◌, ◌<◌, ◌≡◌, ◌⊎◌, inl, inr, refl, ap, sym, ltb, ◌==◌, some, ==_iff, ==-cases, ne→==,
  Bool-cases, arith,
}
use networking_p.Prelude.Words.{u64}
use networking_p.Shared.{Middle, Store, put, add_strong, add_weak}
use networking_p.Shared.Counts.{ptr_at, Holds, IsCounted, put-IsCounted}
use networking_p.Shared.Update.{
  IsCounted-refs, plus, plus_off, plus_here, SameRefs, null_plus, present, held,
}

module _ (s : Store) (strong weak : ℕ → ℕ) (h : IsCounted s strong weak) (m : ℕ) where
  -- `add_strong` gives the middle if it has a strong reference, and else null.
  pub add_strong-IsCounted :
      (m ≡ 0) ⊎ (0 < strong m + weak m)
      → strong m + 1 < 2 ^ 64
      → (p : ℕ) × (t : Store) × (add_strong m s ≡ some (p, t))
        × IsCounted t (plus strong p) weak
        × SameRefs s t
  unfolding add_strong put
  add_strong-IsCounted ok small = elim (==-cases m 0) [
    | inl z ↦
        let null = (==_iff m 0).1 z in (0, s, rw (add_strong, null) refl, without, (refl, refl))
    | inr nz ↦
        let (x, e) =
          present s strong weak h m nz (elim ok [ inl z ↦ absurd (nz z) | inr pos ↦ pos ]) in
        let there = ne→== m 0 nz in
        let counts = held s strong weak h m x nz e in
        elim (Bool-cases (ltb 0 x.strong_count)) [
          | inr unowned ↦ (0, s, rw (add_strong, there, e, unowned) refl, without, (refl, refl))
          | inl owned ↦ (
            m,
            put m (some (record x { strong_count = u64 (x.strong_count + 1) })) s,
            rw (add_strong, there, e, owned) refl,
            put-IsCounted s strong weak h m
                (some (record x { strong_count = u64 (x.strong_count + 1) })) (plus strong m) weak
                (plus_off strong m) (λ n ne. refl) (more x counts (ground (arith, owned)))
                (ap ptr_at (sym e)),
            (refl, refl),
          )
        ]
  ]
    where
      without : IsCounted s (plus strong 0) weak
      without =
          IsCounted-refs s strong weak (plus strong 0) weak s.strong s.weak h (null_plus strong)
            (λ n nz. refl)

      more :
          (x : Middle)
          → Holds (some x) (strong m) (weak m)
          → 0 < x.strong_count
          → Holds
              (some (record x { strong_count = u64 (x.strong_count + 1) }))
              (plus strong m m)
              (weak m)
      more x c owned =
          let up = plus_here strong m in
          rw up (
            omega (arith, c.0),
            c.1,
            omega arith,
            λ z. absurd (omega arith),
            λ pos. c.4 (omega (arith, c.0)),
          )

  -- `add_weak` gives the middle if it still has its object, and else null.
  pub add_weak-IsCounted :
      (m ≡ 0) ⊎ (0 < strong m + weak m)
      → weak m + 1 < 2 ^ 64
      → (p : ℕ) × (t : Store) × (add_weak m s ≡ some (p, t))
        × IsCounted t strong (plus weak p)
        × SameRefs s t
  unfolding add_weak put
  add_weak-IsCounted ok small = elim (==-cases m 0) [
    | inl z ↦ let null = (==_iff m 0).1 z in (0, s, rw (add_weak, null) refl, without, (refl, refl))
    | inr nz ↦
        let (x, e) =
          present s strong weak h m nz (elim ok [ inl z ↦ absurd (nz z) | inr pos ↦ pos ]) in
        let there = ne→== m 0 nz in
        let counts = held s strong weak h m x nz e in
        elim (Bool-cases (x.ptr == 0)) [
          | inl empty ↦ (0, s, rw (add_weak, there, e, empty) refl, without, (refl, refl))
          | inr full ↦ (
            m,
            put m (some (record x { weak_count = u64 (x.weak_count + 1) })) s,
            rw (add_weak, there, e, full) refl,
            put-IsCounted s strong weak h m
                (some (record x { weak_count = u64 (x.weak_count + 1) })) strong (plus weak m)
                (λ n ne. refl) (plus_off weak m) (more x counts) (ap ptr_at (sym e)),
            (refl, refl),
          )
        ]
  ]
    where
      without : IsCounted s strong (plus weak 0)
      without =
          IsCounted-refs s strong weak strong (plus weak 0) s.strong s.weak h (λ n nz. refl)
            (null_plus weak)

      more :
          (x : Middle)
          → Holds (some x) (strong m) (weak m)
          → Holds
              (some (record x { weak_count = u64 (x.weak_count + 1) }))
              (strong m)
              (plus weak m m)
      more x c = let up = plus_here weak m in rw up (c.0, omega (arith, c.1), omega arith, c.3, c.4)
