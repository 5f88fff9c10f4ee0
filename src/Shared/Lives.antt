-- ===== src/Shared/Lives.antt =====
-- When the objects and the middles of kernel/shared.h go.
use networking_p.Prelude.{
  Member, IsDistinct, ℕ, ◌^◌, ◌<◌, ◌≡◌, ◌≢◌, ◌↔◌, inl, inr, refl, ap, sym, ◌∙◌, subst, count, none,
  some, Option-cases, some_inj, not_some, List, get_or, ==-cases, arith,
}
use networking_p.Shared.{Store, strong_at, weak_at, dereference}
use networking_p.Shared.Counts.{ptr_at, Holds}
use networking_p.Shared.Returns.{IsStore, strong_counts, weak_counts}
use networking_p.Shared.Runs.{
  Reach, Reach-IsStore, find-count, count_at, dereference-some, dereference_lem,
}

-- Some strong reference leads to the object.
abbrev pub IsReferred : Store → ℕ → Type 0
IsReferred s t = (i : ℕ) × (dereference i s ≡ some t)

dereference-null : (s : Store) (i : ℕ) → strong_at s i ≡ 0 → dereference i s ≡ none
unfolding dereference
dereference-null s i e = rw (dereference, e) refl

module _ (k l : ℕ) (room_s : k < 2 ^ 63) (room_w : l < 2 ^ 63) (s : Store) (r : Reach k l s) where
  h : IsStore s
  h = Reach-IsStore k l room_s room_w s r

  -- An object in a middle has a strong reference.
  referred : (t m : ℕ) → 0 < t → m ≢ 0 → ptr_at (s.middles m) ≡ t → IsReferred s t
  referred t m pos nz e = elim (Option-cases (s.middles m)) [
    | inl gone ↦ absurd (empty (sym e ∙ ap ptr_at gone))
    | inr p ↦
        let there =
          subst (λ o. Holds o (strong_counts s m) (weak_counts s m)) p.1 (h.counted.holds m nz) in
        let object : p.0.ptr ≡ t = ap ptr_at (sym p.1) ∙ e in
        elim (==-cases (strong_counts s m) 0) [
          | inl z ↦ absurd (empty (sym object ∙ there.3 z))
          | inr some_left ↦
              let (i, at) = find-count m s.strong (omega arith) in
              (
                i,
                dereference-some k l room_s room_w s r i p.0 (λ z. nz (sym at ∙ z))
                      (ap s.middles at ∙ p.1) (there.4 (omega arith))
                    ∙ ap some object,
              )
        ]
  ]
    where
      empty : t ≢ 0
      empty z = omega arith

  -- With fewer than 2^63 variables of each kind, after any run on references to objects that hold no
  -- references themselves: no object is deleted twice, and one that was constructed is deleted exactly
  -- if no strong reference leads to it.
  pub deleted_lem :
      IsDistinct s.deleted × ((t : ℕ) → Member t s.made → Member t s.deleted ↔ (¬ IsReferred s t))
  deleted_lem = (
    h.counted.once,
    λ t made. (
      λ d p. elim (==-cases (strong_at s p.0) 0) [
        | inl z ↦ not_some (sym (dereference-null s p.0 z) ∙ p.1)
        | inr nz ↦
            let (u, e, m, alive) = dereference_lem k l room_s room_w s r p.0 nz in
            alive (subst (λ x. Member x s.deleted) (some_inj (sym p.1 ∙ e)) d)
      ],
      λ no. elim (h.counted.kept t made) [
        | inl d ↦ d
        | inr p ↦ absurd (no (referred t p.0 (h.counted.real t made) p.1 p.2))
      ],
    ),
  )

  -- With fewer than 2^63 variables of each kind, after any run on references to objects that hold no
  -- references themselves: the middle at an address is freed, or was never made, exactly if no
  -- reference of either kind holds the address.
  pub freed_lem :
      (m : ℕ)
      → m ≢ 0
      → (s.middles m ≡ none) ↔ (((i : ℕ) → strong_at s i ≢ m) × ((i : ℕ) → weak_at s i ≢ m))
  freed_lem m nz = (
    λ gone.
        let counts =
          subst (λ o. Holds o (strong_counts s m) (weak_counts s m)) gone (h.counted.holds m nz) in
        (unused s.strong counts.0, unused s.weak counts.1),
    λ no. elim (Option-cases (s.middles m)) [
      | inl gone ↦ gone
      | inr p ↦
          let there =
            subst (λ o. Holds o (strong_counts s m) (weak_counts s m)) p.1 (h.counted.holds m nz) in
          elim (==-cases (strong_counts s m) 0) [
            | inl z ↦ let (i, at) = find-count m s.weak (omega arith) in absurd (no.1 i at)
            | inr some_left ↦
                let (i, at) = find-count m s.strong (omega arith) in absurd (no.0 i at)
          ]
    ],
  )
    where
      unused : (xs : List ℕ) → count m xs ≡ 0 → (i : ℕ) → get_or xs i 0 ≢ m
      unused xs z i at =
          let pos = subst (λ n. 0 < count n xs) at (count_at xs i (λ e. nz (sym at ∙ e))) in
          omega arith
