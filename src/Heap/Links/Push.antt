-- ===== src/Heap/Links/Push.antt =====
-- The end of `makeAvail` of kernel/heap.cc puts a block at the head of the list.
use networking_p.Prelude.{
  ℕ, ◌+◌, ◌≤◌, ◌<◌, ◌≡◌, ◌≢◌, ◌⊎◌, inl, inr, refl, ap, sym, ◌∙◌, subst, Bool, true, ==-cases, arith,
}
use networking_p.Prelude.Sets.{updated, updated_self, updated_ne}
use networking_p.Heap.{Heap, push}
use networking_p.Heap.Links.{IsLinked}
use networking_p.Heap.Links.Pushed.{
  pushed, pushed_next, pushed_prev, pushed_link, pushed_other, pushed_rest, push_lem,
}

module _ (h : Heap) (free : ℕ → Bool) (rank : ℕ → ℕ) (l : IsLinked h free rank) (x : ℕ)
    (low : 0 < x) (high : x + 4 ≤ h.len)
    (far : (i : ℕ) → free i ≡ true → (i + 4 ≤ x) ⊎ (x + 4 ≤ i)) where
  after : Heap
  after = pushed x h

  more : ℕ → Bool
  more = updated free x true

  higher : ℕ → ℕ
  higher = updated rank x (rank h.avail + 1)

  out : (i : ℕ) → free i ≡ true → (i ≢ x) × (x + 1 ≢ i + 2) × (i + 1 ≢ x + 2)
  out i fi = elim (far i fi) [
    | inl c ↦ (λ e. omega arith, λ e. omega arith, λ e. omega arith)
    | inr c ↦ (λ e. omega arith, λ e. omega arith, λ e. omega arith)
  ]

  avail_or : (P : ℕ → Type 0) → ((i : ℕ) → free i ≡ true → P i) → (h.avail ≡ 0) ⊎ P h.avail
  avail_or P all = elim (==-cases h.avail 0) [
    | inl z ↦ inl z
    | inr nz ↦ inr (all h.avail (l.head_free nz).0)
  ]

  x_next : after.array (x + 1) ≡ h.avail
  unfolding after
  x_next = pushed_next x h (avail_or (λ i. x + 1 ≢ i + 2) (λ i fi. (out i fi).1))

  x_prev : after.array (x + 2) ≡ 0
  unfolding after
  x_prev = pushed_prev x h (avail_or (λ i. x ≢ i) (λ i fi e. (out i fi).0 (sym e)))

  nexts : (i : ℕ) → free i ≡ true → after.array (i + 1) ≡ h.array (i + 1)
  unfolding after
  nexts i fi =
      pushed_other x h (i + 1) (λ e. (out i fi).0 (omega arith)) (out i fi).2
        (avail_or (λ j. i + 1 ≢ j + 2)
          (λ j fj e. let apart = l.spread j i fj fi (omega arith) in omega arith))

  prevs :
      (i : ℕ)
      → free i ≡ true
      → ((i ≡ h.avail) × (after.array (i + 2) ≡ x))
        ⊎ ((i ≢ h.avail) × (after.array (i + 2) ≡ h.array (i + 2)))
  unfolding after
  prevs i fi = elim (==-cases i h.avail) [
    | inl e ↦
        let nz : h.avail ≢ 0 = λ z. omega (arith, (l.inside i fi).0) in
        inl (e, ap (λ k. after.array (k + 2)) e ∙ pushed_link x h nz)
    | inr ne ↦ inr (
      ne,
      pushed_other x h (i + 2) (λ e. (out i fi).1 (sym e)) (λ e. (out i fi).0 (omega arith))
          (inr (λ e. ne (omega arith))),
    )
  ]

  which : (i : ℕ) → more i ≡ true → (i ≡ x) ⊎ ((i ≢ x) × (free i ≡ true))
  unfolding more
  which i m = elim (==-cases i x) [
    | inl e ↦ inl e
    | inr ne ↦ inr (ne, sym (updated_ne free x i true ne) ∙ m)
  ]

  mine : more x ≡ true
  unfolding more
  mine = updated_self free x true

  theirs : (i : ℕ) → free i ≡ true → more i ≡ true
  unfolding more
  theirs i fi = updated_ne free x i true (out i fi).0 ∙ fi

  high_x : higher x ≡ rank h.avail + 1
  unfolding higher
  high_x = updated_self rank x (rank h.avail + 1)

  high_old : (i : ℕ) → i ≢ x → higher i ≡ rank i
  unfolding higher
  high_old i ne = updated_ne rank x i (rank h.avail + 1) ne

  higher_top : (j : ℕ) → more j ≡ true → higher j ≤ higher x
  higher_top j m = elim (which j m) [
    | inl e ↦ omega (arith, ap higher e)
    | inr (ne, fj) ↦ let old = l.top j fj in omega (arith, high_x, high_old j ne)
  ]

  more_next :
      (i : ℕ)
      → more i ≡ true
      → after.array (i + 1) ≢ 0
      → (more (after.array (i + 1)) ≡ true)
        × (after.array (after.array (i + 1) + 2) ≡ i)
        × (higher (after.array (i + 1)) < higher i)
  more_next i m nz = elim (which i m) [
    | inl e ↦
        let same : after.array (i + 1) ≡ h.avail = ap (λ k. after.array (k + 1)) e ∙ x_next in
        let fa = (l.head_free (λ z. nz (same ∙ z))).0 in
        rw same (
          theirs h.avail fa,
          elim (prevs h.avail fa) [ inl (q, w) ↦ w ∙ sym e | inr (q, w) ↦ absurd (q refl) ],
          omega (arith, ap higher e, high_x, high_old h.avail (out h.avail fa).0),
        )
    | inr (ne, fi) ↦
        let same = nexts i fi in
        let old = l.next_free i fi (λ z. nz (same ∙ z)) in
        rw same (
          theirs (h.array (i + 1)) old.0,
          elim (prevs (h.array (i + 1)) old.0) [
            | inl (q, w) ↦
                let an : h.avail ≢ 0 = λ z. nz (same ∙ q ∙ z) in
                absurd (
                  omega (
                    arith,
                    (l.inside i fi).0,
                    sym old.1 ∙ ap (λ k. h.array (k + 2)) q ∙ (l.head_free an).1,
                  ))
            | inr (q, w) ↦ w ∙ old.1
          ],
          omega (
            arith,
            old.2,
            high_old i ne,
            high_old (h.array (i + 1)) (out (h.array (i + 1)) old.0).0,
          ),
        )
  ]

  more_prev :
      (i : ℕ)
      → more i ≡ true
      → after.array (i + 2) ≢ 0
      → (more (after.array (i + 2)) ≡ true) × (after.array (after.array (i + 2) + 1) ≡ i)
  more_prev i m nz = elim (which i m) [
    | inl e ↦ absurd (nz (ap (λ k. after.array (k + 2)) e ∙ x_prev))
    | inr (ne, fi) ↦ elim (prevs i fi) [
      | inl (q, w) ↦ rw w (mine, x_next ∙ sym q)
      | inr (q, w) ↦
          let old = l.prev_free i fi (λ z. nz (w ∙ z)) in
          rw w (theirs (h.array (i + 2)) old.0, nexts (h.array (i + 2)) old.0 ∙ old.1)
    ]
  ]

  more_front : (i : ℕ) → more i ≡ true → after.array (i + 2) ≡ 0 → x ≡ i
  more_front i m z = elim (which i m) [
    | inl e ↦ sym e
    | inr (ne, fi) ↦ elim (prevs i fi) [
      | inl (q, w) ↦ absurd (omega (arith, low, sym w ∙ z))
      | inr (q, w) ↦ absurd (q (sym (l.front i fi (sym w ∙ z))))
    ]
  ]

  more_tight :
      (i j : ℕ)
      → more i ≡ true
      → more j ≡ true
      → higher j < higher i
      → (after.array (i + 1) ≢ 0) × (higher j ≤ higher (after.array (i + 1)))
  more_tight i j m m' lt = elim (which i m) [
    | inl e ↦ elim (which j m') [
      | inl e' ↦ absurd (omega (arith, ap higher (e ∙ sym e')))
      | inr (ne, fj) ↦
          let same : after.array (i + 1) ≡ h.avail = ap (λ k. after.array (k + 1)) e ∙ x_next in
          let old = l.top j fj in
          rw same (
            old.0,
            omega (
              arith,
              old.1,
              high_old j ne,
              high_old h.avail (out h.avail (l.head_free old.0).0).0,
            ),
          )
    ]
    | inr (ne, fi) ↦ elim (which j m') [
      | inl e ↦ let old = l.top i fi in absurd (omega (arith, ap higher e, high_x, high_old i ne))
      | inr (ne', fj) ↦
          let old = l.tight i j fi fj (omega (arith, high_old i ne, high_old j ne')) in
          let below = l.next_free i fi old.0 in
          rw (nexts i fi) (
            old.0,
            omega (
              arith,
              old.1,
              high_old j ne',
              high_old (h.array (i + 1)) (out (h.array (i + 1)) below.0).0,
            ),
          )
    ]
  ]

  more_distinct : (i j : ℕ) → more i ≡ true → more j ≡ true → higher i ≡ higher j → i ≡ j
  more_distinct i j m m' e = elim (which i m) [
    | inl p ↦ elim (which j m') [
      | inl q ↦ p ∙ sym q
      | inr (ne, fj) ↦
          let old = l.top j fj in absurd (omega (arith, ap higher p, high_x, high_old j ne))
    ]
    | inr (ne, fi) ↦ elim (which j m') [
      | inl q ↦ let old = l.top i fi in absurd (omega (arith, ap higher q, high_x, high_old i ne))
      | inr (ne', fj) ↦ l.distinct i j fi fj (sym (high_old i ne) ∙ e ∙ high_old j ne')
    ]
  ]

  more_spread : (i j : ℕ) → more i ≡ true → more j ≡ true → i < j → i + 4 ≤ j
  more_spread i j m m' lt = elim (which i m) [
    | inl p ↦ elim (which j m') [
      | inl q ↦ absurd (omega arith)
      | inr (ne, fj) ↦ elim (far j fj) [ inl c ↦ absurd (omega arith) | inr c ↦ omega arith ]
    ]
    | inr (ne, fi) ↦ elim (which j m') [
      | inl q ↦ elim (far i fi) [ inl c ↦ omega arith | inr c ↦ absurd (omega arith) ]
      | inr (ne', fj) ↦ l.spread i j fi fj lt
    ]
  ]

  IsLinked-pushed : IsLinked after more higher
  unfolding after
  IsLinked-pushed =
      let len = (pushed_rest x h).0 in
      record {
        small = omega (arith, l.small);
        inside = λ i m.
            rw len (elim (which i m) [ inl e ↦ omega (arith, low, high) | inr p ↦ l.inside i p.1 ]);
        spread = more_spread;
        top = λ j m. (λ z. omega (arith, low), higher_top j m);
        head_free = λ nz. (mine, x_prev);
        next_free = more_next;
        prev_free = more_prev;
        front = more_front;
        tight = more_tight;
        distinct = more_distinct;
      }

  push-pushed : push x h ≡ after
  unfolding after
  push-pushed = push_lem x h (omega (arith, l.small)) (elim (==-cases h.avail 0) [
    | inl z ↦ omega arith
    | inr nz ↦ let in_heap = l.inside h.avail (l.head_free nz).0 in omega (arith, l.small)
  ])

  pub IsLinked-push : IsLinked (push x h) (updated free x true) (updated rank x (rank h.avail + 1))
  unfolding after more higher
  IsLinked-push = subst (λ g. IsLinked g more higher) (sym push-pushed) IsLinked-pushed

  -- Only the links of the block and of free blocks are written.
  pub push-other :
      (k : ℕ)
      → k ≢ x + 1
      → k ≢ x + 2
      → ((i : ℕ) → free i ≡ true → k ≢ i + 2)
      → (push x h).array k ≡ h.array k
  unfolding after
  push-other k ne ne' other =
      ap (λ (g : Heap). g.array k) push-pushed
      ∙ pushed_other x h k ne ne' (avail_or (λ i. k ≢ i + 2) other)

  pub push_rest :
      ((push x h).len ≡ h.len)
      × ((push x h).base ≡ h.base)
      × ((push x h).n_malloc ≡ h.n_malloc)
      × ((push x h).n_free ≡ h.n_free)
  unfolding after
  push_rest = rw push-pushed (pushed_rest x h)
