-- ===== src/Heap/Links/Remove.antt =====
-- `remove` of kernel/heap.cc takes a block out of the list.
use networking_p.Prelude.{
  ℕ, ◌+◌, ◌^◌, ◌≤◌, ◌<◌, ◌≡◌, ◌≢◌, ◌⊎◌, inl, inr, refl, ap, sym, ◌∙◌, subst, Bool, true, false,
  ==-cases, arith,
}
use networking_p.Prelude.Sets.{removed_parts, updated, updated_ne}
use networking_p.Heap.{Heap, remove}
use networking_p.Heap.Links.{IsLinked}
use networking_p.Heap.Links.Unlink.{
  unlinked, unlinked_other, unlinked_next, unlinked_prev, unlinked_avail, unlinked_len,
  unlinked_rest, remove_lem,
}

module _ (h : Heap) (free : ℕ → Bool) (rank : ℕ → ℕ) (l : IsLinked h free rank) (x : ℕ)
    (f : free x ≡ true) where
  after : Heap
  after = unlinked (h.array (x + 2)) (h.array (x + 1)) h

  -- Two free blocks have no link in common.
  apart : (i j : ℕ) → free i ≡ true → free j ≡ true → i + 1 ≢ j + 2
  apart i j fi fj e = let far = l.spread j i fj fi (omega arith) in omega arith

  c_free :
      h.array (x + 1) ≢ 0
      → (free (h.array (x + 1)) ≡ true)
        × (h.array (h.array (x + 1) + 2) ≡ x)
        × (rank (h.array (x + 1)) < rank x)
  c_free nz = l.next_free x f nz

  a_free :
      h.array (x + 2) ≢ 0 → (free (h.array (x + 2)) ≡ true) × (h.array (h.array (x + 2) + 1) ≡ x)
  a_free nz = l.prev_free x f nz

  a_above : h.array (x + 2) ≢ 0 → rank x < rank (h.array (x + 2))
  a_above nz =
      let old = a_free nz in
      let down =
        l.next_free (h.array (x + 2)) old.0 (λ e. omega (arith, (l.inside x f).0, old.1)) in
      subst (λ k. rank k < rank (h.array (x + 2))) old.1 down.2

  nexts :
      (i : ℕ)
      → free i ≡ true
      → ((i ≡ h.array (x + 2)) × (after.array (i + 1) ≡ h.array (x + 1)))
        ⊎ ((i ≢ h.array (x + 2)) × (after.array (i + 1) ≡ h.array (i + 1)))
  unfolding after
  nexts i fi = elim (==-cases i (h.array (x + 2))) [
    | inl e ↦
        let nz : h.array (x + 2) ≢ 0 = λ z. omega (arith, (l.inside i fi).0, e) in
        inl (
          e,
          ap (λ k. after.array (k + 1)) e
              ∙ unlinked_next h (h.array (x + 2)) (h.array (x + 1)) nz
                  (elim (==-cases (h.array (x + 1)) 0) [
                    | inl z ↦ inl z
                    | inr nz' ↦
                        inr (apart (h.array (x + 2)) (h.array (x + 1)) (a_free nz).0 (c_free nz').0)
                  ]),
        )
    | inr ne ↦ inr (
      ne,
      unlinked_other h (h.array (x + 2)) (h.array (x + 1)) (i + 1) (inr (λ e. ne (omega arith)))
          (elim (==-cases (h.array (x + 1)) 0) [
            | inl z ↦ inl z
            | inr nz ↦ inr (apart i (h.array (x + 1)) fi (c_free nz).0)
          ]),
    )
  ]

  prevs :
      (i : ℕ)
      → free i ≡ true
      → ((i ≡ h.array (x + 1)) × (after.array (i + 2) ≡ h.array (x + 2)))
        ⊎ ((i ≢ h.array (x + 1)) × (after.array (i + 2) ≡ h.array (i + 2)))
  unfolding after
  prevs i fi = elim (==-cases i (h.array (x + 1))) [
    | inl e ↦
        let nz : h.array (x + 1) ≢ 0 = λ z. omega (arith, (l.inside i fi).0, e) in
        inl (
          e,
          ap (λ k. after.array (k + 2)) e ∙ unlinked_prev h (h.array (x + 2)) (h.array (x + 1)) nz,
        )
    | inr ne ↦ inr (
      ne,
      unlinked_other h (h.array (x + 2)) (h.array (x + 1)) (i + 2)
          (elim (==-cases (h.array (x + 2)) 0) [
            | inl z ↦ inl z
            | inr nz ↦ inr (λ e. apart (h.array (x + 2)) i (a_free nz).0 fi (sym e))
          ])
          (inr (λ e. ne (omega arith))),
    )
  ]

  fronts :
      ((h.array (x + 2) ≡ 0) × (after.avail ≡ h.array (x + 1)))
      ⊎ ((h.array (x + 2) ≢ 0) × (after.avail ≡ h.avail))
  unfolding after
  fronts = unlinked_avail h (h.array (x + 2)) (h.array (x + 1))

  rest : ℕ → Bool
  rest = updated free x false

  kept : (i : ℕ) → rest i ≡ true → (i ≢ x) × (free i ≡ true)
  unfolding rest
  kept i r = removed_parts free x i r

  keep : (i : ℕ) → i ≢ x → free i ≡ true → rest i ≡ true
  unfolding rest
  keep i ne fi = updated_ne free x i false ne ∙ fi

  -- The rank of every other block lies on one side of that of `x`.
  below_x : (j : ℕ) → free j ≡ true → j ≢ x → rank j ≤ rank x → rank j < rank x
  below_x j fj ne le = elim (==-cases (rank j) (rank x)) [
    | inl e ↦ absurd (ne (l.distinct j x fj f e))
    | inr other ↦ omega arith
  ]

  rest_top : (j : ℕ) → rest j ≡ true → (after.avail ≢ 0) × (rank j ≤ rank after.avail)
  rest_top j r =
      let (ne, fj) = kept j r in
      let old = l.top j fj in
      elim fronts [
        | inl (z, e) ↦
            let at_x = l.front x f z in
            let lt = below_x j fj ne (subst (λ k. rank j ≤ rank k) at_x old.1) in
            rw e (l.tight x j f fj lt)
        | inr (nz, e) ↦ rw e old
      ]

  rest_head : after.avail ≢ 0 → (rest after.avail ≡ true) × (after.array (after.avail + 2) ≡ 0)
  rest_head nz = elim fronts [
    | inl (z, e) ↦
        let cn : h.array (x + 1) ≢ 0 = λ q. nz (e ∙ q) in
        let old = c_free cn in
        rw e (
          keep (h.array (x + 1)) (λ q. omega (arith, ap rank q)) old.0,
          elim (prevs (h.array (x + 1)) old.0) [
            | inl (q, w) ↦ w ∙ z
            | inr (q, w) ↦ absurd (q refl)
          ],
        )
    | inr (an, e) ↦
        let old = l.head_free (λ q. nz (e ∙ q)) in
        rw e (
          keep h.avail (λ q. an (ap (λ k. h.array (k + 2)) (sym q) ∙ old.1)) old.0,
          elim (prevs h.avail old.0) [
            | inl (q, w) ↦
                let cn : h.array (x + 1) ≢ 0 = λ z. nz (e ∙ q ∙ z) in
                absurd (positive (sym (c_free cn).1 ∙ ap (λ k. h.array (k + 2)) (sym q) ∙ old.1))
            | inr (q, w) ↦ w ∙ old.1
          ],
        )
  ]
    where
      positive : x ≢ 0
      positive z = omega (arith, (l.inside x f).0)

  rest_next :
      (i : ℕ)
      → rest i ≡ true
      → after.array (i + 1) ≢ 0
      → (rest (after.array (i + 1)) ≡ true)
        × (after.array (after.array (i + 1) + 2) ≡ i)
        × (rank (after.array (i + 1)) < rank i)
  rest_next i r nz =
      let (ne, fi) = kept i r in
      elim (nexts i fi) [
        | inl (q, w) ↦
            let cn : h.array (x + 1) ≢ 0 = λ z. nz (w ∙ z) in
            let an : h.array (x + 2) ≢ 0 = λ z. omega (arith, (l.inside i fi).0) in
            let old = c_free cn in
            let up = a_above an in
            rw w (
              keep (h.array (x + 1)) (λ e. omega (arith, ap rank e)) old.0,
              elim (prevs (h.array (x + 1)) old.0) [
                | inl (e, v) ↦ v ∙ sym q
                | inr (e, v) ↦ absurd (e refl)
              ],
              omega (arith, ap rank q),
            )
        | inr (q, w) ↦
            let old = l.next_free i fi (λ z. nz (w ∙ z)) in
            rw w (
              keep (h.array (i + 1)) (λ e. q (sym old.1 ∙ ap (λ k. h.array (k + 2)) e)) old.0,
              elim (prevs (h.array (i + 1)) old.0) [
                | inl (e, v) ↦
                    let cn : h.array (x + 1) ≢ 0 = λ z. nz (w ∙ e ∙ z) in
                    absurd (ne (sym old.1 ∙ ap (λ k. h.array (k + 2)) e ∙ (c_free cn).1))
                | inr (e, v) ↦ v ∙ old.1
              ],
              old.2,
            )
      ]

  rest_prev :
      (i : ℕ)
      → rest i ≡ true
      → after.array (i + 2) ≢ 0
      → (rest (after.array (i + 2)) ≡ true) × (after.array (after.array (i + 2) + 1) ≡ i)
  rest_prev i r nz =
      let (ne, fi) = kept i r in
      elim (prevs i fi) [
        | inl (q, w) ↦
            let an : h.array (x + 2) ≢ 0 = λ z. nz (w ∙ z) in
            let old = a_free an in
            let up = a_above an in
            rw w (
              keep (h.array (x + 2)) (λ e. omega (arith, ap rank e)) old.0,
              elim (nexts (h.array (x + 2)) old.0) [
                | inl (e, v) ↦ v ∙ sym q
                | inr (e, v) ↦ absurd (e refl)
              ],
            )
        | inr (q, w) ↦
            let old = l.prev_free i fi (λ z. nz (w ∙ z)) in
            rw w (
              keep (h.array (i + 2)) (λ e. q (sym old.1 ∙ ap (λ k. h.array (k + 1)) e)) old.0,
              elim (nexts (h.array (i + 2)) old.0) [
                | inl (e, v) ↦
                    let an : h.array (x + 2) ≢ 0 = λ z. nz (w ∙ e ∙ z) in
                    absurd (ne (sym old.1 ∙ ap (λ k. h.array (k + 1)) e ∙ (a_free an).1))
                | inr (e, v) ↦ v ∙ old.1
              ],
            )
      ]

  rest_front : (i : ℕ) → rest i ≡ true → after.array (i + 2) ≡ 0 → after.avail ≡ i
  rest_front i r z =
      let (ne, fi) = kept i r in
      elim (prevs i fi) [
        | inl (q, w) ↦ elim fronts [ inl (e, v) ↦ v ∙ sym q | inr (e, v) ↦ absurd (e (sym w ∙ z)) ]
        | inr (q, w) ↦
            let old = l.front i fi (sym w ∙ z) in
            elim fronts [
              | inl (e, v) ↦ absurd (ne (sym old ∙ l.front x f e))
              | inr (e, v) ↦ v ∙ old
            ]
      ]

  rest_tight :
      (i j : ℕ)
      → rest i ≡ true
      → rest j ≡ true
      → rank j < rank i
      → (after.array (i + 1) ≢ 0) × (rank j ≤ rank (after.array (i + 1)))
  rest_tight i j r r' lt =
      let (ne, fi) = kept i r in
      let (ne', fj) = kept j r' in
      let old = l.tight i j fi fj lt in
      elim (nexts i fi) [
        | inl (q, w) ↦
            let an : h.array (x + 2) ≢ 0 = λ z. omega (arith, (l.inside i fi).0) in
            let at_x : h.array (i + 1) ≡ x = ap (λ k. h.array (k + 1)) q ∙ (a_free an).1 in
            let lt' = below_x j fj ne' (subst (λ k. rank j ≤ rank k) at_x old.1) in
            rw w (l.tight x j f fj lt')
        | inr (q, w) ↦ rw w old
      ]

  IsLinked-unlinked : IsLinked after rest rank
  unfolding after
  IsLinked-unlinked =
      let len = unlinked_len h (h.array (x + 2)) (h.array (x + 1)) in
      record {
        small = omega (arith, l.small);
        inside = λ i r. rw len (l.inside i (kept i r).1);
        spread = λ i j r r'. l.spread i j (kept i r).1 (kept j r').1;
        top = rest_top;
        head_free = rest_head;
        next_free = rest_next;
        prev_free = rest_prev;
        front = rest_front;
        tight = rest_tight;
        distinct = λ i j r r'. l.distinct i j (kept i r).1 (kept j r').1;
      }

  bounded : (i : ℕ) → free i ≡ true → i < 2 ^ 63
  bounded i fi = omega (arith, l.small, (l.inside i fi).1)

  remove-unlinked : remove x h ≡ after
  unfolding after
  remove-unlinked =
      remove_lem h x (bounded x f)
        (elim (==-cases (h.array (x + 2)) 0) [
          | inl z ↦ omega arith
          | inr nz ↦ bounded (h.array (x + 2)) (a_free nz).0
        ])
        (elim (==-cases (h.array (x + 1)) 0) [
          | inl z ↦ omega arith
          | inr nz ↦ bounded (h.array (x + 1)) (c_free nz).0
        ])

  pub IsLinked-remove : IsLinked (remove x h) (updated free x false) rank
  unfolding after rest
  IsLinked-remove = subst (λ g. IsLinked g rest rank) (sym remove-unlinked) IsLinked-unlinked

  -- Only links of free blocks are written.
  pub remove-other :
      (k : ℕ)
      → ((i : ℕ) → free i ≡ true → (k ≢ i + 1) × (k ≢ i + 2))
      → (remove x h).array k ≡ h.array k
  unfolding after
  remove-other k out =
      ap (λ (g : Heap). g.array k) remove-unlinked
      ∙ unlinked_other h (h.array (x + 2)) (h.array (x + 1)) k
          (elim (==-cases (h.array (x + 2)) 0) [
            | inl z ↦ inl z
            | inr nz ↦ inr (out (h.array (x + 2)) (a_free nz).0).0
          ])
          (elim (==-cases (h.array (x + 1)) 0) [
            | inl z ↦ inl z
            | inr nz ↦ inr (out (h.array (x + 1)) (c_free nz).0).1
          ])

  pub remove_rest :
      ((remove x h).len ≡ h.len)
      × ((remove x h).base ≡ h.base)
      × ((remove x h).n_malloc ≡ h.n_malloc)
      × ((remove x h).n_free ≡ h.n_free)
  unfolding after
  remove_rest =
      let others = unlinked_rest h (h.array (x + 2)) (h.array (x + 1)) in
      rw remove-unlinked
        (unlinked_len h (h.array (x + 2)) (h.array (x + 1)), others.0, others.1, others.2)
