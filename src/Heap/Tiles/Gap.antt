-- ===== src/Heap/Tiles/Gap.antt =====
-- The gap between the blocks of the heap of kernel/heap.cc: blocks are taken out and written.
use networking_p.Prelude.{
  ℕ, ◌-◌, ◌≤◌, ◌<◌, ◌≡◌, ◌≢◌, ◌⊎◌, inl, inr, ap, sym, ◌∙◌, Bool, true, false, ==-cases, order-cases,
  arith,
}
use networking_p.Prelude.Sets.{removed_parts, updated, updated_ne}
use networking_p.Heap.{Heap, size}
use networking_p.Heap.Tiles.{end_of, IsTiled, IsInner, inner_end}

-- How the gap grows when the block at `i` is taken out.
abbrev pub Grows : Heap → ℕ → ℕ → ℕ → ℕ → ℕ → Type 0
Grows h i lo hi lo' hi' =
    ((lo ≡ hi) × (lo' ≡ i) × (hi' ≡ end_of h i))
    ⊎ (((lo < hi) × (lo ≡ end_of h i) × (lo' ≡ i) × (hi' ≡ hi))
        ⊎ ((lo < hi) × (hi ≡ i) × (lo' ≡ lo) × (hi' ≡ end_of h i)))

module _ (h : Heap) (head : ℕ → Bool) (lo hi : ℕ) (t : IsTiled h head lo hi) where
  module _ (i : ℕ) (hd : head i ≡ true) (inner : IsInner h i) where
    rest : ℕ → Bool
    rest = updated head i false

    kept : (j : ℕ) → rest j ≡ true → (j ≢ i) × (head j ≡ true)
    unfolding rest
    kept j r = removed_parts head i j r

    keep : (j : ℕ) → j ≢ i → head j ≡ true → rest j ≡ true
    unfolding rest
    keep j ne r = updated_ne head i j false ne ∙ r

    -- The place before the block, and behind it.
    pred : ¬ ((i ≡ hi) × (lo < hi)) → (j : ℕ) × (rest j ≡ true) × (end_of h j ≡ i)
    pred never = elim (t.prev_block i hd inner.0) [
      | inl (j, hd', e) ↦
          let bounds = t.inside j hd' in (j, keep j (λ q. omega (arith, ap (size h) q)) hd', e)
      | inr gap ↦ absurd (never gap)
    ]

    succ : ¬ ((end_of h i ≡ lo) × (lo < hi)) → rest (end_of h i) ≡ true
    succ never =
        let bounds = t.inside i hd in
        let end = inner_end h head lo hi t i hd inner in
        elim (t.next_block i hd (λ e. omega (arith, t.room))) [
          | inl hd' ↦ keep (end_of h i) (λ q. omega arith) hd'
          | inr gap ↦ absurd (never gap)
        ]

    after : (lo' hi' : ℕ) → Grows h i lo hi lo' hi' → rest hi' ≡ true
    after lo' hi' (inl (e, l, u)) = rw u (succ (λ gap. omega (arith, gap.1)))
    after lo' hi' (inr (inl (lt, e, l, u))) =
        let bounds = t.inside i hd in rw u (keep hi (λ q. omega arith) (t.after_gap lt))
    after lo' hi' (inr (inr (lt, e, l, u))) =
        let bounds = t.inside i hd in rw u (succ (λ gap. omega (arith, gap.0)))

    before :
        (lo' hi' : ℕ) → Grows h i lo hi lo' hi' → (j : ℕ) × (rest j ≡ true) × (end_of h j ≡ lo')
    before lo' hi' (inl (e, l, u)) = rw l (pred (λ gap. omega (arith, gap.1)))
    before lo' hi' (inr (inl (lt, e, l, u))) =
        let bounds = t.inside i hd in rw l (pred (λ gap. omega (arith, gap.0)))
    before lo' hi' (inr (inr (lt, e, l, u))) =
        let (j, hd', q) = t.before_gap lt in
        let bounds = t.inside j hd' in rw l (j, keep j (λ r. omega arith) hd', q)

    apart_from : (j : ℕ) → j ≢ i → head j ≡ true → (end_of h j ≤ i) ⊎ (end_of h i ≤ j)
    apart_from j ne hd' = elim (order-cases j i) [
      | inl below ↦ inl (t.apart j i hd' hd below)
      | inr more ↦ elim more [ inl e ↦ absurd (ne e) | inr above ↦ inr (t.apart i j hd hd' above) ]
    ]

    out :
        (lo' hi' : ℕ)
        → Grows h i lo hi lo' hi'
        → (j : ℕ) → j ≢ i
        → head j ≡ true
        → lo' < end_of h j
        → hi' ≤ j
    out lo' hi' grows j ne hd' lt =
        let bounds = t.inside j hd' in
        let clear = apart_from j ne hd' in
        elim grows [
          | inl g ↦ omega (arith, g)
          | inr more ↦ elim more [
            | inl g ↦ elim clear [
              | inl c ↦ omega (arith, g)
              | inr c ↦ let old = t.outside j hd' (omega (arith, g)) in omega (arith, g)
            ]
            | inr g ↦ elim clear [
              | inl c ↦ let old = t.outside j hd' (omega (arith, g)) in omega (arith, g)
              | inr c ↦ omega (arith, g)
            ]
          ]
        ]

    behind :
        (lo' hi' : ℕ)
        → Grows h i lo hi lo' hi'
        → (j : ℕ) → j ≢ i
        → head j ≡ true
        → end_of h j ≢ h.len
        → (rest (end_of h j) ≡ true) ⊎ (end_of h j ≡ lo')
    behind lo' hi' grows j ne hd' nl =
        let bounds = t.inside j hd' in
        let bounds_i = t.inside i hd in
        let clear = apart_from j ne hd' in
        elim (t.next_block j hd' nl) [
          | inl hd'' ↦ elim (==-cases (end_of h j) i) [
            | inl e ↦ elim grows [
              | inl g ↦ inr (omega (arith, g))
              | inr more ↦ elim more [
                | inl g ↦ inr (omega (arith, g))
                | inr g ↦ let old = t.outside j hd' (omega (arith, g)) in absurd (omega (arith, g))
              ]
            ]
            | inr other ↦ inl (keep (end_of h j) other hd'')
          ]
          | inr gap ↦ elim grows [
            | inl g ↦ absurd (omega (arith, g, gap))
            | inr more ↦ elim more [
              | inl g ↦ elim clear [
                | inl c ↦ absurd (omega (arith, g, gap))
                | inr c ↦ absurd (omega (arith, g, gap))
              ]
              | inr g ↦ inr (omega (arith, g, gap))
            ]
          ]
        ]

    ahead :
        (lo' hi' : ℕ)
        → Grows h i lo hi lo' hi'
        → (j : ℕ) → j ≢ i
        → head j ≡ true
        → j ≢ 0
        → ((k : ℕ) × (rest k ≡ true) × (end_of h k ≡ j)) ⊎ (j ≡ hi')
    ahead lo' hi' grows j ne hd' nz =
        let bounds = t.inside j hd' in
        elim (t.prev_block j hd' nz) [
          | inl (k, hk, e) ↦ elim (==-cases k i) [
            | inl q ↦
                let at_end : end_of h i ≡ j = ap (end_of h) (sym q) ∙ e in
                elim grows [
                  | inl g ↦ inr (omega (arith, g))
                  | inr more ↦ elim more [
                    | inl g ↦
                        let old = t.outside j hd' (omega (arith, g)) in absurd (omega (arith, g))
                    | inr g ↦ inr (omega (arith, g))
                  ]
                ]
            | inr other ↦ inl (k, keep k other hk, e)
          ]
          | inr gap ↦ elim grows [
            | inl g ↦ absurd (omega (arith, g, gap))
            | inr more ↦ elim more [
              | inl g ↦ inr (omega (arith, g, gap))
              | inr g ↦ absurd (ne (omega (arith, g, gap)))
            ]
          ]
        ]

    -- The gap is not empty then.
    wide : (lo' hi' : ℕ) → Grows h i lo hi lo' hi' → lo' < hi'
    wide lo' hi' grows =
        let bounds = t.inside i hd in
        elim grows [
          | inl g ↦ omega (arith, g)
          | inr more ↦ elim more [ inl g ↦ omega (arith, g) | inr g ↦ omega (arith, g) ]
        ]

    pub IsTiled-open :
        (lo' hi' : ℕ) → Grows h i lo hi lo' hi' → IsTiled h (updated head i false) lo' hi'
    unfolding rest
    IsTiled-open lo' hi' grows =
        let gap = wide lo' hi' grows in
        record {
          room = t.room;
          small = t.small;
          first = (keep 0 (λ e. inner.0 (sym e)) t.first.0, t.first.1);
          last = (keep (h.len - 2) (λ e. inner.1 (sym e)) t.last.0, t.last.1);
          ordered = omega arith;
          after_gap = λ lt. after lo' hi' grows;
          before_gap = λ lt. before lo' hi' grows;
          even = λ j r. t.even j (kept j r).1;
          inside = λ j r. t.inside j (kept j r).1;
          big = λ j r. t.big j (kept j r).1;
          footer = λ j r. t.footer j (kept j r).1;
          outside = λ j r. out lo' hi' grows j (kept j r).0 (kept j r).1;
          apart = λ j k r r'. t.apart j k (kept j r).1 (kept k r').1;
          next_block = λ j r nl. elim (behind lo' hi' grows j (kept j r).0 (kept j r).1 nl) [
            | inl x ↦ inl x
            | inr e ↦ inr (e, gap)
          ];
          prev_block = λ j r nz. elim (ahead lo' hi' grows j (kept j r).0 (kept j r).1 nz) [
            | inl x ↦ inl x
            | inr e ↦ inr (e, gap)
          ];
        }
