-- ===== src/Heap/Tiles/Fill.antt =====
-- A block is written at the start of the gap in the heap of kernel/heap.cc.
use networking_p.Prelude.{
  ℕ, ◌+◌, ◌-◌, ◌%◌, ◌≤◌, ◌<◌, ◌≡◌, ◌≢◌, ◌⊎◌, inl, inr, ap, sym, ◌∙◌, subst, Bool, true, ==-cases,
  order-cases, arith,
}
use networking_p.Prelude.Sets.{updated, updated_self, updated_ne}
use networking_p.Heap.{Heap, store, size, set_ends}
use networking_p.Heap.Words.{
  word, store_self, store_ne, size-ext, size_word, size_even, set_ends_lem,
}
use networking_p.Heap.Tiles.{end_of, IsTiled}

module _ (h : Heap) (head : ℕ → Bool) (lo hi : ℕ) (t : IsTiled h head lo hi) (n : ℕ) (b : Bool)
    (even : n % 2 ≡ 0) (room : 4 ≤ n) (fits : lo + n ≤ hi) where
  filled : Heap
  filled = store (lo + n - 1) (word n b) (store lo (word n b) h)

  more : ℕ → Bool
  more = updated head lo true

  -- The gap lies before the last mark.
  pub bound : hi ≤ h.len
  bound = let edge = t.inside hi (t.after_gap (omega arith)) in omega arith

  pub clear : (i : ℕ) → head i ≡ true → (end_of h i ≤ lo) ⊎ (hi ≤ i)
  clear i hd = elim (order-cases lo (end_of h i)) [
    | inl lt ↦ inr (t.outside i hd lt)
    | inr rest ↦ inl (elim rest [ inl e ↦ omega arith | inr gt ↦ omega arith ])
  ]

  pub fresh : head lo ≡ true → ⊥
  fresh hd =
      let edge = t.inside lo hd in elim (clear lo hd) [ inl c ↦ omega arith | inr c ↦ omega arith ]

  old : (k : ℕ) → k ≢ lo → k ≢ lo + n - 1 → filled.array k ≡ h.array k
  unfolding filled
  old k ne ne' =
      store_ne (lo + n - 1) (word n b) (store lo (word n b) h) k ne' ∙ store_ne lo (word n b) h k ne

  old_head : (i : ℕ) → head i ≡ true → filled.array i ≡ h.array i
  old_head i hd =
      let edge = t.inside i hd in
      elim (clear i hd) [
        | inl c ↦ old i (λ e. omega arith) (λ e. omega arith)
        | inr c ↦ old i (λ e. omega arith) (λ e. omega arith)
      ]

  old_foot : (i : ℕ) → head i ≡ true → filled.array (end_of h i - 1) ≡ h.array (end_of h i - 1)
  old_foot i hd =
      let edge = t.inside i hd in
      elim (clear i hd) [
        | inl c ↦ old (end_of h i - 1) (λ e. omega arith) (λ e. omega arith)
        | inr c ↦ old (end_of h i - 1) (λ e. omega arith) (λ e. omega arith)
      ]

  new_head : filled.array lo ≡ word n b
  unfolding filled
  new_head =
      store_ne (lo + n - 1) (word n b) (store lo (word n b) h) lo (λ e. omega arith)
      ∙ store_self lo (word n b) h

  new_foot : filled.array (lo + n - 1) ≡ word n b
  unfolding filled
  new_foot = store_self (lo + n - 1) (word n b) (store lo (word n b) h)

  new_size : size filled lo ≡ n
  new_size = (size_word filled lo n b even new_head).0

  old_size : (i : ℕ) → head i ≡ true → size filled i ≡ size h i
  old_size i hd = size-ext filled h i i (old_head i hd)

  which : (i : ℕ) → more i ≡ true → (i ≡ lo) ⊎ (head i ≡ true)
  unfolding more
  which i m = elim (==-cases i lo) [
    | inl e ↦ inl e
    | inr ne ↦ inr (sym (updated_ne head lo i true ne) ∙ m)
  ]

  mine : more lo ≡ true
  unfolding more
  mine = updated_self head lo true

  theirs : (i : ℕ) → head i ≡ true → more i ≡ true
  unfolding more
  theirs i hd = elim (==-cases i lo) [
    | inl e ↦ ap more e ∙ mine
    | inr ne ↦ updated_ne head lo i true ne ∙ hd
  ]

  -- What holds of the new block and of the old ones holds of all.
  both : (P : ℕ → Type 0) → P lo → ((i : ℕ) → head i ≡ true → P i) → (i : ℕ) → more i ≡ true → P i
  both P here there i m = elim (which i m) [ inl e ↦ subst P (sym e) here | inr hd ↦ there i hd ]

  pub start : (j : ℕ) × (head j ≡ true) × (end_of h j ≡ lo)
  start = t.before_gap (omega arith)

  Grid : ℕ → Type 0
  Grid i =
      (i % 2 ≡ 0)
      × (2 ≤ size filled i)
      × (end_of filled i ≤ h.len)
      × ((i ≡ 0) ⊎ ((i ≡ h.len - 2) ⊎ (4 ≤ size filled i)))
      × (filled.array (end_of filled i - 1) ≡ filled.array i)
      × (lo + n < end_of filled i → hi ≤ i)

  shape : (i : ℕ) → more i ≡ true → Grid i
  unfolding Grid
  shape =
      both Grid
        (
          (let (j, hd, e) = start in
              let j_even = t.even j hd in let size_of_j = size_even h j in omega arith),
          omega (arith, new_size),
          omega (arith, new_size, bound),
          inr (inr (omega (arith, new_size))),
          ap (λ k. filled.array (lo + k - 1)) new_size ∙ new_foot ∙ sym new_head,
          λ lt. absurd (omega (arith, new_size)),
        )
        (λ i hd.
          let same = old_size i hd in
          let edge = t.inside i hd in
          (
            t.even i hd,
            omega arith,
            omega arith,
            elim (==-cases i 0) [
              | inl z ↦ inl z
              | inr nz ↦ elim (==-cases i (h.len - 2)) [
                | inl l ↦ inr (inl l)
                | inr nl ↦ let large = t.big i hd nz nl in inr (inr (omega arith))
              ]
            ],
            ap (λ k. filled.array (i + k - 1)) same
                ∙ old_foot i hd
                ∙ t.footer i hd
                ∙ sym (old_head i hd),
            λ lt. t.outside i hd (omega arith),
          ))

  separate : (i j : ℕ) → more i ≡ true → more j ≡ true → i < j → end_of filled i ≤ j
  separate i j mi mj lt = elim (which i mi) [
    | inl e ↦ elim (which j mj) [
      | inl e' ↦ absurd (omega arith)
      | inr hj ↦
          let edge = t.inside j hj in
          let here = ap (end_of filled) e in
          elim (clear j hj) [ inl c ↦ absurd (omega arith) | inr c ↦ omega (arith, new_size) ]
    ]
    | inr hd ↦
        let same = old_size i hd in
        let edge = t.inside i hd in
        elim (which j mj) [
          | inl e' ↦ elim (clear i hd) [ inl c ↦ omega arith | inr c ↦ absurd (omega arith) ]
          | inr hj ↦ let old_order = t.apart i j hd hj lt in omega arith
        ]
  ]

  behind :
      (i : ℕ)
      → more i ≡ true
      → end_of filled i ≢ h.len
      → (more (end_of filled i) ≡ true) ⊎ ((end_of filled i ≡ lo + n) × (lo + n < hi))
  behind i m nl = elim (which i m) [
    | inl e ↦
        let at_end : end_of filled i ≡ lo + n = ap (end_of filled) e ∙ ap (λ k. lo + k) new_size in
        elim (==-cases (lo + n) hi) [
          | inl full ↦ inl (
              subst (λ k. more k ≡ true) (sym (at_end ∙ full))
                (theirs hi (t.after_gap (omega arith))))
          | inr left_over ↦ inr (at_end, omega arith)
        ]
    | inr hd ↦
        let same : end_of filled i ≡ end_of h i = ap (λ k. i + k) (old_size i hd) in
        elim (t.next_block i hd (λ e. nl (same ∙ e))) [
          | inl hd' ↦ inl (subst (λ k. more k ≡ true) (sym same) (theirs (end_of h i) hd'))
          | inr gap ↦ inl (subst (λ k. more k ≡ true) (sym (same ∙ gap.0)) mine)
        ]
  ]

  ahead :
      (i : ℕ)
      → more i ≡ true
      → i ≢ 0
      → ((j : ℕ) × (more j ≡ true) × (end_of filled j ≡ i)) ⊎ ((i ≡ hi) × (lo + n < hi))
  ahead i m nz = elim (which i m) [
    | inl e ↦
        let (j, hd, q) = start in inl (j, theirs j hd, ap (λ k. j + k) (old_size j hd) ∙ q ∙ sym e)
    | inr hd ↦ elim (t.prev_block i hd nz) [
      | inl (j, hd', q) ↦ inl (j, theirs j hd', ap (λ k. j + k) (old_size j hd') ∙ q)
      | inr gap ↦ elim (==-cases (lo + n) hi) [
        | inl full ↦ inl (lo, mine, ap (λ k. lo + k) new_size ∙ full ∙ sym gap.0)
        | inr left_over ↦ inr (gap.0, omega arith)
      ]
    ]
  ]

  IsTiled-filled : IsTiled filled more (lo + n) hi
  unfolding filled Grid store
  IsTiled-filled = record {
    room = t.room;
    small = t.small;
    first = (theirs 0 t.first.0, old_head 0 t.first.0 ∙ t.first.1);
    last = (theirs (h.len - 2) t.last.0, old_head (h.len - 2) t.last.0 ∙ t.last.1);
    ordered = fits;
    after_gap = λ lt. theirs hi (t.after_gap (omega arith));
    before_gap = λ lt. (lo, mine, ap (λ k. lo + k) new_size);
    even = λ i m. (shape i m).0;
    inside = λ i m. ((shape i m).1, (shape i m).2);
    big = λ i m nz nl. elim (shape i m).3 [
      | inl z ↦ absurd (nz z)
      | inr other ↦ elim other [ inl l ↦ absurd (nl l) | inr large ↦ large ]
    ];
    footer = λ i m. (shape i m).4;
    outside = λ i m. (shape i m).5;
    apart = separate;
    next_block = behind;
    prev_block = ahead;
  }

  set_ends-filled : set_ends lo (word n b) h ≡ filled
  unfolding filled
  set_ends-filled = set_ends_lem lo n b h even (omega arith) (omega (arith, bound, t.small))

  pub IsTiled-set_ends : IsTiled (set_ends lo (word n b) h) (updated head lo true) (lo + n) hi
  unfolding more
  IsTiled-set_ends =
      subst (λ g. IsTiled g (updated head lo true) (lo + n) hi) (sym set_ends-filled) IsTiled-filled

  -- Only the two ends of the new block are written.
  pub set_ends-other :
      (k : ℕ) → k ≢ lo → k ≢ lo + n - 1 → (set_ends lo (word n b) h).array k ≡ h.array k
  set_ends-other k ne ne' = ap (λ (g : Heap). g.array k) set_ends-filled ∙ old k ne ne'

  pub set_ends-new : (set_ends lo (word n b) h).array lo ≡ word n b
  set_ends-new = ap (λ (g : Heap). g.array lo) set_ends-filled ∙ new_head

  -- The heads of the other blocks keep their words.
  pub set_ends-head : (i : ℕ) → head i ≡ true → (set_ends lo (word n b) h).array i ≡ h.array i
  set_ends-head i hd = ap (λ (g : Heap). g.array i) set_ends-filled ∙ old_head i hd
