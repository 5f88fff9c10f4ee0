-- ===== src/Heap/Start/Fresh.antt =====
-- The heap of kernel/heap.cc as `heap::init` leaves it is in order.
use networking_p.Prelude.{
  ℕ, ◌+◌, ◌-◌, ◌%◌, ◌^◌, ◌≤◌, ◌<◌, ◌≡◌, ◌≢◌, ◌⊎◌, inl, inr, refl, ap, sym, ◌∙◌, subst, Bool, true,
  false, ◌||◌, ◌==◌, arith,
}
use mathlib.Core.Bool.{false≢true}
use networking_p.Heap.{Heap, is_taken, size}
use networking_p.Heap.Words.{size_word}
use networking_p.Heap.Tiles.{end_of, IsTiled}
use networking_p.Heap.Links.{IsLinked}
use networking_p.Heap.Order.{available, available-parts, parts-available, IsHeap, IsMerged}

-- The words that `init` has written.
pub record IsFresh (h : Heap) : Type 0 where
  pub room : 8 < h.len
  pub small : h.len < 2 ^ 31
  pub even : h.len % 2 ≡ 0
  pub first : (h.array 0 ≡ 3) × (h.array 1 ≡ 3)
  pub middle : (h.array 2 ≡ h.len - 4) × (h.array (h.len - 3) ≡ h.len - 4)
  pub links : (h.array 3 ≡ 0) × (h.array 4 ≡ 0)
  pub last : (h.array (h.len - 2) ≡ 3) × (h.array (h.len - 1) ≡ 3)
  pub front : h.avail ≡ 2

module _ (h : Heap) (f : IsFresh h) where
  pub start_head : ℕ → Bool
  start_head i = (i == 0) || ((i == 2) || (i == h.len - 2))

  abbrev Which : ℕ → Type 0
  Which i = (i ≡ 0) ⊎ ((i ≡ 2) ⊎ (i ≡ h.len - 2))

  which : (i : ℕ) → start_head i ≡ true → Which i
  unfolding start_head
  which i e = ground arith

  heads : (start_head 0 ≡ true) × (start_head 2 ≡ true) × (start_head (h.len - 2) ≡ true)
  unfolding start_head
  heads = (refl, refl, ground arith)

  sizes : (size h 0 ≡ 2) × (size h 2 ≡ h.len - 4) × (size h (h.len - 2) ≡ 2)
  sizes = (
    (size_word h 0 2 true refl f.first.0).0,
    (size_word h 2 (h.len - 4) false (omega (arith, f.even, f.room)) f.middle.0).0,
    (size_word h (h.len - 2) 2 true refl f.last.0).0,
  )

  each : (P : ℕ → Type 0) → P 0 → P 2 → P (h.len - 2) → (i : ℕ) → start_head i ≡ true → P i
  each P p0 p2 pl i hd = elim (which i hd) [
    | inl e ↦ subst P (sym e) p0
    | inr more ↦ elim more [ inl e ↦ subst P (sym e) p2 | inr e ↦ subst P (sym e) pl ]
  ]

  ends : (end_of h 0 ≡ 2) × (end_of h 2 ≡ h.len - 2) × (end_of h (h.len - 2) ≡ h.len)
  ends = (omega (arith, sizes), omega (arith, sizes, f.room), omega (arith, sizes, f.room))

  start_apart :
      (i : ℕ) → start_head i ≡ true → (j : ℕ) → start_head j ≡ true → i < j → end_of h i ≤ j
  start_apart =
      each (λ i. (j : ℕ) → start_head j ≡ true → i < j → end_of h i ≤ j)
        (λ j hd lt. elim (which j hd) [
          | inl e ↦ absurd (omega arith)
          | inr more ↦ elim more [
            | inl e ↦ omega (arith, ends.0)
            | inr e ↦ omega (arith, ends.0, f.room)
          ]
        ])
        (λ j hd lt. elim (which j hd) [
          | inl e ↦ absurd (omega arith)
          | inr more ↦ elim more [ inl e ↦ absurd (omega arith) | inr e ↦ omega (arith, ends.1) ]
        ])
        (λ j hd lt. elim (which j hd) [
          | inl e ↦ absurd (omega arith)
          | inr more ↦ elim more [
            | inl e ↦ absurd (omega (arith, f.room))
            | inr e ↦ absurd (omega arith)
          ]
        ])

  before_last : h.len - 2 - 1 ≡ h.len - 3
  before_last = omega arith

  start-IsTiled : IsTiled h start_head 0 0
  start-IsTiled = record {
    room = f.room;
    small = f.small;
    first = (heads.0, f.first.0);
    last = (heads.2, f.last.0);
    ordered = omega arith;
    after_gap = λ lt. absurd (omega arith);
    before_gap = λ lt. absurd (omega arith);
    even = each (λ i. i % 2 ≡ 0) refl refl (omega (arith, f.even, f.room));
    inside =
        each (λ i. (2 ≤ size h i) × (end_of h i ≤ h.len))
          (omega (arith, sizes), omega (arith, ends, f.room))
          (omega (arith, sizes, f.room), omega (arith, ends))
          (omega (arith, sizes), omega (arith, ends));
    big =
        each (λ i. i ≢ 0 → i ≢ h.len - 2 → 4 ≤ size h i) (λ nz nl. absurd (nz refl))
          (λ nz nl. omega (arith, sizes, f.room)) (λ nz nl. absurd (nl refl));
    footer =
        each (λ i. h.array (end_of h i - 1) ≡ h.array i)
          (ap (λ k. h.array (k - 1)) ends.0 ∙ f.first.1 ∙ sym f.first.0)
          (ap (λ k. h.array (k - 1)) ends.1 ∙ ap h.array before_last ∙ f.middle.1 ∙ sym f.middle.0)
          (ap (λ k. h.array (k - 1)) ends.2 ∙ f.last.1 ∙ sym f.last.0);
    outside = λ i hd lt. omega arith;
    apart = λ i j hd hd' lt. start_apart i hd j hd' lt;
    next_block =
        each
          (λ i.
            end_of h i ≢ h.len → (start_head (end_of h i) ≡ true) ⊎ ((end_of h i ≡ 0) × (0 < 0)))
          (λ ne. inl (subst (λ k. start_head k ≡ true) (sym ends.0) heads.1))
          (λ ne. inl (subst (λ k. start_head k ≡ true) (sym ends.1) heads.2))
          (λ ne. absurd (ne ends.2));
    prev_block =
        each
          (λ i. i ≢ 0 → ((j : ℕ) × (start_head j ≡ true) × (end_of h j ≡ i)) ⊎ ((i ≡ 0) × (0 < 0)))
          (λ nz. absurd (nz refl)) (λ nz. inl (0, heads.0, ends.0))
          (λ nz. inl (2, heads.1, ends.1));
  }

  takens : (is_taken h 0 ≡ true) × (is_taken h 2 ≡ false) × (is_taken h (h.len - 2) ≡ true)
  takens = (
    (size_word h 0 2 true refl f.first.0).1,
    (size_word h 2 (h.len - 4) false (omega (arith, f.even, f.room)) f.middle.0).1,
    (size_word h (h.len - 2) 2 true refl f.last.0).1,
  )

  only : (i : ℕ) → available h start_head i ≡ true → i ≡ 2
  only i a =
      let (hd, untaken) = available-parts h start_head i a in
      each (λ k. is_taken h k ≡ false → k ≡ 2) (λ u. absurd (false≢true (sym u ∙ takens.0)))
        (λ u. refl) (λ u. absurd (false≢true (sym u ∙ takens.2))) i hd untaken

  start_available : available h start_head 2 ≡ true
  start_available = parts-available h start_head 2 heads.1 takens.1

  start-IsLinked : IsLinked h (available h start_head) (λ i. 0)
  start-IsLinked = record {
    small = f.small;
    inside = λ i a. let here = only i a in (omega arith, omega (arith, f.room));
    spread = λ i j a b lt. let here = only i a in let there = only j b in absurd (omega arith);
    top = λ j a. (λ z. omega (arith, f.front), omega arith);
    head_free = λ nz. (
      ap (available h start_head) f.front ∙ start_available,
      ap (λ k. h.array (k + 2)) f.front ∙ f.links.1,
    );
    next_free = λ i a nz. absurd (nz (ap (λ k. h.array (k + 1)) (only i a) ∙ f.links.0));
    prev_free = λ i a nz. absurd (nz (ap (λ k. h.array (k + 2)) (only i a) ∙ f.links.1));
    front = λ i a z. f.front ∙ sym (only i a);
    tight = λ i j a b lt. absurd (omega arith);
    distinct = λ i j a b e. only i a ∙ sym (only j b);
  }

  pub IsFresh-IsHeap : IsHeap h start_head (λ i. 0) 0 0
  IsFresh-IsHeap = record { tiled = start-IsTiled; linked = start-IsLinked }

  pub start-IsMerged : IsMerged h start_head
  start-IsMerged i a =
      ap (λ k. is_taken h (end_of h k)) (only i a) ∙ ap (is_taken h) ends.1 ∙ takens.2
