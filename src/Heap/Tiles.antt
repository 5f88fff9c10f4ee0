-- ===== src/Heap/Tiles.antt =====
-- The blocks of the heap of kernel/heap.cc lie one behind the other, with the same word at both ends,
-- except for a gap while the code joins or cuts blocks. `head` says where blocks begin.
pub mod Gap
pub mod Fill
use networking_p.Prelude.{
  ℕ, ◌+◌, ◌-◌, ◌%◌, ◌^◌, ◌≤◌, ◌<◌, ◌≡◌, ◌≢◌, ◌⊎◌, inl, inr, refl, ap, sym, ◌∙◌, Bool, true,
  order-cases, arith,
}
use networking_p.Heap.{Heap, store, size}
use networking_p.Heap.Words.{store_ne, size-ext}

-- Where the block ends.
abbrev pub end_of : Heap → ℕ → ℕ
end_of h i = i + size h i

-- The gap begins at `lo` and ends before `hi`; there is none if these are the same.
pub record IsTiled (h : Heap) (head : ℕ → Bool) (lo hi : ℕ) : Type 0 where
  pub room : 8 < h.len
  pub small : h.len < 2 ^ 31
  pub first : (head 0 ≡ true) × (h.array 0 ≡ 3)
  pub last : (head (h.len - 2) ≡ true) × (h.array (h.len - 2) ≡ 3)
  pub ordered : lo ≤ hi
  pub after_gap : lo < hi → head hi ≡ true
  pub before_gap : lo < hi → (j : ℕ) × (head j ≡ true) × (end_of h j ≡ lo)
  pub even : (i : ℕ) → head i ≡ true → i % 2 ≡ 0
  pub inside : (i : ℕ) → head i ≡ true → (2 ≤ size h i) × (end_of h i ≤ h.len)
  pub big : (i : ℕ) → head i ≡ true → i ≢ 0 → i ≢ h.len - 2 → 4 ≤ size h i
  pub footer : (i : ℕ) → head i ≡ true → h.array (end_of h i - 1) ≡ h.array i
  pub outside : (i : ℕ) → head i ≡ true → lo < end_of h i → hi ≤ i
  pub apart : (i j : ℕ) → head i ≡ true → head j ≡ true → i < j → end_of h i ≤ j
  pub next_block :
      (i : ℕ)
      → head i ≡ true
      → end_of h i ≢ h.len
      → (head (end_of h i) ≡ true) ⊎ ((end_of h i ≡ lo) × (lo < hi))
  pub prev_block :
      (i : ℕ)
      → head i ≡ true
      → i ≢ 0
      → ((j : ℕ) × (head j ≡ true) × (end_of h j ≡ i)) ⊎ ((i ≡ hi) × (lo < hi))

-- A block that is neither of the two marks at the ends of the heap.
abbrev pub IsInner : Heap → ℕ → Type 0
IsInner h i = (i ≢ 0) × (i ≢ h.len - 2)

module _ (h : Heap) (head : ℕ → Bool) (lo hi : ℕ) (t : IsTiled h head lo hi) where
  -- An inner block ends before the last mark.
  pub inner_end : (i : ℕ) → head i ≡ true → IsInner h i → end_of h i ≤ h.len - 2
  inner_end i hd inner =
      let bounds = t.inside i hd in
      let (last_head, last_word) = t.last in
      let room = t.room in
      let below : i < h.len - 2 = omega (arith, inner.1) in t.apart i (h.len - 2) hd last_head below

  -- The heap with other words inside the blocks and in the gap.
  pub IsTiled-ext :
      (g : Heap)
      → g.len ≡ h.len
      → ((i : ℕ) → head i ≡ true → g.array i ≡ h.array i)
      → ((i : ℕ) → head i ≡ true → g.array (end_of h i - 1) ≡ h.array (end_of h i - 1))
      → IsTiled g head lo hi
  IsTiled-ext g len heads feet = record {
    room = omega (arith, t.room);
    small = omega (arith, t.small);
    first = (t.first.0, heads 0 t.first.0 ∙ t.first.1);
    last = rw len (t.last.0, heads (h.len - 2) t.last.0 ∙ t.last.1);
    ordered = t.ordered;
    after_gap = t.after_gap;
    before_gap = λ lt. let (j, hd, e) = t.before_gap lt in (j, hd, ends j hd ∙ e);
    even = t.even;
    inside = λ i hd. rw (same i hd, len) (t.inside i hd);
    big = λ i hd nz nl. rw (same i hd) (t.big i hd nz (λ e. nl (e ∙ ap (λ n. n - 2) (sym len))));
    footer = λ i hd.
        ap g.array (ap (λ n. n - 1) (ends i hd)) ∙ feet i hd ∙ t.footer i hd ∙ sym (heads i hd);
    outside = λ i hd. rw (same i hd) (t.outside i hd);
    apart = λ i j hd hd' lt. rw (same i hd) (t.apart i j hd hd' lt);
    next_block = λ i hd ne. rw (same i hd) (t.next_block i hd (λ e. ne (ends i hd ∙ e ∙ sym len)));
    prev_block = λ i hd nz. elim (t.prev_block i hd nz) [
      | inl (j, hd', e) ↦ inl (j, hd', ends j hd' ∙ e)
      | inr gap ↦ inr gap
    ];
  }
    where
      same : (i : ℕ) → head i ≡ true → size g i ≡ size h i
      same i hd = size-ext g h i i (heads i hd)

      ends : (i : ℕ) → head i ≡ true → end_of g i ≡ end_of h i
      ends i hd = ap (λ n. i + n) (same i hd)

  -- Words strictly inside a block are no ends of blocks.
  pub interior :
      (a d i : ℕ)
      → head a ≡ true
      → head i ≡ true
      → 0 < d
      → d + 1 < size h a
      → (i ≢ a + d) × (end_of h i - 1 ≢ a + d)
  interior a d i hd hd' pos lt =
      let bounds = t.inside i hd' in
      elim (order-cases i a) [
        | inl below ↦ let clear = t.apart i a hd' hd below in (λ e. omega arith, λ e. omega arith)
        | inr rest ↦ elim rest [
          | inl same ↦ (λ e. omega arith, λ e. omega (arith, ap (size h) same))
          | inr above ↦ let clear = t.apart a i hd hd' above in (λ e. omega arith, λ e. omega arith)
        ]
      ]

  -- So a write there keeps the blocks.
  pub IsTiled-store :
      (a d v : ℕ)
      → head a ≡ true
      → 0 < d
      → d + 1 < size h a
      → IsTiled (store (a + d) v h) head lo hi
  unfolding store
  IsTiled-store a d v hd pos lt =
      IsTiled-ext (store (a + d) v h) refl
        (λ i hd'. store_ne (a + d) v h i (interior a d i hd hd' pos lt).0)
        (λ i hd'. store_ne (a + d) v h (end_of h i - 1) (interior a d i hd hd' pos lt).1)
