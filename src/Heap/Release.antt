-- ===== src/Heap/Release.antt =====
-- `free` of kernel/heap.cc on a heap in order.
pub mod Join
use networking_p.Prelude.{
  ℕ, ◌⊎◌, ==-cases, order-cases, ◌≢◌, ◌+◌, ◌-◌, ◌*◌, ◌/◌, ◌^◌, ◌≤◌, ◌<◌, ◌≡◌, inl, inr, refl, ap,
  sym, ◌∙◌, Bool, true, false, Option, some, ◌==◌, ne→==, arith,
}
use networking_p.Prelude.Sets.{updated, updated_ne, removed_parts}
use networking_p.Prelude.Words.{u64}
use networking_p.Heap.{Heap, is_taken, size, left, right, to_int, free_block, free}
use networking_p.Heap.Words.{size-ext, size_even, to_int_lem, left_lem, right_lem}
use networking_p.Heap.Tiles.{end_of, IsInner, inner_end}
use networking_p.Heap.Order.{
  available, IsHeap, IsAfter, IsHeap-counted, available-parts, available-next, IsMerged,
  IsMerged-kept, Keeps, Keeps-taken, Spares,
}
use networking_p.Heap.Order.Drop.{IsHeap-open, available-open}
use networking_p.Heap.Claim.{IsPlaced}
use networking_p.Heap.Release.Join.{IsOpened, join_left_lem, join_right_lem, make_avail-Closes}

module _ (h : Heap) (head : ℕ → Bool) (rank : ℕ → ℕ) (w : IsHeap h head rank 0 0) (i : ℕ)
    (hd : head i ≡ true) (taken : is_taken h i ≡ true) (inner : IsInner h i) where
  rest : ℕ → Bool
  rest = updated head i false

  -- Two blocks with one end are the same.
  same_end : (k j : ℕ) → head k ≡ true → head j ≡ true → end_of h k ≡ end_of h j → k ≡ j
  same_end k j hk hj e = elim (order-cases k j) [
    | inl lt ↦ absurd (omega (arith, w.tiled.apart k j hk hj lt, w.tiled.inside j hj))
    | inr more ↦ elim more [
      | inl q ↦ q
      | inr lt ↦ absurd (omega (arith, w.tiled.apart j k hj hk lt, w.tiled.inside k hk))
    ]
  ]

  rest-size : (j : ℕ) → rest j ≡ true → 0 < size h j
  unfolding rest
  rest-size j r = omega (arith, w.tiled.inside j (removed_parts head i j r).1)

  opened : IsOpened h rest h rest rank i (end_of h i) (size h i)
  unfolding rest
  opened = record {
    ordered =
        IsHeap-open h head rank 0 0 w i i (end_of h i) (inl (refl, refl, refl)) hd taken inner;
    kept = λ j r t. (r, λ k le lt. refl);
    full = refl;
    even = size_even h i;
    room = w.tiled.big i hd inner.0 inner.1;
    counts = (refl, refl, refl, refl);
  }

  -- The block before.
  before : (j : ℕ) × (rest j ≡ true) × (end_of h j ≡ i) × (left h i ≡ j) × (head j ≡ true)
  unfolding rest
  before = elim (w.tiled.prev_block i hd inner.0) [
    | inr gap ↦ absurd (omega (arith, gap.1))
    | inl (j, hd', e) ↦
        let edge = w.tiled.inside j hd' in
        let foot = w.tiled.footer j hd' in
        let last = inner_end h head 0 0 w.tiled i hd inner in
        let same = size-ext h h (i - 1) j (ap (λ k. h.array (k - 1)) (sym e) ∙ foot) in
        let lies =
          left_lem h i (size h j) (omega arith) (omega (arith, w.tiled.small)) same (omega arith) in
        (j, updated_ne head i j false (λ q. omega arith) ∙ hd', e, lies ∙ omega arith, hd')
  ]

  -- The block at `j` ends where the one that is freed begins; the block at the end of that is joined too
  -- if it is available.
  IsMerged-freed :
      (j lo hi : ℕ) (g1 g2 g : Heap) (head1 head2 head' : ℕ → Bool)
      → IsMerged h head
      → (head j ≡ true) × (end_of h j ≡ i)
      → Spares h rest g1 head1 j
      → Spares g1 head1 g2 head2 (end_of h i)
      → ((k : ℕ)
          → available g head' k ≡ true
          → k ≢ lo
          → (available g2 head2 k ≡ true) × (g.array k ≡ g2.array k))
      → Keeps h rest g head'
      → is_taken g (end_of g lo) ≡ true
      → IsMerged g head'
  unfolding rest
  IsMerged-freed j lo hi g1 g2 g head1 head2 head' m (hj, ends) sp1 sp2 sp3 kept last k e =
      elim (==-cases k lo) [
        | inl q ↦ ap (λ x. is_taken g (end_of g x)) q ∙ last
        | inr ne ↦
            let (a2, s2) = sp3 k e ne in
            let (other, a1, s1) = sp2 k a2 in
            let (left_one, a0, s0) = sp1 k a1 in
            let old = sym (ap (λ f. f k) (available-open h head rank 0 0 w i taken)) ∙ a0 in
            let hk = (available-parts h head k old).0 in
            IsMerged-kept h head rank 0 0 w g rest head' refl m kept k old (s2 ∙ s1 ∙ s0) (λ x.
              updated_ne head i (end_of h k) false
                (λ q. left_one (same_end k j hk hj (q ∙ sym ends)))
              ∙ x)
      ]

  -- The block behind is taken: the neighbour, or the one behind that.
  last_taken :
      (j lo hi sz : ℕ) (g1 g2 g : Heap) (head1 head2 head' : ℕ → Bool)
      → IsMerged h head
      → IsOpened h rest g2 head2 rank lo hi sz
      → Spares h rest g1 head1 j
      → ((hi ≡ end_of h i) × (is_taken g2 (end_of h i) ≡ true))
        ⊎ ((hi ≡ end_of g1 (end_of h i)) × (available g1 head1 (end_of h i) ≡ true))
      → Keeps g2 head2 g head'
      → Keeps h rest g head'
      → is_taken g hi ≡ true
  unfolding rest
  last_taken j lo hi sz g1 g2 g head1 head2 head' m o sp1 right kept3 kept = elim right [
    | inl (e, t) ↦
        let there = o.ordered.tiled.after_gap (omega (arith, o.full, o.room)) in
        Keeps-taken g2 head2 g head' kept3 hi there (omega (arith, o.ordered.tiled.inside hi there))
          (ap (is_taken g2) e ∙ t)
    | inr (e, a1) ↦
        let (other, a0, s0) = sp1 (end_of h i) a1 in
        let old = sym (ap (λ f. f (end_of h i)) (available-open h head rank 0 0 w i taken)) ∙ a0 in
        let next_head = available-next h head rank 0 0 w (end_of h i) refl old in
        let bounds = w.tiled.inside i hd in
        let bounds' = w.tiled.inside (end_of h i) (available-parts h head (end_of h i) old).0 in
        let place : hi ≡ end_of h (end_of h i) =
          e ∙ ap (λ n. end_of h i + n) (size-ext g1 h (end_of h i) (end_of h i) s0) in
        ap (is_taken g) place
        ∙ Keeps-taken h rest g head' kept (end_of h (end_of h i))
            (updated_ne head i (end_of h (end_of h i)) false (λ q. omega arith) ∙ next_head)
            (omega (arith, w.tiled.inside (end_of h (end_of h i)) next_head)) (m (end_of h i) old)
  ]

  -- What `free_block` makes of the heap.
  abbrev pub Frees : Option Heap → Type 0
  Frees r =
      (g : Heap) × (head' : ℕ → Bool) × (rank' : ℕ → ℕ) × (lo : ℕ) × (r ≡ some g)
      × IsAfter h (updated head i false) g head' rank'
      × (available g head' lo ≡ true)
      × (lo ≤ i)
      × (end_of h i ≤ end_of g lo)
      × (IsMerged h head → IsMerged g head')
      × (g.n_malloc ≡ h.n_malloc)
      × (g.n_free ≡ h.n_free)

  pub free_block_lem : Frees (free_block i h)
  unfolding free_block rest
  free_block_lem =
      let (j, hd', e, l, old) = before in
      let last = inner_end h head 0 0 w.tiled i hd inner in
      let len = w.tiled.small in
      let l' : to_int (left h i) ≡ j = ap to_int l ∙ to_int_lem j (omega arith) in
      let sz' : to_int (size h i) ≡ size h i = to_int_lem (size h i) (omega arith) in
      let r : right h i ≡ end_of h i = right_lem h i (omega arith) in
      let r' : to_int (right h i) ≡ end_of h i =
        ap to_int r ∙ to_int_lem (end_of h i) (omega arith) in
      let (lo1, sz1, g1, head1, e1, o1, low, joins1) =
        join_left_lem h rest h rest rank i (end_of h i) (size h i) rest-size opened j hd' e in
      let (hi2, sz2, g2, head2, e2, o2, high, joins2) =
        join_right_lem h rest g1 head1 rank lo1 (end_of h i) sz1 rest-size o1 in
      let (g, head', rank', e3, after, a, words, kept3, sp3, mallocs, frees) =
        make_avail-Closes h rest g2 head2 rank lo1 hi2 sz2 rest-size o2 in
      (
        g,
        head',
        rank',
        lo1,
        rw (l', sz', r', e1, e2) e3,
        after,
        a,
        low,
        omega (arith, words, o2.full),
        λ m.
            IsMerged-freed j lo1 hi2 g1 g2 g head1 head2 head' m (old, e) joins1.1 joins2.1 sp3
              after.kept
              (ap (is_taken g) (ap (λ n. lo1 + n) words ∙ o2.full)
                ∙ last_taken j lo1 hi2 sz2 g1 g2 g head1 head2 head' m o2 joins1.1 joins2.0 kept3
                    after.kept),
        mallocs,
        frees,
      )

  -- The pointer that `malloc` gave for the block.
  index_lem :
      IsPlaced h → to_int (u64 (u64 (h.base + 8 * (i + 1) + 2 ^ 64 - h.base) / 8 + 2 ^ 64 - 1)) ≡ i
  index_lem p =
      let last = inner_end h head 0 0 w.tiled i hd inner in
      let small : i < 2 ^ 31 = omega (arith, w.tiled.small) in
      let words : u64 (u64 (h.base + 8 * (i + 1) + 2 ^ 64 - h.base) / 8 + 2 ^ 64 - 1) ≡ i =
        omega arith in
      ap to_int words ∙ to_int_lem i small

module _ (h : Heap) (head : ℕ → Bool) (rank : ℕ → ℕ) (w : IsHeap h head rank 0 0) (p : IsPlaced h)
    (i : ℕ) (hd : head i ≡ true) (taken : is_taken h i ≡ true) (inner : IsInner h i) where
  -- The block is a part of one that is available.
  pub record IsReleased (lo : ℕ) (g : Heap) (head' : ℕ → Bool) (rank' : ℕ → ℕ) : Type 0 where
    pub after : IsAfter h (updated head i false) g head' rank'
    pub block : available g head' lo ≡ true
    pub covers : (lo ≤ i) × (end_of h i ≤ end_of g lo)
    pub merged : IsMerged h head → IsMerged g head'
    pub mallocs : g.n_malloc ≡ h.n_malloc
    pub one_more : g.n_free ≡ u64 (h.n_free + 1)

  pub free_lem :
      (lo : ℕ) × (g : Heap) × (head' : ℕ → Bool) × (rank' : ℕ → ℕ) × (free (h.base + 8 * (i + 1)) h
        ≡ some g)
      × IsReleased lo g head' rank'
  unfolding free is_taken size available
  free_lem =
      let counted : Heap = record h { n_free = u64 (h.n_free + 1) } in
      let w' = IsHeap-counted h head rank 0 0 w h.n_malloc (u64 (h.n_free + 1)) in
      let (g, head', rank', lo, e, after, a, low, high, merged, mallocs, frees) =
        free_block_lem counted head rank w' i hd taken inner in
      let nonzero = ne→== (h.base + 8 * (i + 1)) 0 (λ z. omega arith) in
      let other = ne→== (h.base + 8 * (i + 1)) h.base (λ z. omega arith) in
      let index = index_lem h head rank w i hd taken inner p in
      (
        lo,
        g,
        head',
        rank',
        rw (nonzero, other, index) e,
        record {
          after = record {
            ordered = after.ordered;
            kept = after.kept;
            same_len = after.same_len;
            same_base = after.same_base;
          };
          block = a;
          covers = (low, high);
          merged = merged;
          mallocs = mallocs;
          one_more = frees;
        },
      )
