-- ===== src/Heap/Runs.antt =====
-- What happens to the heap of kernel/heap.cc over time: calls of `malloc` and `free`, and writes of the
-- program to the blocks that it holds.
use networking_p.Prelude.{
  ℕ, ◌+◌, ◌-◌, ◌*◌, ◌%◌, ◌<◌, ◌≡◌, ◌≢◌, inl, inr, refl, ap, sym, ◌∙◌, subst, Bool, true, false,
  some, some_inj, ==-cases, arith,
}
use networking_p.Prelude.Sets.{updated, updated_ne, removed_parts}
use networking_p.Heap.{Heap, store, is_taken, size, malloc, free}
use networking_p.Heap.Words.{size-ext, store_ne, is_taken-ext}
use networking_p.Heap.Tiles.{end_of, IsInner, IsTiled-store, interior}
use networking_p.Heap.Links.{IsLinked, IsLinked-ext}
use networking_p.Heap.Order.{
  available, available-ext, available-IsInner, IsHeap, IsAfter, links-taken, IsMerged,
  available-next, available-parts,
}
use networking_p.Heap.Claim.{IsPlaced, IsClaimed, malloc_lem}
use networking_p.Heap.Release.{IsReleased, free_lem}

-- The pointer to the block at an index.
abbrev pub pointer : Heap → ℕ → ℕ
pointer h i = h.base + 8 * (i + 1)

-- `live` holds the blocks that were handed out and not given back.
pub data Runs (start : Heap) : Heap → (ℕ → Bool) → Type 0 where
  begins : Runs start start (λ i. false)
  claims :
      (h g : Heap) (live : ℕ → Bool) (bytes i : ℕ)
      → Runs start h live
      → bytes ≢ 0
      → malloc bytes h ≡ some (pointer h i, g)
      → Runs start g (updated live i true)
  refuses :
      (h g : Heap) (live : ℕ → Bool) (bytes : ℕ)
      → Runs start h live
      → bytes ≢ 0
      → malloc bytes h ≡ some (0, g)
      → Runs start g live
  frees :
      (h g : Heap) (live : ℕ → Bool) (i : ℕ)
      → Runs start h live
      → live i ≡ true
      → free (pointer h i) h ≡ some g
      → Runs start g (updated live i false)
  writes :
      (h : Heap) (live : ℕ → Bool) (i d v : ℕ)
      → Runs start h live
      → live i ≡ true
      → 0 < d
      → d + 1 < size h i
      → Runs start (store (i + d) v h) live

-- Every live block is a taken block of a heap in order.
pub record IsRunning (h : Heap) (head : ℕ → Bool) (rank : ℕ → ℕ) (live : ℕ → Bool) : Type 0 where
  pub ordered : IsHeap h head rank 0 0
  pub merged : IsMerged h head
  pub placed : IsPlaced h
  pub held : (i : ℕ) → live i ≡ true → (head i ≡ true) × (is_taken h i ≡ true) × IsInner h i

abbrev pub Running : Heap → (ℕ → Bool) → Type 0
Running h live = (head : ℕ → Bool) × (rank : ℕ → ℕ) × IsRunning h head rank live

IsPlaced-same : (h g : Heap) → g.len ≡ h.len → g.base ≡ h.base → IsPlaced h → IsPlaced g
IsPlaced-same h g len base p = record {
  aligned = ap (λ n. n % 16) base ∙ p.aligned;
  room = omega (arith, p.room);
}

module _ (h : Heap) (head : ℕ → Bool) (g : Heap) (head' : ℕ → Bool) (rank' : ℕ → ℕ) where
  -- A block that was kept is held as before.
  held_on :
      ((i : ℕ) → head i ≡ true → 0 < size h i)
      → IsAfter h head g head' rank'
      → (i : ℕ) → head i ≡ true
      → is_taken h i ≡ true
      → IsInner h i
      → (head' i ≡ true) × (is_taken g i ≡ true) × IsInner g i
  held_on sized after i hd taken inner =
      let (hd', words) = after.kept i hd taken in
      (
        hd',
        is_taken-ext g h i i (words i (omega arith) (omega (arith, sized i hd))) ∙ taken,
        (inner.0, λ e. inner.1 (e ∙ ap (λ n. n - 2) after.same_len)),
      )

module _ (h : Heap) (head : ℕ → Bool) (rank : ℕ → ℕ) (live : ℕ → Bool)
    (r : IsRunning h head rank live) where
  sized : (i : ℕ) → head i ≡ true → 0 < size h i
  sized i hd = omega (arith, r.ordered.tiled.inside i hd)

  -- What `malloc` does to the live blocks.
  claims-Running :
      (bytes it : ℕ) (g : Heap) (head' : ℕ → Bool) (rank' : ℕ → ℕ)
      → IsClaimed h head rank r.ordered r.placed bytes it g head' rank'
      → Running g (updated live it true)
  claims-Running bytes it g head' rank' c =
      let inner = available-IsInner h head rank 0 0 r.ordered it c.was in
      (
        head',
        rank',
        record {
          ordered = c.after.ordered;
          merged = c.merged r.merged;
          placed = IsPlaced-same h g c.after.same_len c.after.same_base r.placed;
          held = λ i l. elim (==-cases i it) [
            | inl e ↦
                subst (λ k. (head' k ≡ true) × (is_taken g k ≡ true) × IsInner g k) (sym e)
                  (
                    c.block.begins,
                    c.block.taken,
                    (inner.0, λ q. inner.1 (q ∙ ap (λ n. n - 2) c.after.same_len)),
                  )
            | inr ne ↦
                let old = r.held i (sym (updated_ne live it i true ne) ∙ l) in
                held_on h head g head' rank' sized c.after i old.0 old.1 old.2
          ];
        },
      )

  -- What `free` does to them.
  frees-Running :
      (i lo : ℕ) (l : live i ≡ true) (g : Heap) (head' : ℕ → Bool) (rank' : ℕ → ℕ)
      → IsReleased h head rank r.ordered r.placed i
          (r.held i l).0
          (r.held i l).1
          (r.held i l).2
          lo
          g
          head'
          rank'
      → Running g (updated live i false)
  frees-Running i lo l g head' rank' f = (
    head',
    rank',
    record {
      ordered = f.after.ordered;
      merged = f.merged r.merged;
      placed = IsPlaced-same h g f.after.same_len f.after.same_base r.placed;
      held = λ k m.
          let (ne, lk) = removed_parts live i k m in
          let old = r.held k lk in
          held_on h (updated head i false) g head' rank'
            (λ j hd. sized j (removed_parts head i j hd).1) f.after k
            (updated_ne head i k false ne ∙ old.0) old.1 old.2;
    },
  )

  -- A word of a live block is written.
  writes-Running :
      (i d v : ℕ) → live i ≡ true → 0 < d → d + 1 < size h i → Running (store (i + d) v h) live
  unfolding store
  writes-Running i d v l pos lt =
      let (hd, taken, inner) = r.held i l in
      let g = store (i + d) v h in
      let same : (k : ℕ) → head k ≡ true → g.array k ≡ h.array k =
        λ k hk. store_ne (i + d) v h k (interior h head 0 0 r.ordered.tiled i d k hd hk pos lt).0 in
      let apart : (f n : ℕ)
          → available h head f ≡ true
          → n < 3
          → g.array (f + n) ≡ h.array (f + n) =
        λ f n a small. store_ne (i + d) v h (f + n) (λ e.
          links-taken h head rank 0 0 r.ordered f i (i + d) n a hd taken (omega arith) (omega arith)
            small (sym e)) in
      (
        head,
        rank,
        record {
          ordered = record {
            tiled = IsTiled-store h head 0 0 r.ordered.tiled i d v hd pos lt;
            linked =
                subst (λ f. IsLinked g f rank) (sym (available-ext h g head same))
                  (IsLinked-ext h g (available h head) rank r.ordered.linked refl refl
                    (λ f a. apart f 1 a (omega arith)) (λ f a. apart f 2 a (omega arith)));
          };
          merged = λ k a.
              let old = sym (ap (λ f. f k) (available-ext h g head same)) ∙ a in
              let there =
                ap (λ n. k + n) (size-ext g h k k (same k (available-parts h head k old).0)) in
              ap (is_taken g) there
              ∙ is_taken-ext g h (end_of h k) (end_of h k)
                  (same (end_of h k) (available-next h head rank 0 0 r.ordered k refl old))
              ∙ r.merged k old;
          placed = IsPlaced-same h g refl refl r.placed;
          held = λ k m.
              let old = r.held k m in (old.0, is_taken-ext g h k k (same k old.0) ∙ old.1, old.2);
        },
      )

  -- The pointers of one heap tell the blocks apart.
  claims-Runs :
      (bytes i : ℕ) (g : Heap)
      → bytes ≢ 0
      → malloc bytes h ≡ some (pointer h i, g)
      → Running g (updated live i true)
  claims-Runs bytes i g nz e = elim (malloc_lem h head rank r.ordered r.placed bytes nz) [
    | inl (none_left, small) ↦
        let pair = some_inj (sym none_left ∙ e) in absurd (omega (arith, ap (λ x. x.0) pair))
    | inr (it, g', head', rank', e', c) ↦
        let pair = some_inj (sym e' ∙ e) in
        let index : it ≡ i = omega (arith, ap (λ x. x.0) pair) in
        subst (λ k. Running g (updated live k true)) index
          (subst (λ f. Running f (updated live it true)) (ap (λ x. x.1) pair)
            (claims-Running bytes it g' head' rank' c))
  ]

  refuses-Runs : (bytes : ℕ) (g : Heap) → bytes ≢ 0 → malloc bytes h ≡ some (0, g) → Running g live
  refuses-Runs bytes g nz e = elim (malloc_lem h head rank r.ordered r.placed bytes nz) [
    | inl (none_left, small) ↦
        let pair = some_inj (sym none_left ∙ e) in
        subst (λ f. Running f live) (ap (λ x. x.1) pair) (head, rank, r)
    | inr (it, g', head', rank', e', c) ↦
        let pair = some_inj (sym e' ∙ e) in absurd (omega (arith, ap (λ x. x.0) pair))
  ]

  frees-Runs :
      (i : ℕ) (g : Heap)
      → live i ≡ true
      → free (pointer h i) h ≡ some g
      → Running g (updated live i false)
  frees-Runs i g l e =
      let (hd, taken, inner) = r.held i l in
      let (lo, g', head', rank', e', f) =
        free_lem h head rank r.ordered r.placed i hd taken inner in
      subst (λ k. Running k (updated live i false)) (some_inj (sym e' ∙ e))
        (frees-Running i lo l g' head' rank' f)

module _ (start : Heap) (first : Running start (λ i. false)) where
  pub Running-steps : (h : Heap) (live : ℕ → Bool) → Runs start h live → Running h live
  Running-steps h live begins = first
  Running-steps h live (claims h0 g l bytes i r nz e) =
      let (head, rank, w) = Running-steps h0 l r in claims-Runs h0 head rank l w bytes i g nz e
  Running-steps h live (refuses h0 g l bytes r nz e) =
      let (head, rank, w) = Running-steps h0 l r in refuses-Runs h0 head rank l w bytes g nz e
  Running-steps h live (frees h0 g l i r held e) =
      let (head, rank, w) = Running-steps h0 l r in frees-Runs h0 head rank l w i g held e
  Running-steps h live (writes h0 l i d v r held pos lt) =
      let (head, rank, w) = Running-steps h0 l r in
      writes-Running h0 head rank l w i d v held pos lt
