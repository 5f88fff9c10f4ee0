-- ===== src/Heap/Promises.antt =====
-- What the heap of kernel/heap.cc promises to the program at any time after `heap::init`.
use networking_p.Prelude.{
  ℕ, ==-cases, ==_refl, refl, none, ne→==, ◌+◌, ◌-◌, ◌*◌, ◌%◌, ◌^◌, ◌≤◌, ◌<◌, ◌≡◌, ◌≢◌, ◌⊎◌, inl,
  inr, ap, sym, ◌∙◌, subst, Bool, true, false, Option, some, some_inj, Bool-cases, order-cases,
  arith,
}
use mathlib.Core.Bool.{false≢true}
use networking_p.Prelude.Sets.{updated, updated_ne, removed_parts}
use networking_p.Prelude.Words.{u64}
use networking_p.Heap.{Heap, size, malloc, free, operator_new, operator_delete, entries_for, init}
use networking_p.Heap.Words.{size-ext}
use networking_p.Heap.Tiles.{end_of}
use networking_p.Heap.Order.{available, available-parts, IsAfter}
use networking_p.Heap.Start.{init_lem}
use networking_p.Heap.Start.Fresh.{IsFresh-IsHeap, start-IsMerged}
use networking_p.Heap.Claim.{entries_for-large, malloc_lem}
use networking_p.Heap.Release.{free_lem}
use networking_p.Heap.Runs.{pointer, Runs, IsRunning, Running, Running-steps}

-- The words of the live blocks are as they were.
abbrev pub KeepsLive : Heap → Heap → (ℕ → Bool) → Type 0
KeepsLive h g live = (j k : ℕ) → live j ≡ true → j ≤ k → k < end_of h j → g.array k ≡ h.array k

-- For no bytes the address of the heap itself, which is no block's and which `free` ignores. Otherwise
-- null and no available block with enough words, or a block that no one holds, aligned to 16 bytes.
abbrev pub Serves : Heap → (ℕ → Bool) → ℕ → Option (ℕ × Heap) → Option (ℕ × Heap) → Type 0
Serves h live bytes o o' =
    ((bytes ≡ 0)
      × (o ≡ some (h.base, h))
      × (o' ≡ some (h.base, h))
      × ((j : ℕ) → pointer h j ≢ h.base)
      × (free h.base h ≡ some h))
    ⊎ (((head : ℕ → Bool) × (rank : ℕ → ℕ) × IsRunning h head rank live
          × (bytes ≢ 0)
          × (o ≡ some (0, h))
          × (o' ≡ none)
          × ((j : ℕ) → available h head j ≡ true → size h j < entries_for bytes))
        ⊎ ((i : ℕ) × (g : Heap) × (o ≡ some (pointer h i, g))
            × (o' ≡ some (pointer h i, g))
            × (bytes ≢ 0)
            × (live i ≡ false)
            × (pointer h i % 16 ≡ 0)
            × (bytes + 16 ≤ 8 * size g i)
            × (end_of g i ≤ h.len)
            × ((j : ℕ) → live j ≡ true → (end_of h j ≤ i) ⊎ (end_of g i ≤ j))
            × KeepsLive h g live))

-- `operator new` makes a panic of null.
operator_new-null :
    (bytes : ℕ) (h : Heap) → malloc bytes h ≡ some (0, h) → operator_new bytes h ≡ none
unfolding operator_new
operator_new-null bytes h e = rw e refl

operator_new-pointer :
    (bytes : ℕ) (h : Heap) (i : ℕ) (g : Heap)
    → malloc bytes h ≡ some (pointer h i, g)
    → operator_new bytes h ≡ some (pointer h i, g)
unfolding operator_new
operator_new-pointer bytes h i g e =
    let nonzero = ne→== (pointer h i) 0 (λ z. omega arith) in rw (e, nonzero) refl

-- `malloc(0)` gives the address of the heap, which is not null.
malloc-zero :
    (h : Heap) (live : ℕ → Bool) → 0 < h.base → Serves h live 0 (malloc 0 h) (operator_new 0 h)
unfolding operator_new malloc free
malloc-zero h live pos =
    let nonzero = ne→== h.base 0 (λ z. omega arith) in
    inl (refl, refl, rw nonzero refl, λ j e. omega arith, rw (nonzero, ==_refl h.base) refl)

module _ (base room : ℕ) (array : ℕ → ℕ) (fits : base + room ≤ 2 ^ 64) (enough : 96 ≤ room)
    (small : room < 2 ^ 34) (start : Heap) (begun : init base room array ≡ some start) (h : Heap)
    (live : ℕ → Bool) (run : Runs start h live) where
  -- After `init` of a region of 96 bytes to 16 GiB and any calls of `malloc` and `free`, the latter with
  -- pointers that are held, and any writes to the words of blocks that are held but their two ends:
  -- the blocks lie one behind the other without a gap, each with the same word at both ends, the list
  -- links exactly those that are not taken, no two of these lie side by side, and every block that is
  -- held is one of those taken.
  pub Running-Runs : Running h live
  Running-Runs =
      let (h0, e, fresh, placed, above, below, mallocs, frees) =
        init_lem base room array fits enough small in
      let first : Running h0 (λ i. false) = (
        _,
        _,
        record {
          ordered = IsFresh-IsHeap h0 fresh;
          merged = start-IsMerged h0 fresh;
          placed = placed;
          held = λ i l. absurd (false≢true l);
        },
      ) in
      Running-steps start (subst (λ g. Running g (λ i. false)) (some_inj (sym e ∙ begun)) first) h
        live run

  -- A block that was available is not held.
  new_block :
      (head : ℕ → Bool) (rank : ℕ → ℕ)
      → IsRunning h head rank live
      → (i : ℕ) → available h head i ≡ true
      → live i ≡ false
  new_block head rank r i a = elim (Bool-cases (live i)) [
    | inl l ↦ absurd (false≢true (sym (available-parts h head i a).1 ∙ (r.held i l).1))
    | inr n ↦ n
  ]

  clear :
      (head : ℕ → Bool) (rank : ℕ → ℕ)
      → IsRunning h head rank live
      → (i : ℕ) (g : Heap) (head' : ℕ → Bool) (rank' : ℕ → ℕ) → available h head i ≡ true
      → IsAfter h head g head' rank'
      → head' i ≡ true
      → (j : ℕ) → live j ≡ true
      → (end_of h j ≤ i) ⊎ (end_of g i ≤ j)
  clear head rank r i g head' rank' a after begins j l =
      let (hd, taken, inner) = r.held j l in
      let (hd', words) = after.kept j hd taken in
      let same =
        size-ext g h j j (words j (omega arith) (omega (arith, r.ordered.tiled.inside j hd))) in
      elim (order-cases i j) [
        | inl lt ↦ inr (after.ordered.tiled.apart i j begins hd' lt)
        | inr rest ↦ elim rest [
          | inl e ↦ absurd (false≢true (sym (new_block head rank r i a) ∙ ap live e ∙ l))
          | inr lt ↦ inl (omega (arith, same, after.ordered.tiled.apart j i hd' begins lt))
        ]
      ]

  malloc-some :
      (bytes : ℕ)
      → bytes ≢ 0
      → bytes ≤ 2 ^ 64 - 8
      → Serves h live bytes (malloc bytes h) (operator_new bytes h)
  malloc-some bytes nz le =
      let (head, rank, r) = Running-Runs in
      elim (malloc_lem h head rank r.ordered r.placed bytes nz) [
        | inl (e, none_left) ↦
            inr (inl (head, rank, r, nz, e, operator_new-null bytes h e, none_left))
        | inr (i, g, head', rank', e, c) ↦
            let (hd, untaken) = available-parts h head i c.was in
            inr (
              inr (
                i,
                g,
                e,
                operator_new-pointer bytes h i g e,
                nz,
                new_block head rank r i c.was,
                omega (arith, r.placed.aligned, r.ordered.tiled.even i hd),
                omega (arith, c.block.large, entries_for-large bytes le),
                omega (arith, c.after.same_len, c.after.ordered.tiled.inside i c.block.begins),
                λ j l. clear head rank r i g head' rank' c.was c.after c.block.begins j l,
                λ j k l le lt. (c.after.kept j (r.held j l).0 (r.held j l).1).1 k le lt,
              ))
      ]

  -- In such a run `malloc` of no bytes gives the address of the heap, which is not null, is no block's
  -- and is ignored by `free`, and changes nothing. `malloc` of 1 to 2^64 - 8 bytes either returns null,
  -- changes nothing, and no available block has enough words, or it returns a block that no one holds,
  -- aligned to 16 bytes, with room for the bytes, in the heap and apart from every block that is held; the
  -- words of these are as they were. `operator new` panics where `malloc` returns null and gives the same
  -- otherwise.
  pub malloc-Runs :
      (bytes : ℕ) → bytes ≤ 2 ^ 64 - 8 → Serves h live bytes (malloc bytes h) (operator_new bytes h)
  malloc-Runs bytes le = elim (==-cases bytes 0) [
    | inl e ↦
        let (head, rank, r) = Running-Runs in
        subst (λ n. Serves h live n (malloc n h) (operator_new n h)) (sym e)
          (malloc-zero h live (omega (arith, r.placed.aligned)))
    | inr nz ↦ malloc-some bytes nz le
  ]

  -- In such a run `free` of a block that is held, and so `operator delete`, returns, counts one more, and leaves the words of all
  -- other blocks that are held as they were.
  pub free-Runs :
      (i : ℕ)
      → live i ≡ true
      → (g : Heap) × (free (pointer h i) h ≡ some g)
        × (operator_delete (pointer h i) h ≡ some g)
        × KeepsLive h g (updated live i false)
        × (g.n_malloc ≡ h.n_malloc)
        × (g.n_free ≡ u64 (h.n_free + 1))
  unfolding operator_delete
  free-Runs i l =
      let (head, rank, r) = Running-Runs in
      let (hd, taken, inner) = r.held i l in
      let (lo, g, head', rank', e, f) = free_lem h head rank r.ordered r.placed i hd taken inner in
      (
        g,
        e,
        e,
        λ j k m le lt.
            let (ne, lj) = removed_parts live i j m in
            let old = r.held j lj in
            (f.after.kept j (updated_ne head i j false ne ∙ old.0) old.1).1 k le lt,
        f.mallocs,
        f.one_more,
      )
