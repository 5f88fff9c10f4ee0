-- ===== src/Heap/Claim.antt =====
-- `malloc` of kernel/heap.cc on a heap in order.
pub mod Cut
use networking_p.Prelude.{
  ℕ, ◌+◌, ◌-◌, ◌*◌, ◌%◌, ◌^◌, ◌≤◌, ◌<◌, ◌≡◌, ◌≢◌, ◌⊎◌, inl, inr, refl, ap, Bool, true, ◌==◌, Option,
  some, ne→==, arith,
}
use networking_p.Prelude.Words.{u64}
use networking_p.Heap.{Heap, is_taken, size, entries_for, hand_out, malloc}
use networking_p.Heap.Search.{avail-IsReached, search_lem}
use networking_p.Heap.Order.{
  available, available-parts, available-bounds, IsHeap, IsAfter, IsMerged, IsHeap-counted,
  size-small,
}
use networking_p.Heap.Claim.Cut.{IsTaken, take_block_lem}

-- The address space has room for the heap, whose words at odd indices are aligned to 16 bytes.
pub record IsPlaced (h : Heap) : Type 0 where
  pub aligned : h.base % 16 ≡ 8
  pub room : h.base + 8 * h.len ≤ 2 ^ 64

pub entries_for-bounds : (bytes : ℕ) → (entries_for bytes % 2 ≡ 0) × (4 ≤ entries_for bytes)
unfolding entries_for
entries_for-bounds bytes = ground arith

-- There is room for the bytes between the two ends of the block, unless the count is near 2^64.
pub entries_for-large : (bytes : ℕ) → bytes ≤ 2 ^ 64 - 8 → bytes + 16 ≤ 8 * entries_for bytes
unfolding entries_for
entries_for-large bytes le = ground arith

module _ (h : Heap) (head : ℕ → Bool) (rank : ℕ → ℕ) (w : IsHeap h head rank 0 0) (p : IsPlaced h)
    (bytes : ℕ) where
  -- A block that was available is taken for the caller.
  pub record IsClaimed (it : ℕ) (g : Heap) (head' : ℕ → Bool) (rank' : ℕ → ℕ) : Type 0 where
    pub was : available h head it ≡ true
    pub after : IsAfter h head g head' rank'
    pub block : IsTaken g head' it (entries_for bytes)
    pub merged : IsMerged h head → IsMerged g head'
    pub one_more : g.n_malloc ≡ u64 (h.n_malloc + 1)
    pub frees : g.n_free ≡ h.n_free

  abbrev pub TooSmall : Type 0
  TooSmall = (j : ℕ) → available h head j ≡ true → size h j < entries_for bytes

  abbrev pub Mallocs : Option (ℕ × Heap) → Type 0
  Mallocs o =
      ((o ≡ some (0, h)) × TooSmall)
      ⊎ ((it : ℕ) × (g : Heap) × (head' : ℕ → Bool) × (rank' : ℕ → ℕ) × (o
            ≡ some (h.base + 8 * (it + 1), g))
          × IsClaimed it g head' rank')

  hand_out_lem :
      (it : ℕ)
      → available h head it ≡ true
      → entries_for bytes ≤ size h it
      → Mallocs (hand_out it (size h it) (entries_for bytes) h)
  unfolding hand_out available is_taken size
  hand_out_lem it a fits =
      let bounds = entries_for-bounds bytes in
      let (g, head', rank', e, after, block, merged, mallocs, frees) =
        take_block_lem h head rank w (entries_for bytes) it bounds.0 bounds.1 a fits in
      let (sized, ends) = available-bounds h head rank 0 0 w it a in
      let inside = (w.linked.inside it a).0 in
      let some_block = ne→== it 0 (λ z. omega arith) in
      let place : u64 (h.base + 8 * u64 (it + 1)) ≡ h.base + 8 * (it + 1) =
        omega (arith, p.room, w.tiled.small) in
      inr (
        it,
        record g { n_malloc = u64 (g.n_malloc + 1) },
        head',
        rank',
        rw (hand_out, some_block, e, place, ne→== (h.base + 8 * (it + 1)) 0 (λ z. omega arith))
            refl,
        record {
          was = a;
          after = record {
            ordered =
                IsHeap-counted g head' rank' 0 0 after.ordered (u64 (g.n_malloc + 1)) g.n_free;
            kept = after.kept;
            same_len = after.same_len;
            same_base = after.same_base;
          };
          block = record { begins = block.begins; taken = block.taken; large = block.large };
          merged = merged;
          one_more = ap (λ n. u64 (n + 1)) mallocs;
          frees = frees;
        },
      )

  pub malloc_lem : bytes ≢ 0 → Mallocs (malloc bytes h)
  unfolding malloc hand_out
  malloc_lem nz =
      let untaken = λ (i : ℕ) (a : available h head i ≡ true). (available-parts h head i a).1 in
      let sized = λ (i : ℕ) (a : available h head i ≡ true).
        size-small h head rank 0 0 w i (available-parts h head i a).0 in
      let (it, mx, e, found, none_left) =
        search_lem h (available h head) rank w.linked untaken sized (entries_for bytes) h.len
          h.avail 20 (2 ^ 64 - 1) 0
          (avail-IsReached h (available h head) rank w.linked untaken sized (entries_for bytes))
          (inl (refl, refl)) in
      let some_bytes = ne→== bytes 0 nz in
      rw (malloc, some_bytes, e)
        (elim found [
          | inl (z, m) ↦
              inl (rw z refl, λ j a. (none_left z).1 j a (w.linked.top j a).0 (w.linked.top j a).1)
          | inr (a, m, fits) ↦ rw m (hand_out_lem it a fits)
        ])
