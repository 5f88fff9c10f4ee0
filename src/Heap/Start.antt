-- ===== src/Heap/Start.antt =====
-- `heap::init` of kernel/heap.cc: the two marks, and one available block between them.
pub mod Fresh
use networking_p.Prelude.{
  ℕ, ◌+◌, ◌-◌, ◌*◌, ◌/◌, ◌%◌, ◌^◌, ◌≤◌, ◌<◌, ◌≡◌, refl, ap, ◌∙◌, true, false, some, ◌==◌, leb,
  ==_iff, lt→ltb, arith,
}
use networking_p.Prelude.Words.{u64}
use networking_p.Prelude.Assert.{◌>>=◌}
use networking_p.Heap.{Heap, store, set_ends, push, make_avail, make_taken, init}
use networking_p.Heap.Words.{set_ends_lem}
use networking_p.Heap.Links.Pushed.{pushed, push_lem}
use networking_p.Heap.Claim.Cut.{make_taken_lem, make_avail_lem}
use networking_p.Heap.Claim.{IsPlaced}
use networking_p.Heap.Start.Fresh.{IsFresh}

-- The three blocks that `init` writes.
built : Heap → Heap
built h =
    let h1 = store 1 3 (store 0 3 h) in
    let h2 = pushed 2 (store (h.len - 3) (h.len - 4) (store 2 (h.len - 4) h1)) in
    store (h.len - 1) 3 (store (h.len - 2) 3 h2)

module _ (h : Heap) (room : 8 < h.len) (small : h.len < 2 ^ 31) (even : h.len % 2 ≡ 0)
    (empty : h.avail ≡ 0) where
  built-IsFresh : IsFresh (built h)
  unfolding built store
  built-IsFresh = record {
    room = ground (arith, room, empty);
    small = ground (arith, small, empty);
    even = ground (arith, even, empty);
    first = (ground (arith, room, empty), ground (arith, room, empty));
    middle = (ground (arith, room, empty), ground (arith, room, empty));
    links = (ground (arith, room, empty), ground (arith, room, empty));
    last = (ground (arith, room, empty), ground (arith, room, empty));
    front = ground (arith, empty);
  }

  built_rest :
      ((built h).base ≡ h.base)
      × ((built h).len ≡ h.len)
      × ((built h).n_malloc ≡ h.n_malloc)
      × ((built h).n_free ≡ h.n_free)
  unfolding built store
  built_rest = ground (arith, empty)

  first_end : set_ends 0 3 h ≡ store 1 3 (store 0 3 h)
  first_end = set_ends_lem 0 2 true h refl (omega arith) (omega arith)

  middle_end :
      (g : Heap) → set_ends 2 (h.len - 4) g ≡ store (h.len - 3) (h.len - 4) (store 2 (h.len - 4) g)
  middle_end g =
      let place : 2 + (h.len - 4) - 1 ≡ h.len - 3 = omega arith in
      set_ends_lem 2 (h.len - 4) false g (omega arith) (omega arith) (omega arith)
      ∙ ap (λ k. store k (h.len - 4) (store 2 (h.len - 4) g)) place

  last_end : (g : Heap) → set_ends (h.len - 2) 3 g ≡ store (h.len - 1) 3 (store (h.len - 2) 3 g)
  last_end g =
      let place : h.len - 2 + 2 - 1 ≡ h.len - 1 = omega arith in
      set_ends_lem (h.len - 2) 2 true g refl (omega arith) (omega arith)
      ∙ ap (λ k. store k 3 (store (h.len - 2) 3 g)) place

  built_lem : set_ends (h.len - 2) 3 (push 2 (set_ends 2 (h.len - 4) (set_ends 0 3 h))) ≡ built h
  unfolding built store
  built_lem =
      let h1 = store 1 3 (store 0 3 h) in
      let h2 = store (h.len - 3) (h.len - 4) (store 2 (h.len - 4) h1) in
      last_end (push 2 (set_ends 2 (h.len - 4) (set_ends 0 3 h)))
      ∙ ap (λ g. store (h.len - 1) 3 (store (h.len - 2) 3 g))
          (ap (push 2) (ap (set_ends 2 (h.len - 4)) first_end ∙ middle_end h1)
            ∙ push_lem 2 h2 (omega arith) (omega (arith, empty)))

  -- `init` after its checks.
  written :
      (do h1 ← make_taken 0 2 h; h2 ← make_avail 2 (h.len - 4) h1; make_taken (h.len - 2) 2 h2)
      ≡ some (built h)
  written =
      rw (make_taken_lem 0 2 h refl, make_avail_lem 2 (h.len - 4) (set_ends 0 3 h) (omega arith))
        (make_taken_lem (h.len - 2) 2 (push 2 (set_ends 2 (h.len - 4) (set_ends 0 3 h))) refl
          ∙ ap some built_lem)

module _ (base bytes : ℕ) (array : ℕ → ℕ) (fits : base + bytes ≤ 2 ^ 64) (room : 96 ≤ bytes)
    (small : bytes < 2 ^ 34) where
  aligned_base : ℕ
  aligned_base = (base + 23) / 16 * 16 - 8

  words : ℕ
  words = (bytes - (aligned_base - base)) / 16 * 16 / 8

  raw : Heap
  raw = record {
    base = aligned_base;
    array = array;
    len = words;
    avail = 0;
    n_malloc = 0;
    n_free = 0;
    n_leak = 0;
  }

  aligned_bounds : (aligned_base % 16 ≡ 8) × (base ≤ aligned_base) × (aligned_base < base + 16)
  unfolding aligned_base
  aligned_bounds = (omega arith, omega arith, omega arith)

  words_bounds :
      (8 < words) × (words < 2 ^ 31) × (words % 2 ≡ 0) × (aligned_base + 8 * words ≤ base + bytes)
  unfolding words
  words_bounds = (
    omega (arith, aligned_bounds),
    omega (arith, aligned_bounds),
    omega (arith, aligned_bounds),
    omega (arith, aligned_bounds),
  )

  -- `init` of a region of 96 bytes to 16 GiB, which ends within the address space, passes its checks
  -- and writes the two marks and one available block between them, in the region, at an address that is
  -- 8 modulo 16; no call is counted yet.
  pub init_lem :
      (h : Heap) × (init base bytes array ≡ some h)
      × IsFresh h
      × IsPlaced h
      × (base ≤ h.base)
      × (h.base + 8 * h.len ≤ base + bytes)
      × (h.n_malloc ≡ 0)
      × (h.n_free ≡ 0)
  unfolding init words aligned_base raw
  init_lem =
      let place : u64 (u64 (base + 8 + 15) / 16 * 16 + 2 ^ 64 - 8) ≡ (base + 23) / 16 * 16 - 8 =
        omega (arith, aligned_bounds) in
      let (aligned, above, near) = aligned_bounds in
      let (enough, fewer, even, inside) = words_bounds in
      let t1 = (==_iff (aligned_base % 16) 8).1 aligned in
      let t2 : leb base aligned_base ≡ true = ground (arith, above) in
      let t3 = lt→ltb (aligned_base - base) 16 (omega arith) in
      let t4 : leb (aligned_base - base) bytes ≡ true = ground (arith, near, room) in
      let t6 = (==_iff ((bytes - (aligned_base - base)) / 16 * 16 % 16) 0).1 (omega arith) in
      let t5 = lt→ltb 64 ((bytes - (aligned_base - base)) / 16 * 16) (omega arith) in
      let rest = built_rest raw enough fewer even refl in
      (
        built raw,
        rw (place, t1, t2, t3, t4, t6, t5) (written raw enough fewer even refl),
        built-IsFresh raw enough fewer even refl,
        record {
          aligned = ap (λ n. n % 16) rest.0 ∙ aligned;
          room = omega (arith, rest.0, rest.1, inside);
        },
        omega (arith, rest.0),
        omega (arith, rest.0, rest.1, inside),
        rest.2,
        rest.3,
      )
