-- ===== src/Heap/Claim/Cut.antt =====
-- The block that `malloc` of kernel/heap.cc has found is taken, cut in two if enough is left.
use networking_p.Prelude.{
  ℕ, ap, ==-cases, ◌+◌, ◌-◌, ◌%◌, ◌^◌, ◌≤◌, ◌<◌, ◌≡◌, inl, inr, refl, ◌∙◌, Bool, true, false, leb,
  Option, some, ==_iff, Bool-cases, lt→ltb, arith,
}
use networking_p.Prelude.Sets.{updated, updated_self}
use networking_p.Prelude.Words.{u64}
use networking_p.Heap.{
  Heap, store, is_taken, size, set_ends, push, remove, make_taken, make_avail, take_block,
}
use networking_p.Heap.Words.{size-ext, size_even, is_taken-ext, to_int_lem}
use networking_p.Heap.Tiles.{end_of}
use networking_p.Heap.Links.Remove.{remove_rest}
use networking_p.Heap.Order.{
  available, available-parts, available-bounds, IsHeap, IsAfter, IsHeap-closed, Keeps, Keeps-trans,
  size-small, available-next, IsMerged, IsMerged-kept, Spares, Keeps-taken,
}
use networking_p.Heap.Order.Drop.{IsHeap-remove, Keeps-remove, Spares-remove}
use networking_p.Heap.Order.Fill.{
  IsHeap-set_ends, IsHeap-push, Keeps-set_ends, Keeps-push, push_end_rest, set_ends-size,
  push-available, Spares-set_ends, Spares-push,
}

-- A block is taken that has so many words.
pub record IsTaken (g : Heap) (head : ℕ → Bool) (it entries : ℕ) : Type 0 where
  pub begins : head it ≡ true
  pub taken : is_taken g it ≡ true
  pub large : entries ≤ size g it

pub make_taken_lem :
    (i n : ℕ) (h : Heap) → n % 2 ≡ 0 → make_taken i n h ≡ some (set_ends i (n + 1) h)
unfolding make_taken
make_taken_lem i n h even = let ok = (==_iff (n % 2) 0).1 even in rw ok refl

pub make_avail_lem :
    (i n : ℕ) (h : Heap) → n % 2 ≡ 0 → make_avail i n h ≡ some (push i (set_ends i n h))
unfolding make_avail
make_avail_lem i n h even = let ok = (==_iff (n % 2) 0).1 even in rw ok refl

module _ (h : Heap) (head : ℕ → Bool) (rank : ℕ → ℕ) (w : IsHeap h head rank 0 0) (entries it : ℕ)
    (even : entries % 2 ≡ 0) (room : 4 ≤ entries) (a : available h head it ≡ true)
    (fits : entries ≤ size h it) where
  rest : ℕ → Bool
  rest = updated head it false

  h1 : Heap
  h1 = remove it h

  w1 : IsHeap h1 rest rank it (end_of h it)
  unfolding h1 rest
  w1 = IsHeap-remove h head rank 0 0 w it a it (end_of h it) (inl (refl, refl, refl))

  kept1 : Keeps h head h1 rest
  unfolding h1 rest
  kept1 = Keeps-remove h head rank 0 0 w it a

  counts1 :
      (h1.len ≡ h.len) × (h1.base ≡ h.base) × (h1.n_malloc ≡ h.n_malloc) × (h1.n_free ≡ h.n_free)
  unfolding h1
  counts1 = remove_rest h (available h head) rank w.linked it a

  sized : (i : ℕ) → head i ≡ true → 0 < size h i
  sized i hd = omega (arith, w.tiled.inside i hd)

  sized1 : (i : ℕ) → rest i ≡ true → 0 < size h1 i
  sized1 i hd = omega (arith, w1.tiled.inside i hd)

  h2 : ℕ → Heap
  h2 n = set_ends it (n + 1) h1

  -- The first words of the block.
  module _ (n : ℕ) (even' : n % 2 ≡ 0) (room' : 4 ≤ n) (fits' : it + n ≤ end_of h it) where
    w2 : IsHeap (h2 n) (updated rest it true) rank (it + n) (end_of h it)
    unfolding h2
    w2 = IsHeap-set_ends h1 rest rank it (end_of h it) w1 n even' room' fits'

    kept2 : Keeps h head (h2 n) (updated rest it true)
    unfolding h2
    kept2 =
        Keeps-trans h h1 (h2 n) head rest (updated rest it true) sized kept1
          (Keeps-set_ends h1 rest rank it (end_of h it) w1 n even' room' fits')

    spares2 : Spares h head (h2 n) (updated rest it true) it
    unfolding h2 h1 rest
    spares2 i e =
        let (e', same) = Spares-set_ends h1 rest rank it (end_of h it) w1 n even' room' fits' i e in
        let (ne, a', same') = Spares-remove h head rank 0 0 w it a i e' in (ne, a', same ∙ same')

    new2 : (size (h2 n) it ≡ n) × (is_taken (h2 n) it ≡ true)
    unfolding h2
    new2 = set_ends-size h1 rest rank it (end_of h it) w1 n even' room' fits' true

    counts2 :
        ((h2 n).len ≡ h1.len)
        × ((h2 n).base ≡ h1.base)
        × ((h2 n).n_malloc ≡ h1.n_malloc)
        × ((h2 n).n_free ≡ h1.n_free)
    unfolding h2 set_ends store
    counts2 = (refl, refl, refl, refl)

  taken2 : ℕ → Bool
  taken2 = updated rest it true

  taken_here : taken2 it ≡ true
  unfolding taken2
  taken_here = updated_self rest it true

  even_size : size h it % 2 ≡ 0
  even_size = size_even h it

  -- The end of the block is cut off.
  module _ (extra : ℕ) (left_over : extra ≡ size h it - entries) (enough : 4 ≤ extra) where
    cut : Heap
    cut = push (it + entries) (set_ends (it + entries) extra (h2 entries))

    cut_head : ℕ → Bool
    cut_head = updated taken2 (it + entries) true

    cut_fits : it + entries ≤ end_of h it
    cut_fits = omega arith

    cut_even : extra % 2 ≡ 0
    cut_even = omega (arith, even_size)

    cut_rank : ℕ → ℕ
    cut_rank = updated rank (it + entries) (rank (h2 entries).avail + 1)

    w3 : IsHeap cut cut_head cut_rank (it + entries + extra) (end_of h it)
    unfolding cut cut_head cut_rank taken2
    w3 =
        IsHeap-push (h2 entries) taken2 rank (it + entries) (end_of h it)
          (w2 entries even room cut_fits) extra cut_even enough (omega arith)

    kept3 : Keeps (h2 entries) taken2 cut cut_head
    unfolding cut cut_head taken2
    kept3 =
        Keeps-push (h2 entries) taken2 rank (it + entries) (end_of h it)
          (w2 entries even room cut_fits) extra cut_even enough (omega arith)

    counts3 :
        (cut.len ≡ (h2 entries).len)
        × (cut.base ≡ (h2 entries).base)
        × (cut.n_malloc ≡ (h2 entries).n_malloc)
        × (cut.n_free ≡ (h2 entries).n_free)
    unfolding cut taken2
    counts3 =
        push_end_rest (h2 entries) taken2 rank (it + entries) (end_of h it)
          (w2 entries even room cut_fits) extra cut_even enough (omega arith)

    kept_cut : Keeps h head cut cut_head
    unfolding taken2
    kept_cut =
        Keeps-trans h (h2 entries) cut head taken2 cut_head sized (kept2 entries even room cut_fits)
          kept3

    -- The block behind is the one behind the block that was cut.
    rest_taken : IsMerged h head → is_taken cut (end_of cut (it + entries)) ≡ true
    unfolding cut cut_head taken2
    rest_taken m =
        let words =
          (push-available (h2 entries) taken2 rank (it + entries) (end_of h it)
            (w2 entries even room cut_fits) extra cut_even enough (omega arith)).1 in
        let there : end_of cut (it + entries) ≡ end_of h it = omega (arith, words) in
        let hd = available-next h head rank 0 0 w it refl a in
        ap (is_taken cut) there
        ∙ Keeps-taken h head cut cut_head kept_cut (end_of h it) hd (sized (end_of h it) hd)
            (m it a)

    IsMerged-cut : IsMerged h head → IsMerged cut cut_head
    unfolding cut cut_head taken2
    IsMerged-cut m i e = elim (==-cases i (it + entries)) [
      | inl q ↦ ap (λ k. is_taken cut (end_of cut k)) q ∙ rest_taken m
      | inr ne ↦
          let (e', same) =
            Spares-push (h2 entries) taken2 rank (it + entries) (end_of h it)
              (w2 entries even room cut_fits) extra cut_even enough (omega arith) i e ne in
          let (other, old, same') = spares2 entries even room cut_fits i e' in
          IsMerged-kept h head rank 0 0 w cut head cut_head refl m kept_cut i old (same ∙ same')
            (λ x. x)
    ]

    after_cut : IsAfter h head cut cut_head cut_rank × IsTaken cut cut_head it entries
    unfolding taken2
    after_cut =
        let whole = new2 entries even room cut_fits in
        let (begins, words) = kept3 it taken_here whole.1 in
        let here = words it (omega arith) (omega (arith, whole.0)) in
        (
          record {
            ordered =
                IsHeap-closed cut cut_head cut_rank (it + entries + extra) (end_of h it) w3
                  (omega arith);
            kept = kept_cut;
            same_len = counts3.0 ∙ (counts2 entries even room cut_fits).0 ∙ counts1.0;
            same_base = counts3.1 ∙ (counts2 entries even room cut_fits).1 ∙ counts1.1;
          },
          record {
            begins = begins;
            taken = is_taken-ext cut (h2 entries) it it here ∙ whole.1;
            large = omega (arith, whole.0, size-ext cut (h2 entries) it it here);
          },
        )

  after_whole :
      IsAfter h head (h2 (size h it)) taken2 rank × IsTaken (h2 (size h it)) taken2 it entries
  unfolding taken2
  after_whole =
      let all : 4 ≤ size h it = omega arith in
      let full : it + size h it ≤ end_of h it = omega arith in
      let whole = new2 (size h it) even_size all full in
      (
        record {
          ordered =
              IsHeap-closed (h2 (size h it)) taken2 rank (it + size h it) (end_of h it)
                (w2 (size h it) even_size all full) refl;
          kept = kept2 (size h it) even_size all full;
          same_len = (counts2 (size h it) even_size all full).0 ∙ counts1.0;
          same_base = (counts2 (size h it) even_size all full).1 ∙ counts1.1;
        },
        record { begins = taken_here; taken = whole.1; large = omega (arith, whole.0) },
      )

  IsMerged-whole : IsMerged h head → IsMerged (h2 (size h it)) taken2
  unfolding taken2
  IsMerged-whole m i e =
      let all : 4 ≤ size h it = omega arith in
      let full : it + size h it ≤ end_of h it = omega arith in
      let (other, old, same) = spares2 (size h it) even_size all full i e in
      IsMerged-kept h head rank 0 0 w (h2 (size h it)) head taken2 refl m
        (kept2 (size h it) even_size all full) i old same (λ x. x)

  -- What `take_block` makes of the heap without the block's links.
  abbrev pub Took : Option Heap → Type 0
  Took o =
      (g : Heap) × (head' : ℕ → Bool) × (rank' : ℕ → ℕ) × (o ≡ some g)
      × IsAfter h head g head' rank'
      × IsTaken g head' it entries
      × (IsMerged h head → IsMerged g head')
      × (g.n_malloc ≡ h.n_malloc)
      × (g.n_free ≡ h.n_free)

  fits_whole : it + entries ≤ end_of h it
  fits_whole = omega arith

  pub take_block_lem : Took (take_block it (size h it) entries (remove it h))
  unfolding take_block cut h2 h1 set_ends store
  take_block_lem =
      let small = size-small h head rank 0 0 w it (available-parts h head it a).0 in
      let wrapped : u64 (size h it + 2 ^ 64 - entries) ≡ size h it - entries = omega arith in
      let signed = to_int_lem (size h it - entries) (omega arith) in
      let positive = lt→ltb (size h it - entries) (2 ^ 63) (omega arith) in
      rw (wrapped, signed, positive)
        (elim (Bool-cases (leb 4 (size h it - entries))) [
          | inl e ↦
              let enough : 4 ≤ size h it - entries = ground (arith, e) in
              let place : u64 (it + entries) ≡ it + entries =
                omega (arith, (available-bounds h head rank 0 0 w it a).1, w.tiled.small) in
              let (after, taken) = after_cut (size h it - entries) refl enough in
              let counts = counts3 (size h it - entries) refl enough in
              let counts' = counts2 entries even room fits_whole in
              rw (e, make_taken_lem it entries (remove it h) even, place)
                (
                  cut (size h it - entries) refl enough,
                  _,
                  _,
                  make_avail_lem (it + entries) (size h it - entries) (h2 entries)
                      (cut_even (size h it - entries) refl enough),
                  after,
                  taken,
                  IsMerged-cut (size h it - entries) refl enough,
                  counts.2 ∙ counts'.2 ∙ counts1.2,
                  counts.3 ∙ counts'.3 ∙ counts1.3,
                )
          | inr e ↦
              let (after, taken) = after_whole in
              rw e (
                h2 (size h it),
                _,
                _,
                make_taken_lem it (size h it) (remove it h) even_size,
                after,
                taken,
                IsMerged-whole,
                counts1.2,
                counts1.3,
              )
        ])
