-- ===== src/Heap/Release/Join.antt =====
-- `free` of kernel/heap.cc takes the available neighbours of a block into the gap, and makes all of it
-- one available block.
use networking_p.Prelude.{
  ℕ, ◌⊎◌, ◌≢◌, ap, ◌+◌, ◌%◌, ◌≤◌, ◌<◌, ◌≡◌, inl, inr, refl, sym, ◌∙◌, Bool, true, false, Option,
  some, Bool-cases, arith,
}
use mathlib.Core.Bool.{false≢true}
use networking_p.Prelude.Sets.{updated}
use networking_p.Prelude.Words.{u64}
use networking_p.Heap.{
  Heap, is_taken, size, set_ends, push, remove, make_avail, to_int, join_left, join_right,
}
use networking_p.Heap.Words.{size_even, to_int_lem}
use networking_p.Heap.Tiles.{end_of}
use networking_p.Heap.Tiles.Gap.{Grows}
use networking_p.Heap.Links.Remove.{remove_rest}
use networking_p.Heap.Order.{
  available, available-parts, parts-available, IsHeap, IsAfter, IsHeap-closed, Keeps, Keeps-trans,
  Spares,
}
use networking_p.Heap.Order.Drop.{IsHeap-remove, Keeps-remove, remove-size, Spares-remove}
use networking_p.Heap.Order.Fill.{
  IsHeap-push, Keeps-push, push-available, push_end_rest, Spares-push,
}
use networking_p.Heap.Claim.Cut.{make_avail_lem}

-- The gap from `lo` to `hi` has `sz` words.
pub record IsOpened (h : Heap) (head : ℕ → Bool) (g : Heap) (head' : ℕ → Bool) (rank : ℕ → ℕ)
    (lo hi sz : ℕ) : Type 0 where
  pub ordered : IsHeap g head' rank lo hi
  pub kept : Keeps h head g head'
  pub full : lo + sz ≡ hi
  pub even : sz % 2 ≡ 0
  pub room : 4 ≤ sz
  pub counts :
      (g.len ≡ h.len) × (g.base ≡ h.base) × (g.n_malloc ≡ h.n_malloc) × (g.n_free ≡ h.n_free)

module _ (h : Heap) (head : ℕ → Bool) (g : Heap) (head' : ℕ → Bool) (rank : ℕ → ℕ) (lo hi sz : ℕ)
    (sized : (i : ℕ) → head i ≡ true → 0 < size h i)
    (o : IsOpened h head g head' rank lo hi sz) where
  -- An available block beside the gap becomes a part of it.
  module _ (j : ℕ) (a : available g head' j ≡ true) where
    counts_removed :
        ((remove j g).len ≡ h.len)
        × ((remove j g).base ≡ h.base)
        × ((remove j g).n_malloc ≡ h.n_malloc)
        × ((remove j g).n_free ≡ h.n_free)
    counts_removed =
        let own = remove_rest g (available g head') rank o.ordered.linked j a in
        (own.0 ∙ o.counts.0, own.1 ∙ o.counts.1, own.2 ∙ o.counts.2, own.3 ∙ o.counts.3)

    pub joined_left :
        end_of g j ≡ lo
        → IsOpened h head (remove j g) (updated head' j false) rank j hi (sz + size g j)
    joined_left e =
        let wide : lo < hi = omega (arith, o.full, o.room) in
        let grows : Grows g j lo hi j hi = inr (inl (wide, sym e, refl, refl)) in
        record {
          ordered = IsHeap-remove g head' rank lo hi o.ordered j a j hi grows;
          kept =
              Keeps-trans h g (remove j g) head head' (updated head' j false) sized o.kept
                (Keeps-remove g head' rank lo hi o.ordered j a);
          full = omega (arith, o.full);
          even = omega (arith, o.even, size_even g j);
          room = omega (arith, o.room);
          counts = counts_removed;
        }

    pub joined_right :
        j ≡ hi
        → IsOpened h head (remove j g) (updated head' j false) rank lo (end_of g j) (sz + size g j)
    joined_right e =
        let wide : lo < hi = omega (arith, o.full, o.room) in
        let grows : Grows g j lo hi lo (end_of g j) = inr (inr (wide, sym e, refl, refl)) in
        record {
          ordered = IsHeap-remove g head' rank lo hi o.ordered j a lo (end_of g j) grows;
          kept =
              Keeps-trans h g (remove j g) head head' (updated head' j false) sized o.kept
                (Keeps-remove g head' rank lo hi o.ordered j a);
          full = omega (arith, o.full);
          even = omega (arith, o.even, size_even g j);
          room = omega (arith, o.room);
          counts = counts_removed;
        }

    -- Two blocks fit in an `int`.
    pub joined_size :
        (lo' : ℕ)
        → lo' + (sz + size g j) ≤ g.len
        → to_int (u64 (sz + size (remove j g) j)) ≡ sz + size g j
    joined_size lo' inside =
        let same = remove-size g head' rank lo hi o.ordered j a j (available-parts g head' j a).0 in
        let small : u64 (sz + size g j) ≡ sz + size g j = omega (arith, o.ordered.tiled.small) in
        rw (same, small) (to_int_lem (sz + size g j) (omega (arith, o.ordered.tiled.small)))

  -- Whether the neighbour at `j` was taken, or was joined and so moves an end of the gap.
  abbrev pub Joins : ℕ → ℕ → ℕ → ℕ → Heap → (ℕ → Bool) → Type 0
  Joins j end end' far g' head'' =
      (((end' ≡ end) × (is_taken g' j ≡ true)) ⊎ ((end' ≡ far) × (available g head' j ≡ true)))
      × Spares g head' g' head'' j

  left_alone : (j : ℕ) → is_taken g j ≡ true → Spares g head' g head' j
  left_alone j taken i e =
      (λ q. false≢true (sym (available-parts g head' i e).1 ∙ ap (is_taken g) q ∙ taken), e, refl)

  abbrev pub JoinsLeft : ℕ → ℕ × ℕ × Heap → Type 0
  JoinsLeft j r =
      (lo' : ℕ) × (sz' : ℕ) × (g' : Heap) × (head'' : ℕ → Bool) × (r ≡ (lo', sz', g'))
      × IsOpened h head g' head'' rank lo' hi sz'
      × (lo' ≤ lo)
      × Joins j lo lo' j g' head''

  pub join_left_lem : (j : ℕ) → head' j ≡ true → end_of g j ≡ lo → JoinsLeft j (join_left j lo sz g)
  unfolding join_left
  join_left_lem j hd e = elim (Bool-cases (is_taken g j)) [
    | inl taken ↦
        rw taken (lo, sz, g, head', refl, o, omega arith, (inl (refl, taken), left_alone j taken))
    | inr untaken ↦
        let a = parts-available g head' j hd untaken in
        let edge =
          o.ordered.tiled.inside hi (o.ordered.tiled.after_gap (omega (arith, o.full, o.room))) in
        let sum = joined_size j a j (omega (arith, o.full)) in
        rw untaken (
          j,
          sz + size g j,
          remove j g,
          updated head' j false,
          rw sum refl,
          joined_left j a e,
          omega arith,
          (inr (refl, a), Spares-remove g head' rank lo hi o.ordered j a),
        )
  ]

  abbrev pub JoinsRight : ℕ × Heap → Type 0
  JoinsRight r =
      (hi' : ℕ) × (sz' : ℕ) × (g' : Heap) × (head'' : ℕ → Bool) × (r ≡ (sz', g'))
      × IsOpened h head g' head'' rank lo hi' sz'
      × (hi ≤ hi')
      × Joins hi hi hi' (end_of g hi) g' head''

  pub join_right_lem : JoinsRight (join_right hi sz g)
  unfolding join_right
  join_right_lem =
      let hd = o.ordered.tiled.after_gap (omega (arith, o.full, o.room)) in
      elim (Bool-cases (is_taken g hi)) [
        | inl taken ↦
            rw taken
              (hi, sz, g, head', refl, o, omega arith, (inl (refl, taken), left_alone hi taken))
        | inr untaken ↦
            let a = parts-available g head' hi hd untaken in
            let edge = o.ordered.tiled.inside hi hd in
            let sum = joined_size hi a lo (omega (arith, o.full)) in
            rw untaken (
              end_of g hi,
              sz + size g hi,
              remove hi g,
              updated head' hi false,
              rw sum refl,
              joined_right hi a refl,
              omega arith,
              (inr (refl, a), Spares-remove g head' rank lo hi o.ordered hi a),
            )
      ]

  -- The gap becomes one available block.
  abbrev pub Closes : Option Heap → Type 0
  Closes r =
      (g' : Heap) × (head'' : ℕ → Bool) × (rank' : ℕ → ℕ) × (r ≡ some g')
      × IsAfter h head g' head'' rank'
      × (available g' head'' lo ≡ true)
      × (size g' lo ≡ sz)
      × Keeps g head' g' head''
      × ((i : ℕ)
          → available g' head'' i ≡ true
          → i ≢ lo
          → (available g head' i ≡ true) × (g'.array i ≡ g.array i))
      × (g'.n_malloc ≡ h.n_malloc)
      × (g'.n_free ≡ h.n_free)

  pub make_avail-Closes : Closes (make_avail lo sz g)
  make_avail-Closes =
      let fits : lo + sz ≤ hi = omega (arith, o.full) in
      let pushed = push lo (set_ends lo sz g) in
      let w = IsHeap-push g head' rank lo hi o.ordered sz o.even o.room fits in
      let free_words = push-available g head' rank lo hi o.ordered sz o.even o.room fits in
      let own = push_end_rest g head' rank lo hi o.ordered sz o.even o.room fits in
      (
        pushed,
        _,
        _,
        make_avail_lem lo sz g o.even,
        record {
          ordered = IsHeap-closed pushed _ _ (lo + sz) hi w o.full;
          kept =
              Keeps-trans h g pushed head head' (updated head' lo true) sized o.kept
                (Keeps-push g head' rank lo hi o.ordered sz o.even o.room fits);
          same_len = own.0 ∙ o.counts.0;
          same_base = own.1 ∙ o.counts.1;
        },
        free_words.0,
        free_words.1,
        Keeps-push g head' rank lo hi o.ordered sz o.even o.room fits,
        Spares-push g head' rank lo hi o.ordered sz o.even o.room fits,
        own.2 ∙ o.counts.2,
        own.3 ∙ o.counts.3,
      )
