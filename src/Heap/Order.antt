-- ===== src/Heap/Order.antt =====
-- The order of the heap of kernel/heap.cc: blocks without a gap, and the list of those that are not
-- taken. While the code joins or cuts blocks there is a gap.
pub mod Drop
pub mod Fill
use networking_p.Prelude.{
  ℕ, ◌+◌, ◌-◌, ◌^◌, ◌≤◌, ◌<◌, ◌≡◌, ◌≢◌, inl, inr, refl, ap, sym, ◌∙◌, subst, Bool, true, false, not,
  ◌&&◌, Bool-cases, ==-cases, order-cases, arith,
}
use mathlib.Core.Path.{fun_ext}
use mathlib.Core.Bool.{false≢true}
use networking_p.Prelude.Sets.{updated, updated_self, updated_ne}
use networking_p.Heap.{Heap, is_taken, size}
use networking_p.Heap.Words.{size_word, size-ext, is_taken-ext}
use networking_p.Heap.Tiles.{end_of, IsTiled, IsInner, IsTiled-ext, inner_end, interior}
use networking_p.Heap.Links.{IsLinked, IsLinked-ext}

-- A block that is not taken.
unfoldable pub available : Heap → (ℕ → Bool) → ℕ → Bool
available h head i = head i && not (is_taken h i)

-- The gap is from `lo` to `hi`; there is none if these are the same.
pub record IsHeap (h : Heap) (head : ℕ → Bool) (rank : ℕ → ℕ) (lo hi : ℕ) : Type 0 where
  pub tiled : IsTiled h head lo hi
  pub linked : IsLinked h (available h head) rank

pub available-parts :
    (h : Heap) (head : ℕ → Bool) (i : ℕ)
    → available h head i ≡ true
    → (head i ≡ true) × (is_taken h i ≡ false)
unfolding available
available-parts h head i e = ground arith

pub parts-available :
    (h : Heap) (head : ℕ → Bool) (i : ℕ)
    → head i ≡ true
    → is_taken h i ≡ false
    → available h head i ≡ true
unfolding available
parts-available h head i e f = ground arith

pub available-ext :
    (h g : Heap) (head : ℕ → Bool)
    → ((i : ℕ) → head i ≡ true → g.array i ≡ h.array i)
    → available g head ≡ available h head
unfolding available
available-ext h g head same = fun_ext λ i. elim (Bool-cases (head i)) [
  | inl e ↦ let old = is_taken-ext g h i i (same i e) in rw (e, old) refl
  | inr e ↦ rw e refl
]

-- The available blocks after the head of one block has changed.
pub available-updated :
    (h g : Heap) (head : ℕ → Bool) (x : ℕ) (b c : Bool)
    → ((i : ℕ) → i ≢ x → head i ≡ true → g.array i ≡ h.array i)
    → available g (updated head x b) x ≡ c
    → available g (updated head x b) ≡ updated (available h head) x c
unfolding available
available-updated h g head x b c same here = fun_ext λ i. elim (==-cases i x) [
  | inl e ↦
      ap (available g (updated head x b)) e
      ∙ here
      ∙ sym (ap (updated (available h head) x c) e ∙ updated_self (available h head) x c)
  | inr ne ↦
      rw (updated_ne head x i b ne, updated_ne (available h head) x i c ne)
        (elim (Bool-cases (head i)) [
          | inl e ↦ let old = is_taken-ext g h i i (same i ne e) in rw (e, old) refl
          | inr e ↦ rw e refl
        ])
]

-- Every taken block is kept with its words.
abbrev pub Keeps : Heap → (ℕ → Bool) → Heap → (ℕ → Bool) → Type 0
Keeps h head g head' =
    (i : ℕ)
    → head i ≡ true
    → is_taken h i ≡ true
    → (head' i ≡ true) × ((k : ℕ) → i ≤ k → k < end_of h i → g.array k ≡ h.array k)

pub Keeps-trans :
    (h g f : Heap) (head head' head'' : ℕ → Bool)
    → ((i : ℕ) → head i ≡ true → 0 < size h i)
    → Keeps h head g head'
    → Keeps g head' f head''
    → Keeps h head f head''
Keeps-trans h g f head head' head'' sized first second i hd taken =
    let (hd', same) = first i hd taken in
    let here = same i (omega arith) (omega (arith, sized i hd)) in
    let (hd'', same') = second i hd' (is_taken-ext g h i i here ∙ taken) in
    (
      hd'',
      λ k le lt.
          same' k le (subst (λ n. k < i + n) (sym (size-ext g h i i here)) lt) ∙ same k le lt,
    )

-- No available block is followed by another one.
abbrev pub IsMerged : Heap → (ℕ → Bool) → Type 0
IsMerged h head = (i : ℕ) → available h head i ≡ true → is_taken h (end_of h i) ≡ true

-- The available blocks are among those of before, but for the one at `x`.
abbrev pub Spares : Heap → (ℕ → Bool) → Heap → (ℕ → Bool) → ℕ → Type 0
Spares h head g head' x =
    (i : ℕ)
    → available g head' i ≡ true
    → (i ≢ x) × (available h head i ≡ true) × (g.array i ≡ h.array i)

-- A block that is kept stays taken.
pub Keeps-taken :
    (h : Heap) (head : ℕ → Bool) (g : Heap) (head' : ℕ → Bool)
    → Keeps h head g head'
    → (i : ℕ) → head i ≡ true
    → 0 < size h i
    → is_taken h i ≡ true
    → is_taken g i ≡ true
Keeps-taken h head g head' kept i hd sized taken =
    is_taken-ext g h i i ((kept i hd taken).1 i (omega arith) (omega (arith, sized))) ∙ taken

module _ (h : Heap) (head : ℕ → Bool) (rank : ℕ → ℕ) (lo hi : ℕ)
    (w : IsHeap h head rank lo hi) where
  -- The two marks are taken.
  pub available-IsInner : (i : ℕ) → available h head i ≡ true → IsInner h i
  available-IsInner i a =
      let (hd, untaken) = available-parts h head i a in
      let first = (size_word h 0 2 true refl w.tiled.first.1).1 in
      let last = (size_word h (h.len - 2) 2 true refl w.tiled.last.1).1 in
      (
        λ e. false≢true (sym untaken ∙ ap (is_taken h) e ∙ first),
        λ e. false≢true (sym untaken ∙ ap (is_taken h) e ∙ last),
      )

  pub available-bounds :
      (i : ℕ) → available h head i ≡ true → (4 ≤ size h i) × (end_of h i ≤ h.len - 2)
  available-bounds i a =
      let inner = available-IsInner i a in
      let (hd, untaken) = available-parts h head i a in
      (w.tiled.big i hd inner.0 inner.1, inner_end h head lo hi w.tiled i hd inner)

  pub size-small : (i : ℕ) → head i ≡ true → size h i < 2 ^ 31
  size-small i hd = omega (arith, w.tiled.inside i hd, w.tiled.small)

  -- The links of an available block are words strictly inside it.
  pub links-ends :
      (f i d : ℕ)
      → available h head f ≡ true
      → head i ≡ true
      → 0 < d
      → d < 3
      → (i ≢ f + d) × (end_of h i - 1 ≢ f + d)
  links-ends f i d a hd pos lt =
      interior h head lo hi w.tiled f d i (available-parts h head f a).0 hd pos
        (omega (arith, (available-bounds f a).0))

  pub links-taken :
      (f i k d : ℕ)
      → available h head f ≡ true
      → head i ≡ true
      → is_taken h i ≡ true
      → i ≤ k
      → k < end_of h i
      → d < 3
      → k ≢ f + d
  links-taken f i k d a hd taken le lt small e =
      let (hd', untaken) = available-parts h head f a in
      let bounds = available-bounds f a in
      elim (order-cases i f) [
        | inl below ↦ let clear = w.tiled.apart i f hd hd' below in omega arith
        | inr rest ↦ elim rest [
          | inl same ↦ false≢true (sym untaken ∙ ap (is_taken h) (sym same) ∙ taken)
          | inr above ↦ let clear = w.tiled.apart f i hd' hd above in omega arith
        ]
      ]

  -- A gap that is full is none.
  pub IsHeap-closed : lo ≡ hi → IsHeap h head rank 0 0
  IsHeap-closed full =
      let t = w.tiled in
      record {
        tiled = record {
          room = t.room;
          small = t.small;
          first = t.first;
          last = t.last;
          ordered = omega arith;
          after_gap = λ lt. absurd (omega arith);
          before_gap = λ lt. absurd (omega arith);
          even = t.even;
          inside = t.inside;
          big = t.big;
          footer = t.footer;
          outside = λ i hd lt. omega arith;
          apart = t.apart;
          next_block = λ i hd ne. elim (t.next_block i hd ne) [
            | inl n ↦ inl n
            | inr gap ↦ absurd (omega (arith, gap.1))
          ];
          prev_block = λ i hd nz. elim (t.prev_block i hd nz) [
            | inl p ↦ inl p
            | inr gap ↦ absurd (omega (arith, gap.1))
          ];
        };
        linked = w.linked;
      }

  -- The counters are no part of the order.
  pub IsHeap-counted : (n m : ℕ) → IsHeap (record h { n_malloc = n; n_free = m }) head rank lo hi
  unfolding size is_taken available
  IsHeap-counted n m =
      let g : Heap = record h { n_malloc = n; n_free = m } in
      record {
        tiled = IsTiled-ext h head lo hi w.tiled g refl (λ i hd. refl) (λ i hd. refl);
        linked =
            IsLinked-ext h g (available h head) rank w.linked refl refl (λ i f. refl) (λ i f. refl);
      }

  -- The block behind an available one.
  pub available-next : (i : ℕ) → lo ≡ hi → available h head i ≡ true → head (end_of h i) ≡ true
  available-next i closed a =
      let bounds = available-bounds i a in
      elim (w.tiled.next_block i (available-parts h head i a).0
        (λ e. omega (arith, w.tiled.room))) [
          | inl hd ↦ hd
          | inr gap ↦ absurd (omega (arith, gap.1))
        ]

  -- If it is kept, and the available one too, there is still no other one behind that.
  pub IsMerged-kept :
      (g : Heap) (head0 head' : ℕ → Bool)
      → lo ≡ hi
      → IsMerged h head
      → Keeps h head0 g head'
      → (i : ℕ) → available h head i ≡ true
      → g.array i ≡ h.array i
      → (head (end_of h i) ≡ true → head0 (end_of h i) ≡ true)
      → is_taken g (end_of g i) ≡ true
  IsMerged-kept g head0 head' closed merged kept i a same inherit =
      let hd = available-next i closed a in
      let there : end_of g i ≡ end_of h i = ap (λ n. i + n) (size-ext g h i i same) in
      ap (is_taken g) there
      ∙ Keeps-taken h head0 g head' kept (end_of h i) (inherit hd)
          (omega (arith, w.tiled.inside (end_of h i) hd)) (merged i a)

-- The heap is in order again, and what was taken is as it was.
pub record IsAfter (h : Heap) (head : ℕ → Bool) (g : Heap) (head' : ℕ → Bool) (rank' : ℕ → ℕ)
    : Type 0 where
  pub ordered : IsHeap g head' rank' 0 0
  pub kept : Keeps h head g head'
  pub same_len : g.len ≡ h.len
  pub same_base : g.base ≡ h.base
