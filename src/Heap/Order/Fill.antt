-- ===== src/Heap/Order/Fill.antt =====
-- A block of the heap of kernel/heap.cc is written at the start of the gap: `makeTaken` and
-- `makeAvail`.
use networking_p.Prelude.{
  ℕ, ◌+◌, ◌-◌, ◌%◌, ◌≤◌, ◌<◌, ◌≡◌, ◌≢◌, ◌⊎◌, inl, inr, refl, ap, sym, ◌∙◌, subst, Bool, true, false,
  Bool-cases, arith,
}
use mathlib.Core.Bool.{false≢true}
use networking_p.Prelude.Sets.{updated, updated_self, updated_ne, updated_same}
use networking_p.Heap.{Heap, store, is_taken, size, set_ends, push}
use networking_p.Heap.Words.{word, size-ext, is_taken-ext, size_word}
use networking_p.Heap.Tiles.{end_of, IsTiled, IsTiled-ext, interior}
use networking_p.Heap.Tiles.Fill.{
  bound, clear, fresh, start, IsTiled-set_ends, set_ends-other, set_ends-new, set_ends-head,
}
use networking_p.Heap.Links.{IsLinked, IsLinked-ext}
use networking_p.Heap.Links.Push.{IsLinked-push, push-other, push_rest}
use networking_p.Heap.Order.{
  available, available-parts, available-updated, available-bounds, IsHeap, Keeps, links-taken,
}

module _ (h : Heap) (head : ℕ → Bool) (rank : ℕ → ℕ) (lo hi : ℕ) (w : IsHeap h head rank lo hi)
    (n : ℕ) (even : n % 2 ≡ 0) (room : 4 ≤ n) (fits : lo + n ≤ hi) where
  module _ (b : Bool) where
    ended : Heap
    ended = set_ends lo (word n b) h

    ended_far : (f k : ℕ) → head f ≡ true → f ≤ k → k < end_of h f → (k < lo) ⊎ (lo + n ≤ k)
    ended_far f k hd le lt = elim (clear h head lo hi w.tiled n b even room fits f hd) [
      | inl c ↦ inl (omega arith)
      | inr c ↦ inr (omega arith)
    ]

    ended_word : (f k : ℕ) → head f ≡ true → f ≤ k → k < end_of h f → ended.array k ≡ h.array k
    unfolding ended
    ended_word f k hd le lt =
        let far = ended_far f k hd le lt in
        set_ends-other h head lo hi w.tiled n b even room fits k (λ e. omega arith)
          (λ e. omega arith)

    ended_size : (f : ℕ) → head f ≡ true → size ended f ≡ size h f
    unfolding ended
    ended_size f hd =
        size-ext (set_ends lo (word n b) h) h f f
          (set_ends-head h head lo hi w.tiled n b even room fits f hd)

    ended_link :
        (f d : ℕ) → available h head f ≡ true → d < 3 → ended.array (f + d) ≡ h.array (f + d)
    ended_link f d a lt =
        ended_word f (f + d) (available-parts h head f a).0 (omega arith)
          (omega (arith, (available-bounds h head rank lo hi w f a).0))

    ended_links : IsLinked ended (available h head) rank
    unfolding ended set_ends store
    ended_links =
        IsLinked-ext h (set_ends lo (word n b) h) (available h head) rank w.linked refl refl
          (λ f a. ended_link f 1 a (omega arith)) (λ f a. ended_link f 2 a (omega arith))

  outside_gap : head lo ≡ false
  outside_gap = elim (Bool-cases (head lo)) [
    | inl e ↦ absurd (fresh h head lo hi w.tiled n true even room fits e)
    | inr e ↦ e
  ]

  available-set_ends :
      available (set_ends lo (word n true) h) (updated head lo true) ≡ available h head
  unfolding available
  available-set_ends =
      let g = set_ends lo (word n true) h in
      let sized =
        size_word g lo n true even (set_ends-new h head lo hi w.tiled n true even room fits) in
      let here : available g (updated head lo true) lo ≡ false =
        rw (updated_self head lo true, sized.1) refl in
      let was : available h head lo ≡ false = rw outside_gap refl in
      available-updated h g head lo true false
        (λ i ne hd. set_ends-head h head lo hi w.tiled n true even room fits i hd) here
      ∙ updated_same (available h head) lo false was

  pub Spares-set_ends :
      (i : ℕ)
      → available (set_ends lo (word n true) h) (updated head lo true) i ≡ true
      → (available h head i ≡ true) × ((set_ends lo (word n true) h).array i ≡ h.array i)
  Spares-set_ends i e =
      let a = sym (ap (λ f. f i) available-set_ends) ∙ e in
      (a, set_ends-head h head lo hi w.tiled n true even room fits i (available-parts h head i a).0)

  pub IsHeap-set_ends : IsHeap (set_ends lo (word n true) h) (updated head lo true) rank (lo + n) hi
  unfolding ended
  IsHeap-set_ends = record {
    tiled = IsTiled-set_ends h head lo hi w.tiled n true even room fits;
    linked =
        subst (λ f. IsLinked (set_ends lo (word n true) h) f rank) (sym available-set_ends)
          (ended_links true);
  }

  pub Keeps-set_ends : Keeps h head (set_ends lo (word n true) h) (updated head lo true)
  unfolding ended
  Keeps-set_ends i hd taken = (
    updated_ne head lo i true (λ e. false≢true (sym outside_gap ∙ ap head (sym e) ∙ hd)) ∙ hd,
    λ k le lt. ended_word true i k hd le lt,
  )

  -- The links of the new block, and of an available one, are no ends of blocks.
  low : 0 < lo
  low =
      let (j, hd, e) = start h head lo hi w.tiled n true even room fits in
      omega (arith, w.tiled.inside j hd)

  high : lo + 4 ≤ h.len
  high = omega (arith, bound h head lo hi w.tiled n true even room fits)

  far : (f : ℕ) → available h head f ≡ true → (f + 4 ≤ lo) ⊎ (lo + 4 ≤ f)
  far f a =
      let sized = (available-bounds h head rank lo hi w f a).0 in
      elim (clear h head lo hi w.tiled n true even room fits f (available-parts h head f a).0) [
        | inl c ↦ inl (omega arith)
        | inr c ↦ inr (omega arith)
      ]

  pushed_links :
      IsLinked
        (push lo (ended false))
        (updated (available h head) lo true)
        (updated rank lo (rank h.avail + 1))
  unfolding ended set_ends store
  pushed_links =
      IsLinked-push (set_ends lo n h) (available h head) rank (ended_links false) lo low high far

  pushed_word :
      (k : ℕ)
      → k ≢ lo + 1
      → k ≢ lo + 2
      → ((f : ℕ) → available h head f ≡ true → k ≢ f + 2)
      → (push lo (ended false)).array k ≡ (ended false).array k
  unfolding ended set_ends store
  pushed_word k ne ne' out =
      push-other (set_ends lo n h) (available h head) rank (ended_links false) lo low high far k ne
        ne' out

  more : ℕ → Bool
  more = updated head lo true

  filled : IsTiled (ended false) more (lo + n) hi
  unfolding ended more
  filled = IsTiled-set_ends h head lo hi w.tiled n false even room fits

  new_size : (size (ended false) lo ≡ n) × (is_taken (ended false) lo ≡ false)
  unfolding ended
  new_size =
      size_word (set_ends lo n h) lo n false even
        (set_ends-new h head lo hi w.tiled n false even room fits)

  more_old : (i : ℕ) → head i ≡ true → (i ≢ lo) × (more i ≡ true)
  unfolding more
  more_old i hd =
      let ne : i ≢ lo = λ e. false≢true (sym outside_gap ∙ ap head (sym e) ∙ hd) in
      (ne, updated_ne head lo i true ne ∙ hd)

  new_interior :
      (i d : ℕ)
      → more i ≡ true
      → 0 < d
      → d < 3
      → (i ≢ lo + d) × (end_of (ended false) i - 1 ≢ lo + d)
  unfolding more
  new_interior i d m pos lt =
      interior (ended false) more (lo + n) hi filled lo d i (updated_self head lo true) m pos
        (omega (arith, new_size.0))

  old_interior :
      (i f : ℕ)
      → more i ≡ true
      → available h head f ≡ true
      → (i ≢ f + 2) × (end_of (ended false) i - 1 ≢ f + 2)
  old_interior i f m a =
      let hd = (available-parts h head f a).0 in
      interior (ended false) more (lo + n) hi filled f 2 i (more_old f hd).1 m (omega arith)
        (omega (arith, ended_size false f hd, (available-bounds h head rank lo hi w f a).0))

  pushed_head : (i : ℕ) → more i ≡ true → (push lo (ended false)).array i ≡ (ended false).array i
  pushed_head i m =
      pushed_word i (new_interior i 1 m (omega arith) (omega arith)).0
        (new_interior i 2 m (omega arith) (omega arith)).0 (λ f a. (old_interior i f m a).0)

  pushed_foot :
      (i : ℕ)
      → more i ≡ true
      → (push lo (ended false)).array (end_of (ended false) i - 1)
        ≡ (ended false).array (end_of (ended false) i - 1)
  pushed_foot i m =
      pushed_word (end_of (ended false) i - 1) (new_interior i 1 m (omega arith) (omega arith)).1
        (new_interior i 2 m (omega arith) (omega arith)).1 (λ f a. (old_interior i f m a).1)

  pub pushed : Heap
  pushed = push lo (set_ends lo n h)

  same_free : available pushed more ≡ updated (available h head) lo true
  unfolding more available ended pushed
  same_free =
      let mine = updated_self head lo true in
      let new_word =
        is_taken-ext pushed (set_ends lo n h) lo lo (pushed_head lo mine) ∙ new_size.1 in
      available-updated h pushed head lo true true
        (λ i ne hd.
          pushed_head i (more_old i hd).1
          ∙ set_ends-head h head lo hi w.tiled n false even room fits i hd)
        (rw (mine, new_word) refl)

  pub IsHeap-push :
      IsHeap
        (push lo (set_ends lo n h))
        (updated head lo true)
        (updated rank lo (rank h.avail + 1))
        (lo + n)
        hi
  unfolding more ended pushed set_ends store
  IsHeap-push = record {
    tiled =
        IsTiled-ext (set_ends lo n h) more (lo + n) hi filled pushed
          (push_rest (set_ends lo n h) (available h head) rank (ended_links false) lo low high
            far).0
          pushed_head pushed_foot;
    linked =
        subst (λ f. IsLinked pushed f (updated rank lo (rank h.avail + 1))) (sym same_free)
          pushed_links;
  }

  -- The new block is available, with all its words.
  pub push-available :
      (available (push lo (set_ends lo n h)) (updated head lo true) lo ≡ true)
      × (size (push lo (set_ends lo n h)) lo ≡ n)
  unfolding more ended pushed
  push-available =
      let mine = updated_self head lo true in
      let word_here = pushed_head lo mine in
      (
        ap (λ f. f lo) same_free ∙ updated_self (available h head) lo true,
        size-ext pushed (set_ends lo n h) lo lo word_here ∙ new_size.0,
      )

  -- The other available blocks are those of before.
  pub Spares-push :
      (i : ℕ)
      → available (push lo (set_ends lo n h)) (updated head lo true) i ≡ true
      → i ≢ lo
      → (available h head i ≡ true) × ((push lo (set_ends lo n h)).array i ≡ h.array i)
  unfolding more ended pushed
  Spares-push i e ne =
      let a =
        sym (updated_ne (available h head) lo i true ne) ∙ sym (ap (λ f. f i) same_free) ∙ e in
      let hd = (available-parts h head i a).0 in
      (
        a,
        pushed_head i (more_old i hd).1
            ∙ set_ends-head h head lo hi w.tiled n false even room fits i hd,
      )

  pub Keeps-push : Keeps h head (push lo (set_ends lo n h)) (updated head lo true)
  unfolding more ended
  Keeps-push i hd taken = (
    (more_old i hd).1,
    λ k le lt.
        let out = ended_far false i k hd le lt in
        pushed_word k (λ e. omega arith) (λ e. omega arith)
          (λ f a. links-taken h head rank lo hi w f i k 2 a hd taken le lt (omega arith))
        ∙ ended_word false i k hd le lt,
  )

  pub push_end_rest :
      ((push lo (set_ends lo n h)).len ≡ h.len)
      × ((push lo (set_ends lo n h)).base ≡ h.base)
      × ((push lo (set_ends lo n h)).n_malloc ≡ h.n_malloc)
      × ((push lo (set_ends lo n h)).n_free ≡ h.n_free)
  unfolding ended set_ends store
  push_end_rest =
      push_rest (set_ends lo n h) (available h head) rank (ended_links false) lo low high far

  pub set_ends-size :
      (b : Bool)
      → (size (set_ends lo (word n b) h) lo ≡ n) × (is_taken (set_ends lo (word n b) h) lo ≡ b)
  set_ends-size b =
      size_word (set_ends lo (word n b) h) lo n b even
        (set_ends-new h head lo hi w.tiled n b even room fits)
