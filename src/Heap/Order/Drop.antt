-- ===== src/Heap/Order/Drop.antt =====
-- A block of the heap of kernel/heap.cc becomes a part of the gap: one that `remove` takes out of the
-- list, or one that is taken.
use networking_p.Prelude.{
  ℕ, ◌-◌, ◌≡◌, refl, ap, sym, ◌∙◌, subst, Bool, true, false, ==-cases, inl, inr, arith,
}
use mathlib.Core.Path.{fun_ext}
use mathlib.Core.Bool.{false≢true}
use networking_p.Prelude.Sets.{removed_parts, updated, updated_self, updated_ne}
use networking_p.Heap.{Heap, is_taken, size, remove}
use networking_p.Heap.Words.{size-ext}
use networking_p.Heap.Tiles.{end_of, IsInner, IsTiled-ext}
use networking_p.Heap.Tiles.Gap.{Grows, IsTiled-open}
use networking_p.Heap.Links.{IsLinked}
use networking_p.Heap.Links.Remove.{IsLinked-remove, remove-other, remove_rest}
use networking_p.Heap.Order.{
  available, available-parts, available-updated, Spares, IsHeap, Keeps, available-IsInner,
  links-ends, links-taken,
}

module _ (h : Heap) (head : ℕ → Bool) (rank : ℕ → ℕ) (lo hi : ℕ) (w : IsHeap h head rank lo hi)
    (x : ℕ) where
  module _ (a : available h head x ≡ true) where
    head_word : (i : ℕ) → head i ≡ true → (remove x h).array i ≡ h.array i
    head_word i hd = remove-other h (available h head) rank w.linked x a i (λ f af. (
      (links-ends h head rank lo hi w f i 1 af hd (omega arith) (omega arith)).0,
      (links-ends h head rank lo hi w f i 2 af hd (omega arith) (omega arith)).0,
    ))

    foot_word :
        (i : ℕ) → head i ≡ true → (remove x h).array (end_of h i - 1) ≡ h.array (end_of h i - 1)
    foot_word i hd = remove-other h (available h head) rank w.linked x a (end_of h i - 1) (λ f af. (
      (links-ends h head rank lo hi w f i 1 af hd (omega arith) (omega arith)).1,
      (links-ends h head rank lo hi w f i 2 af hd (omega arith) (omega arith)).1,
    ))

    pub remove-size : (i : ℕ) → head i ≡ true → size (remove x h) i ≡ size h i
    remove-size i hd = size-ext (remove x h) h i i (head_word i hd)

    available-remove :
        available (remove x h) (updated head x false) ≡ updated (available h head) x false
    unfolding available
    available-remove =
        available-updated h (remove x h) head x false false (λ i ne hd. head_word i hd)
          (rw (updated_self head x false) refl)

    pub Spares-remove : Spares h head (remove x h) (updated head x false) x
    Spares-remove i e =
        let (ne, a') =
          removed_parts (available h head) x i (sym (ap (λ f. f i) available-remove) ∙ e) in
        (ne, a', head_word i (available-parts h head i a').0)

    pub IsHeap-remove :
        (lo' hi' : ℕ)
        → Grows h x lo hi lo' hi'
        → IsHeap (remove x h) (updated head x false) rank lo' hi'
    unfolding available
    IsHeap-remove lo' hi' grows =
        let hd = (available-parts h head x a).0 in
        let inner = available-IsInner h head rank lo hi w x a in
        let opened = IsTiled-open h head lo hi w.tiled x hd inner lo' hi' grows in
        record {
          tiled =
              IsTiled-ext h (updated head x false) lo' hi' opened (remove x h)
                (remove_rest h (available h head) rank w.linked x a).0
                (λ i r. head_word i (rest_head i r)) (λ i r. foot_word i (rest_head i r));
          linked =
              subst (λ f. IsLinked (remove x h) f rank) (sym available-remove)
                (IsLinked-remove h (available h head) rank w.linked x a);
        }
      where
        rest_head : (i : ℕ) → updated head x false i ≡ true → head i ≡ true
        rest_head i r = (removed_parts head x i r).1

    pub Keeps-remove : Keeps h head (remove x h) (updated head x false)
    Keeps-remove i hd taken =
        let untaken = (available-parts h head x a).1 in
        (
          updated_ne head x i false
                (λ e. false≢true (sym untaken ∙ ap (is_taken h) (sym e) ∙ taken))
              ∙ hd,
          λ k le lt. remove-other h (available h head) rank w.linked x a k (λ f af. (
            links-taken h head rank lo hi w f i k 1 af hd taken le lt (omega arith),
            links-taken h head rank lo hi w f i k 2 af hd taken le lt (omega arith),
          )),
        )

  -- A block that is taken is in no list.
  pub available-open : is_taken h x ≡ true → available h (updated head x false) ≡ available h head
  unfolding available
  available-open taken = fun_ext λ i. elim (==-cases i x) [
    | inl e ↦ let here : is_taken h i ≡ true = ap (is_taken h) e ∙ taken in rw here (ground arith)
    | inr ne ↦ rw (updated_ne head x i false ne) refl
  ]

  pub IsHeap-open :
      (lo' hi' : ℕ)
      → Grows h x lo hi lo' hi'
      → head x ≡ true
      → is_taken h x ≡ true
      → IsInner h x
      → IsHeap h (updated head x false) rank lo' hi'
  IsHeap-open lo' hi' grows hd taken inner = record {
    tiled = IsTiled-open h head lo hi w.tiled x hd inner lo' hi' grows;
    linked = subst (λ f. IsLinked h f rank) (sym (available-open taken)) w.linked;
  }
