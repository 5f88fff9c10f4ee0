-- ===== src/Heap/Links.antt =====
-- The list of available blocks of kernel/heap.cc, through the second and third word of each block.
pub mod Unlink
pub mod Remove
pub mod Pushed
pub mod Push
use networking_p.Prelude.{ℕ, ◌+◌, ◌-◌, ◌^◌, ◌≤◌, ◌<◌, ◌≡◌, ◌≢◌, sym, ◌∙◌, Bool, true, arith}
use networking_p.Heap.{Heap}

-- `free` says which blocks are in the list, and `rank` falls along it.
pub record IsLinked (h : Heap) (free : ℕ → Bool) (rank : ℕ → ℕ) : Type 0 where
  pub small : h.len < 2 ^ 31
  pub inside : (i : ℕ) → free i ≡ true → (0 < i) × (i + 4 ≤ h.len)
  pub spread : (i j : ℕ) → free i ≡ true → free j ≡ true → i < j → i + 4 ≤ j
  pub top : (j : ℕ) → free j ≡ true → (h.avail ≢ 0) × (rank j ≤ rank h.avail)
  pub head_free : h.avail ≢ 0 → (free h.avail ≡ true) × (h.array (h.avail + 2) ≡ 0)
  pub next_free :
      (i : ℕ)
      → free i ≡ true
      → h.array (i + 1) ≢ 0
      → (free (h.array (i + 1)) ≡ true)
        × (h.array (h.array (i + 1) + 2) ≡ i)
        × (rank (h.array (i + 1)) < rank i)
  pub prev_free :
      (i : ℕ)
      → free i ≡ true
      → h.array (i + 2) ≢ 0
      → (free (h.array (i + 2)) ≡ true) × (h.array (h.array (i + 2) + 1) ≡ i)
  pub front : (i : ℕ) → free i ≡ true → h.array (i + 2) ≡ 0 → h.avail ≡ i
  pub tight :
      (i j : ℕ)
      → free i ≡ true
      → free j ≡ true
      → rank j < rank i
      → (h.array (i + 1) ≢ 0) × (rank j ≤ rank (h.array (i + 1)))
  pub distinct : (i j : ℕ) → free i ≡ true → free j ≡ true → rank i ≡ rank j → i ≡ j

-- What a free block's links need of the words.
pub IsLinked-ext :
    (h g : Heap) (free : ℕ → Bool) (rank : ℕ → ℕ)
    → IsLinked h free rank
    → g.len ≡ h.len
    → g.avail ≡ h.avail
    → ((i : ℕ) → free i ≡ true → g.array (i + 1) ≡ h.array (i + 1))
    → ((i : ℕ) → free i ≡ true → g.array (i + 2) ≡ h.array (i + 2))
    → IsLinked g free rank
IsLinked-ext h g free rank l len avail nexts prevs = record {
  small = omega (arith, l.small);
  inside = λ i f. rw len (l.inside i f);
  spread = l.spread;
  top = λ j f. rw avail (l.top j f);
  head_free = λ nz.
      let old = l.head_free (λ e. nz (avail ∙ e)) in rw avail (old.0, prevs h.avail old.0 ∙ old.1);
  next_free = λ i f nz.
      let old = l.next_free i f (λ e. nz (nexts i f ∙ e)) in
      rw (nexts i f) (old.0, prevs (h.array (i + 1)) old.0 ∙ old.1, old.2);
  prev_free = λ i f nz.
      let old = l.prev_free i f (λ e. nz (prevs i f ∙ e)) in
      rw (prevs i f) (old.0, nexts (h.array (i + 2)) old.0 ∙ old.1);
  front = λ i f e. avail ∙ l.front i f (sym (prevs i f) ∙ e);
  tight = λ i j f f' lt. rw (nexts i f) (l.tight i j f f' lt);
  distinct = l.distinct;
}
