-- ===== src/Heap/Links/Pushed.antt =====
-- What the end of `makeAvail` of kernel/heap.cc writes.
use networking_p.Prelude.{ℕ, ◌+◌, ◌^◌, ◌<◌, ◌≡◌, ◌≢◌, ◌⊎◌, ap, ◌==◌, if◌then◌else◌, arith}
use networking_p.Heap.{Heap, store, push}
use networking_p.Heap.Words.{set_next_lem, set_prev_lem}

-- What `push` does to a heap.
abbrev pub pushed : ℕ → Heap → Heap
pushed i h =
    let h1 = store (i + 2) 0 (store (i + 1) h.avail h) in
    let h2 = if h.avail == 0 then h1 else store (h.avail + 2) i h1 in record h2 { avail = i }

module _ (x : ℕ) (h : Heap) where
  pub pushed_next : (h.avail ≡ 0) ⊎ (x + 1 ≢ h.avail + 2) → (pushed x h).array (x + 1) ≡ h.avail
  unfolding store
  pushed_next out = ground arith

  pub pushed_prev : (h.avail ≡ 0) ⊎ (x ≢ h.avail) → (pushed x h).array (x + 2) ≡ 0
  unfolding store
  pushed_prev out = ground arith

  pub pushed_link : h.avail ≢ 0 → (pushed x h).array (h.avail + 2) ≡ x
  unfolding store
  pushed_link nz = ground arith

  pub pushed_other :
      (k : ℕ)
      → k ≢ x + 1
      → k ≢ x + 2
      → (h.avail ≡ 0) ⊎ (k ≢ h.avail + 2)
      → (pushed x h).array k ≡ h.array k
  unfolding store
  pushed_other k ne ne' out = ground arith

  pub pushed_rest :
      ((pushed x h).len ≡ h.len)
      × ((pushed x h).base ≡ h.base)
      × ((pushed x h).n_malloc ≡ h.n_malloc)
      × ((pushed x h).n_free ≡ h.n_free)
  unfolding store
  pushed_rest = ground arith

pub push_lem : (x : ℕ) (h : Heap) → x < 2 ^ 63 → h.avail < 2 ^ 63 → push x h ≡ pushed x h
unfolding push store
push_lem x h lt lt' =
    let h1 = store (x + 2) 0 (store (x + 1) h.avail h) in
    rw (push, set_next_lem x h.avail h lt, set_prev_lem x 0 (store (x + 1) h.avail h) lt)
      (ap
        (λ (g : Heap).
          let h2 : Heap = if h.avail == 0 then h1 else g in
          let h3 : Heap = record h2 { avail = x } in h3)
        (set_prev_lem h.avail x h1 lt'))
