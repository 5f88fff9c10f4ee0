-- ===== src/Heap/Links/Unlink.antt =====
-- The words that `remove` of kernel/heap.cc writes.
use networking_p.Prelude.{ℕ, ◌+◌, ◌^◌, ◌<◌, ◌≡◌, ◌≢◌, ◌⊎◌, ap, ◌==◌, if◌then◌else◌, arith}
use networking_p.Heap.{Heap, store, remove}
use networking_p.Heap.Words.{next_lem, prev_lem, set_next_lem, set_prev_lem}

-- What `remove` does to a heap, by the links `a` and `c` of the block to its neighbours.
abbrev pub unlinked : ℕ → ℕ → Heap → Heap
unlinked a c h =
    let h1 = if a == 0 then record h { avail = c } else store (a + 1) c h in
    if c == 0 then h1 else store (c + 2) a h1

module _ (h : Heap) (a c : ℕ) where
  pub unlinked_other :
      (k : ℕ) → (a ≡ 0) ⊎ (k ≢ a + 1) → (c ≡ 0) ⊎ (k ≢ c + 2) → (unlinked a c h).array k ≡ h.array k
  unfolding store
  unlinked_other k na nc = ground arith

  pub unlinked_next : a ≢ 0 → (c ≡ 0) ⊎ (a + 1 ≢ c + 2) → (unlinked a c h).array (a + 1) ≡ c
  unfolding store
  unlinked_next nz nc = ground arith

  pub unlinked_prev : c ≢ 0 → (unlinked a c h).array (c + 2) ≡ a
  unfolding store
  unlinked_prev nz = ground arith

  pub unlinked_avail :
      ((a ≡ 0) × ((unlinked a c h).avail ≡ c)) ⊎ ((a ≢ 0) × ((unlinked a c h).avail ≡ h.avail))
  unfolding store
  unlinked_avail = ground arith

  pub unlinked_len : (unlinked a c h).len ≡ h.len
  unfolding store
  unlinked_len = ground arith

  -- The other fields stay.
  pub unlinked_rest :
      ((unlinked a c h).base ≡ h.base)
      × ((unlinked a c h).n_malloc ≡ h.n_malloc)
      × ((unlinked a c h).n_free ≡ h.n_free)
  unfolding store
  unlinked_rest = ground arith

-- `remove`, where no index wraps.
pub remove_lem :
    (h : Heap) (x : ℕ)
    → x < 2 ^ 63
    → h.array (x + 2) < 2 ^ 63
    → h.array (x + 1) < 2 ^ 63
    → remove x h ≡ unlinked (h.array (x + 2)) (h.array (x + 1)) h
unfolding remove
remove_lem h x lt lt_a lt_c =
    let a = h.array (x + 2) in
    let c = h.array (x + 1) in
    let h1 : Heap = if a == 0 then record h { avail = c } else store (a + 1) c h in
    rw
      (
        remove,
        prev_lem h x lt,
        next_lem h x lt,
        set_next_lem (h.array (x + 2)) (h.array (x + 1)) h lt_a,
      )
      (ap (λ (g : Heap). if c == 0 then h1 else g) (set_prev_lem c a h1 lt_c))
