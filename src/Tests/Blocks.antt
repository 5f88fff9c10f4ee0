-- ===== src/Tests/Blocks.antt =====
-- A heap of 16 words, and a block of it.
use networking_p.Prelude.{ℕ, ◌+◌, ◌*◌, ◌≤◌, ◌≡◌, refl, Bool, true, false, Option, none, some, arith}
use networking_p.Prelude.Sets.{updated}
use networking_p.Prelude.Words.{u64}
use networking_p.Heap.{
  Heap, store, is_taken, size, footer_from_header, next, prev, set_next, set_prev, remove, set_ends,
  push, make_avail, make_taken, init, to_int, entries_for, search, take_block, hand_out, malloc,
  operator_new, operator_delete, free,
}
use networking_p.Heap.Start.{init_lem}
use networking_p.Heap.Start.Fresh.{IsFresh}
use networking_p.Heap.Claim.{IsPlaced}
use networking_p.Heap.Runs.{pointer, Runs, begins, claims, Running}
use networking_p.Heap.Promises.{Running-Runs, malloc-Runs, free-Runs, KeepsLive, Serves}

abbrev no_heap : Heap
no_heap = record {
  base = 0;
  array = λ k. 0;
  len = 0;
  avail = 0;
  n_malloc = 0;
  n_free = 0;
  n_leak = 0;
}

abbrev heap_or : Option Heap → Heap
heap_or none = no_heap
heap_or (some h) = h

abbrev second_or : Option (ℕ × Heap) → Heap
second_or none = no_heap
second_or (some (p, h)) = h

abbrev small_heap : Heap
small_heap = heap_or (init 8 136 (λ k. 0))

abbrev one_block : Heap
one_block = second_or (malloc 24 small_heap)

abbrev held_one : ℕ → Bool
held_one = updated (λ i. false) 2 true

small_heap-begun : init 8 136 (λ k. 0) ≡ some small_heap
unfolding init make_taken make_avail set_ends push set_next set_prev store footer_from_header size
small_heap-begun = refl

one_block-claimed : malloc 24 small_heap ≡ some (pointer small_heap 2, one_block)
unfolding init make_taken make_avail set_ends push set_next set_prev store footer_from_header size
    malloc search is_taken next prev take_block hand_out remove entries_for to_int
one_block-claimed = refl

one_run : Runs small_heap one_block held_one
one_run = claims small_heap one_block (λ i. false) 24 2 begins (λ e. omega arith) one_block-claimed

Running-Runs_example : Running one_block held_one
Running-Runs_example =
    Running-Runs 8 136 (λ k. 0) (omega arith) (omega arith) (omega arith) small_heap
      small_heap-begun one_block held_one one_run

malloc-Runs_example : Serves one_block held_one 8 (malloc 8 one_block) (operator_new 8 one_block)
malloc-Runs_example =
    malloc-Runs 8 136 (λ k. 0) (omega arith) (omega arith) (omega arith) small_heap small_heap-begun
      one_block held_one one_run 8 (omega arith)

free-Runs_example :
    (g : Heap) × (free (pointer one_block 2) one_block ≡ some g)
    × (operator_delete (pointer one_block 2) one_block ≡ some g)
    × KeepsLive one_block g (updated held_one 2 false)
    × (g.n_malloc ≡ one_block.n_malloc)
    × (g.n_free ≡ u64 (one_block.n_free + 1))
unfolding updated
free-Runs_example =
    free-Runs 8 136 (λ k. 0) (omega arith) (omega arith) (omega arith) small_heap small_heap-begun
      one_block held_one one_run 2 refl

init_lem_example :
    (h : Heap) × (init 8 136 (λ k. 0) ≡ some h)
    × IsFresh h
    × IsPlaced h
    × (8 ≤ h.base)
    × (h.base + 8 * h.len ≤ 8 + 136)
    × (h.n_malloc ≡ 0)
    × (h.n_free ≡ 0)
init_lem_example = init_lem 8 136 (λ k. 0) (omega arith) (omega arith) (omega arith)
