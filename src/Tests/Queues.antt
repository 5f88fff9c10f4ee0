-- ===== src/Tests/Queues.antt =====
-- A run on the queue of kernel/queue.h.
use networking_p.Prelude.{Member, ℕ, ◌≡◌, ◌≢◌, List, [], ◌∷◌, inl, inr, arith}
use networking_p.Queue.{new_queue}
use networking_p.Queue.Runs.{
  Call, adds, removes, removes_all, sizes, elsewhere, calls, list_call, list_calls, IsFair, AreFair,
  calls-new_queue, element, number, elements, done,
}

abbrev some_calls : List Call
some_calls =
    adds 16
    ∷ adds 32
    ∷ removes
    ∷ elsewhere 16 5
    ∷ adds 48
    ∷ adds 16
    ∷ sizes
    ∷ removes_all 9
    ∷ removes
    ∷ []

some_calls-AreFair : AreFair [] some_calls
unfolding AreFair IsFair list_call
some_calls-AreFair = (
  (λ e. omega arith, λ i. i),
  (
    (λ e. omega arith, λ i. not_one 32 16 i (λ e. omega arith)),
    (
      tt,
      (
        λ i. not_one 16 32 i (λ e. omega arith),
        (
          (λ e. omega arith, λ i. not_one 48 32 i (λ e. omega arith)),
          (
            (
              λ e. omega arith,
              λ i. elim i [ inl e ↦ omega arith | inr j ↦ not_one 16 48 j (λ e'. omega arith) ],
            ),
            (tt, (tt, (tt, tt))),
          ),
        ),
      ),
    ),
  ),
)
  where
    not_one : (x y : ℕ) → Member x (y ∷ []) → x ≢ y → ⊥
    not_one x y (inl e) ne = ne e
    not_one x y (inr i) ne = i

calls-new_queue_example :
    calls (new_queue (λ x. 7)) some_calls
    ≡ done
      ∷ done
      ∷ element 16
      ∷ done
      ∷ done
      ∷ done
      ∷ number 3
      ∷ elements (32 ∷ 48 ∷ 16 ∷ [])
      ∷ element 0
      ∷ []
unfolding list_calls list_call
calls-new_queue_example = calls-new_queue (λ x. 7) some_calls some_calls-AreFair (omega arith)
