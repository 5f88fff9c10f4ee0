-- ===== src/Queue/Runs.antt =====
-- Runs of calls on the queue of kernel/queue.h.
use networking_p.Prelude.{
  Member, ℕ, ◌+◌, ◌^◌, ◌≤◌, ◌<◌, ◌≡◌, ◌≢◌, refl, ap, ap₂, ◌∙◌, List, [], ◌∷◌, ◌++◌, length,
  length-append, take, arith,
}
use networking_p.Prelude.Words.{u64}
use networking_p.Queue.{Queue, set_next, new_queue, add, remove, remove_all, size, peek, walk}
use networking_p.Queue.Fifo.{
  IsQueue, head_of, tail_of, add-IsQueue, remove-IsQueue, IsQueue-nil, walk-chain,
  elsewhere-IsQueue,
}

-- A call; the caller of `remove_all` follows the list for so many elements. `elsewhere` is a write to the
-- `next` field of an element that is not in the queue, such as by another queue.
pub data Call : Type 0 where
  adds : ℕ → Call
  removes : Call
  removes_all : ℕ → Call
  sizes : Call
  peeks : Call
  elsewhere : ℕ → ℕ → Call

pub data Reply : Type 0 where
  done : Reply
  element : ℕ → Reply
  elements : List ℕ → Reply
  number : ℕ → Reply

unfoldable pub call : Queue → Call → Reply × Queue
call q (adds t) = (done, add t q)
call q removes = let (t, q') = remove q in (element t, q')
call q (removes_all n) = let (t, q') = remove_all q in (elements (walk q'.next n t), q')
call q sizes = (number (size q), q)
call q peeks = (element (peek q), q)
call q (elsewhere t v) = (done, set_next t v q)

unfoldable pub calls : Queue → List Call → List Reply
calls q [] = []
calls q (c ∷ cs) = let (r, q') = call q c in r ∷ calls q' cs

-- The same on a list of elements.
unfoldable pub list_call : List ℕ → Call → Reply × List ℕ
list_call xs (adds t) = (done, xs ++ t ∷ [])
list_call xs removes = (element (head_of xs), tail_of xs)
list_call xs (removes_all n) = (elements (take n xs), [])
list_call xs sizes = (number (length xs), xs)
list_call xs peeks = (element (head_of xs), xs)
list_call xs (elsewhere t v) = (done, xs)

unfoldable pub list_calls : List ℕ → List Call → List Reply
list_calls xs [] = []
list_calls xs (c ∷ cs) = let (r, ys) = list_call xs c in r ∷ list_calls ys cs

-- An element is added only if it is not null and not in the queue.
unfoldable pub IsFair : List ℕ → Call → Type 0
IsFair xs (adds t) = (t ≢ 0) × (¬ Member t xs)
IsFair xs (elsewhere t v) = ¬ Member t xs
IsFair xs _ = Unit

unfoldable pub AreFair : List ℕ → List Call → Type 0
AreFair xs [] = Unit
AreFair xs (c ∷ cs) = IsFair xs c × AreFair (list_call xs c).1 cs

first_is : (q : Queue) (xs : List ℕ) → IsQueue q xs → q.first ≡ head_of xs
first_is q [] h = h.chain
first_is q (x ∷ xs) h = h.chain.0

call-list_call :
    (q : Queue) (xs : List ℕ) (c : Call)
    → IsQueue q xs
    → IsFair xs c
    → length xs + 1 < 2 ^ 64
    → ((call q c).0 ≡ (list_call xs c).0)
      × IsQueue (call q c).1 (list_call xs c).1
      × (length (list_call xs c).1 ≤ length xs + 1)
unfolding call list_call IsFair size peek remove_all
call-list_call q xs (adds t) h f room =
    (refl, add-IsQueue q xs t h f.0 f.1, omega (arith, length-append xs (t ∷ [])))
call-list_call q xs removes h f room =
    let (e, k) = remove-IsQueue q xs h (omega arith) in (ap element e, k, shorter xs)
  where
    shorter : (ys : List ℕ) → length (tail_of ys) ≤ length ys + 1
    shorter [] = omega arith
    shorter (y ∷ ys) = omega arith
call-list_call q xs (removes_all n) h f room = (
  ap elements (walk-chain q.next n q.first xs h.chain),
  IsQueue-nil _ refl refl refl,
  omega arith,
)
call-list_call q xs sizes h f room = (ap number (h.counted ∙ fits (length xs) room), h, omega arith)
  where
    fits : (n : ℕ) → n + 1 < 2 ^ 64 → u64 n ≡ n
    fits n lt = omega arith
call-list_call q xs peeks h f room = (ap element (first_is q xs h), h, omega arith)
call-list_call q xs (elsewhere t v) h f room = (refl, elsewhere-IsQueue q xs t v h f, omega arith)

calls-list_calls :
    (q : Queue) (xs : List ℕ) (cs : List Call)
    → IsQueue q xs
    → AreFair xs cs
    → length xs + length cs < 2 ^ 64
    → calls q cs ≡ list_calls xs cs
unfolding calls list_calls AreFair
calls-list_calls q xs [] h f room = refl
calls-list_calls q xs (c ∷ cs) h f room =
    let (e, k, size) = call-list_call q xs c h f.0 (omega arith) in
    ap₂ ◌∷◌ e (calls-list_calls (call q c).1 (list_call xs c).1 cs k f.1 (omega arith))

-- Fewer than 2^64 calls on a new queue, in which only elements that are not null and not in the queue
-- are added, and `next` fields of no element in the queue are written by others, give the replies of a
-- list: elements come out once and in order, alone or all at a time.
pub calls-new_queue :
    (next : ℕ → ℕ) (cs : List Call)
    → AreFair [] cs
    → length cs < 2 ^ 64
    → calls (new_queue next) cs ≡ list_calls [] cs
unfolding new_queue
calls-new_queue next cs f room =
    calls-list_calls (new_queue next) [] cs (IsQueue-nil (new_queue next) refl refl refl) f
      (omega arith)
