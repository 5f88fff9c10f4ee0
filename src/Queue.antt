-- ===== src/Queue.antt =====
-- kernel/queue.h: `Queue`, a list linked through the `next` fields of its elements. A pointer is a
-- number, 0 is the null pointer, and the `next` fields are a function of the elements' addresses. The
-- lock is held throughout a call, except in the first test of `remove`.
pub mod Fifo
pub mod Runs
use networking_p.Prelude.{ℕ, zero, suc, ◌+◌, ◌-◌, ◌^◌, ◌==◌, if◌then◌else◌, List, [], ◌∷◌}
use networking_p.Prelude.Words.{u64}

pub record Queue : Type 0 where
  pub first : ℕ
  pub last : ℕ
  pub size_count : ℕ
  pub next : ℕ → ℕ

-- `t->next = v`
unfoldable pub set_next : ℕ → ℕ → Queue → Queue
set_next t v q = record q { next = λ x. if x == t then v else q.next x }

-- `Queue()`, among elements with any fields.
unfoldable pub new_queue : (ℕ → ℕ) → Queue
new_queue next = record { first = 0; last = 0; size_count = 0; next = next }

unfoldable pub add : ℕ → Queue → Queue
add t q =
    let q1 = set_next t 0 q in
    let q2 = if q1.first == 0 then record q1 { first = t } else set_next q1.last t q1 in
    record q2 { last = t; size_count = u64 (q2.size_count + 1) }

-- The part of `remove` under the lock, and its result.
unfoldable pub remove_first : Queue → ℕ × Queue
remove_first q = if q.first == 0 then (0, q) else (
  q.first,
  record q {
    first = q.next q.first;
    last = if q.next q.first == 0 then 0 else q.last;
    size_count = u64 (q.size_count + 2 ^ 64 - 1);
  },
)

unfoldable pub remove : Queue → ℕ × Queue
remove q = if q.first == 0 then (0, q) else remove_first q

unfoldable pub remove_all : Queue → ℕ × Queue
remove_all q = (q.first, record q { first = 0; last = 0; size_count = 0 })

unfoldable pub size : Queue → ℕ
size q = q.size_count

unfoldable pub peek : Queue → ℕ
peek q = q.first

-- The loop over what `remove_all` gives, as in `Condition::notify_all`, for `n` rounds at most.
unfoldable pub walk : (ℕ → ℕ) → ℕ → ℕ → List ℕ
walk next zero p = []
walk next (suc n) p = let rest = walk next n (next p) in if p == 0 then [] else p ∷ rest
