-- ===== src/Shared.antt =====
-- kernel/shared.h: `impl::Middle`, `StrongRef` and `WeakRef`. The middles are a function of their
-- addresses, where `none` is no object: freed or never allocated. The references are variables, named
-- by their places in two lists of the pointers `middle`; one that is not constructed yet, or destroyed,
-- is null. Objects that `ptr` refers to are numbers, 0 is the null pointer. `none` as a result is a
-- use of freed memory or a failed assertion. Each operation is one step, with the deletions that
-- follow its unlock, and objects hold no references themselves.
pub mod Counts
pub mod Update
pub mod Change
pub mod Drop
pub mod Returns
pub mod Operate
pub mod Runs
pub mod Lives
use networking_p.Prelude.{
  ℕ, ◌+◌, ◌-◌, ◌==◌, ltb, Bool, true, false, ◌&&◌, if◌then◌else◌, Option, none, some, List, [], ◌∷◌,
  get_or, set,
}
use networking_p.Prelude.Assert.{◌>>=◌, ◌>>◌, assert}
use networking_p.Prelude.Words.{u64}

pub record Middle : Type 0 where
  pub ptr : ℕ
  pub strong_count : ℕ
  pub weak_count : ℕ

-- `made` and `deleted` record the objects that were constructed and deleted, the latest first.
pub record Store : Type 0 where
  pub middles : ℕ → Option Middle
  pub made : List ℕ
  pub deleted : List ℕ
  pub strong : List ℕ
  pub weak : List ℕ

unfoldable pub put : ℕ → Option Middle → Store → Store
put m x s = record s { middles = λ n. if n == m then x else s.middles n }

-- `Middle::add_strong`: the pointer that it returns.
unfoldable pub add_strong : ℕ → Store → Option (ℕ × Store)
add_strong m s = elim (m == 0) [
  | true ↦ some (0, s)
  | false ↦ elim (s.middles m) [
    | none ↦ none
    | some x ↦
        if ltb 0 x.strong_count
        then some (m, put m (some (record x { strong_count = u64 (x.strong_count + 1) })) s)
        else some (0, s)
  ]
]

-- `if (del_ptr != nullptr) delete del_ptr`, for an object that holds no references: the destructor of
-- one that does, which would drop them, is left out.
unfoldable pub delete_object : ℕ → Store → Store
delete_object t s = if t == 0 then s else record s { deleted = t ∷ s.deleted }

-- The part of `Middle::remove_strong` after the count is found positive.
unfoldable pub drop_strong : ℕ → Middle → Store → Store
drop_strong m x s =
    if x.strong_count - 1 == 0
    then delete_object x.ptr (
        put m
          (if x.weak_count == 0
            then none
            else some (record { ptr = 0; strong_count = 0; weak_count = x.weak_count }))
          s)
    else put m (some (record x { strong_count = x.strong_count - 1 })) s

unfoldable pub remove_strong : ℕ → Store → Option Store
remove_strong m s = elim (m == 0) [
  | true ↦ some s
  | false ↦ elim (s.middles m) [
    | none ↦ none
    | some x ↦ if ltb 0 x.strong_count then some (drop_strong m x s) else none
  ]
]

unfoldable pub add_weak : ℕ → Store → Option (ℕ × Store)
add_weak m s = elim (m == 0) [
  | true ↦ some (0, s)
  | false ↦ elim (s.middles m) [
    | none ↦ none
    | some x ↦
        if x.ptr == 0
        then some (0, s)
        else some (m, put m (some (record x { weak_count = u64 (x.weak_count + 1) })) s)
  ]
]

unfoldable pub drop_weak : ℕ → Middle → Store → Store
drop_weak m x s =
    if x.weak_count - 1 == 0 && x.strong_count == 0
    then put m none s
    else put m (some (record x { weak_count = x.weak_count - 1 })) s

-- No caller uses the pointer that it returns.
unfoldable pub remove_weak : ℕ → Store → Option Store
remove_weak m s = elim (m == 0) [
  | true ↦ some s
  | false ↦ elim (s.middles m) [
    | none ↦ none
    | some x ↦ if ltb 0 x.weak_count then some (drop_weak m x s) else none
  ]
]

abbrev pub strong_at : Store → ℕ → ℕ
strong_at s i = get_or s.strong i 0

abbrev pub weak_at : Store → ℕ → ℕ
weak_at s i = get_or s.weak i 0

-- The reference on the right of an assignment or construction, and its `middle`.
pub data Ref : Type 0 where
  strong_ref : ℕ → Ref
  weak_ref : ℕ → Ref

unfoldable pub middle_of : Store → Ref → ℕ
middle_of s (strong_ref j) = strong_at s j
middle_of s (weak_ref j) = weak_at s j

-- `StrongRef(rhs)` and `WeakRef(rhs)` for variable `i`.
unfoldable pub construct_strong : ℕ → Ref → Store → Option Store
construct_strong i rhs s = do
  (m, t) ← add_strong (middle_of s rhs) s
  some (record t { strong = set t.strong i m })

unfoldable pub construct_weak : ℕ → Ref → Store → Option Store
construct_weak i rhs s = do
  (m, t) ← add_weak (middle_of s rhs) s
  some (record t { weak = set t.weak i m })

-- `StrongRef(ptr)` with its new middle at address `m`; `ptr` is a new object.
unfoldable pub make_strong : ℕ → ℕ → ℕ → Store → Store
make_strong i ptr m s =
    let t = put m (some (record { ptr = ptr; strong_count = 1; weak_count = 0 })) s in
    record t { made = ptr ∷ t.made; strong = set t.strong i m }

-- The destructors, and the assignments of `nullptr`.
unfoldable pub clear_strong : ℕ → Store → Option Store
clear_strong i s = do
  t ← remove_strong (strong_at s i) s
  some (record t { strong = set t.strong i 0 })

unfoldable pub clear_weak : ℕ → Store → Option Store
clear_weak i s = do t ← remove_weak (weak_at s i) s; some (record t { weak = set t.weak i 0 })

-- `operator=` of both classes, for a reference of either class.
unfoldable pub assign_strong : ℕ → Ref → Store → Option Store
assign_strong i rhs s =
    if strong_at s i == middle_of s rhs
    then some s
    else (do t ← remove_strong (strong_at s i) s; construct_strong i rhs t)

unfoldable pub assign_weak : ℕ → Ref → Store → Option Store
assign_weak i rhs s =
    if weak_at s i == middle_of s rhs
    then some s
    else (do t ← remove_weak (weak_at s i) s; construct_weak i rhs t)

-- `operator->`: the object.
unfoldable pub dereference : ℕ → Store → Option ℕ
dereference i s = elim (strong_at s i == 0) [
  | true ↦ none
  | false ↦ elim (s.middles (strong_at s i)) [
    | none ↦ none
    | some x ↦ if x.ptr == 0 then none else some x.ptr
  ]
]
