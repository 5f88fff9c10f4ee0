-- ===== src/Shared/Runs.antt =====
-- Runs of operations on the references of kernel/shared.h, from a program's start.
use networking_p.Prelude.{
  Member, ℕ, zero, suc, ◌^◌, ◌<◌, ◌≡◌, ◌≢◌, inl, inr, refl, ap, sym, ◌∙◌, subst, true, ◌==◌, count,
  if◌then◌else◌, Option, none, some, Option-cases, some_inj, List, [], ◌∷◌, length, get_or,
  replicate, length-replicate, ==_iff, ==-cases, ne→==, Bool-cases, arith,
}
use networking_p.Shared.{
  Middle, Store, Ref, strong_at, weak_at, construct_strong, construct_weak, make_strong,
  clear_strong, clear_weak, assign_strong, assign_weak, dereference,
}
use networking_p.Shared.Counts.{ptr_at, Holds}
use networking_p.Shared.Returns.{IsStore, Returns, strong_counts, weak_counts}
use networking_p.Shared.Operate.{
  fresh_strong-Returns, fresh_weak-Returns, clear_strong-Returns, clear_weak-Returns,
  assign_strong-Returns, assign_weak-Returns, make_strong-IsStore,
}

-- An operation on the variable with a number.
pub data Op : Type 0 where
  new_object : ℕ → ℕ → ℕ → Op
  copy_strong : ℕ → Ref → Op
  copy_weak : ℕ → Ref → Op
  end_strong : ℕ → Op
  end_weak : ℕ → Op
  set_strong : ℕ → Ref → Op
  set_weak : ℕ → Ref → Op

unfoldable pub perform : Op → Store → Option Store
perform (new_object i t m) s = some (make_strong i t m s)
perform (copy_strong i r) s = construct_strong i r s
perform (copy_weak i r) s = construct_weak i r s
perform (end_strong i) s = clear_strong i s
perform (end_weak i) s = clear_weak i s
perform (set_strong i r) s = assign_strong i r s
perform (set_weak i r) s = assign_weak i r s

-- What a program keeps to: the variable exists; one that is constructed holds nothing yet; an object
-- is new, and so is the memory of its middle.
unfoldable pub IsReady : Store → Op → Type 0
IsReady s (new_object i t m) =
    (i < length s.strong)
    × (strong_at s i ≡ 0)
    × (0 < t)
    × (¬ Member t s.made)
    × (m ≢ 0)
    × (s.middles m ≡ none)
IsReady s (copy_strong i r) = (i < length s.strong) × (strong_at s i ≡ 0)
IsReady s (copy_weak i r) = (i < length s.weak) × (weak_at s i ≡ 0)
IsReady s (end_strong i) = i < length s.strong
IsReady s (end_weak i) = i < length s.weak
IsReady s (set_strong i r) = i < length s.strong
IsReady s (set_weak i r) = i < length s.weak

-- No object, and null references.
abbrev pub nothing_made : ℕ → ℕ → Store
nothing_made k l = record {
  middles = λ m. none;
  made = [];
  deleted = [];
  strong = replicate k 0;
  weak = replicate l 0;
}

pub data Reach (k l : ℕ) : Store → Type 0 where
  begin : Reach k l (nothing_made k l)
  next : {s t : Store} (op : Op) → Reach k l s → IsReady s op → perform op s ≡ some t → Reach k l t

perform-Returns : (s : Store) (op : Op) → IsStore s → IsReady s op → Returns (perform op s)
unfolding perform IsReady
perform-Returns s (new_object i t m) h r =
    (make_strong i t m s, refl, make_strong-IsStore s h i t m r.0 r.1 r.2 r.3 r.4 r.5)
perform-Returns s (copy_strong i r) h (lt, null) = fresh_strong-Returns s h i r lt null
perform-Returns s (copy_weak i r) h (lt, null) = fresh_weak-Returns s h i r lt null
perform-Returns s (end_strong i) h lt = clear_strong-Returns s h i lt
perform-Returns s (end_weak i) h lt = clear_weak-Returns s h i lt
perform-Returns s (set_strong i r) h lt = assign_strong-Returns s h i r lt
perform-Returns s (set_weak i r) h lt = assign_weak-Returns s h i r lt

count-replicate : (n k : ℕ) → n ≢ 0 → count n (replicate k 0) ≡ 0
count-replicate n zero nz = refl
count-replicate n (suc k) nz =
    let other = ne→== 0 n (λ e. nz (sym e)) in rw other (count-replicate n k nz)

begin-IsStore : (k l : ℕ) → k < 2 ^ 63 → l < 2 ^ 63 → IsStore (nothing_made k l)
begin-IsStore k l room_s room_w = record {
  counted = record {
    holds = λ m nz. (count-replicate m k nz, count-replicate m l nz);
    alone = λ m n pos e. absurd (omega arith);
    alive = λ m pos. absurd (omega arith);
    once = tt;
    real = λ t i. absurd i;
    history = λ t i. i;
    kept = λ t i. inl i;
  };
  strong_room = omega (arith, length-replicate k (zero));
  weak_room = omega (arith, length-replicate l (zero));
}

-- A variable that holds a number which is counted.
pub find-count : (n : ℕ) (xs : List ℕ) → 0 < count n xs → (i : ℕ) × (get_or xs i 0 ≡ n)
find-count n [] pos = absurd (omega arith)
find-count n (x ∷ xs) pos = elim (==-cases x n) [
  | inl e ↦ (0, e)
  | inr ne ↦
      let other = ne→== x n ne in
      let (i, e) =
        find-count n xs (subst (λ b. 0 < (if b then suc (count n xs) else count n xs)) other pos) in
      (suc i, e)
]

pub count_at : (xs : List ℕ) (i : ℕ) → get_or xs i 0 ≢ 0 → 0 < count (get_or xs i 0) xs
count_at [] i nz = absurd (nz refl)
count_at (x ∷ xs) zero nz =
    let same : (x == x) ≡ true = (==_iff x x).1 refl in rw same (omega arith)
count_at (x ∷ xs) (suc i) nz =
    let rest = count_at xs i nz in
    elim (Bool-cases (x == get_or xs i 0)) [ inl e ↦ rw e (omega arith) | inr e ↦ rw e rest ]

module _ (k l : ℕ) (room_s : k < 2 ^ 63) (room_w : l < 2 ^ 63) where
  pub Reach-IsStore : (s : Store) → Reach k l s → IsStore s
  Reach-IsStore _ begin = begin-IsStore k l room_s room_w
  Reach-IsStore t (next {s} op r ready e) =
      let (u, f, h) = perform-Returns s op (Reach-IsStore s r) ready in
      subst IsStore (some_inj (sym f ∙ e)) h

  module _ (s : Store) (r : Reach k l s) where
    -- With fewer than 2^63 variables of each kind, after any run on references to objects that hold
    -- no references themselves: the next operation returns. It touches no freed middle, and no
    -- assertion fails.
    pub perform_lem : (op : Op) → IsReady s op → (t : Store) × (perform op s ≡ some t) × Reach k l t
    perform_lem op ready =
        let (t, e, h) = perform-Returns s op (Reach-IsStore s r) ready in (t, e, next op r ready e)

    -- A strong reference that is not null.
    owned_object :
        (i : ℕ)
        → strong_at s i ≢ 0
        → (x : Middle) × (s.middles (strong_at s i) ≡ some x) × (0 < x.ptr)
    owned_object i nz =
        let h = Reach-IsStore s r in
        let pos = count_at s.strong i nz in
        elim (Option-cases (s.middles (strong_at s i))) [
          | inl e ↦
              let gone =
                subst
                  (λ o. Holds o (strong_counts s (strong_at s i)) (weak_counts s (strong_at s i))) e
                  (h.counted.holds (strong_at s i) nz) in
              absurd (omega (arith, gone.0))
          | inr p ↦
              let there =
                subst
                  (λ o. Holds o (strong_counts s (strong_at s i)) (weak_counts s (strong_at s i)))
                  p.1 (h.counted.holds (strong_at s i) nz) in
              (p.0, p.1, there.4 pos)
        ]

    pub dereference-some :
        (i : ℕ) (x : Middle)
        → strong_at s i ≢ 0
        → s.middles (strong_at s i) ≡ some x
        → 0 < x.ptr
        → dereference i s ≡ some x.ptr
    unfolding dereference
    dereference-some i x nz e pos =
        let other = ne→== (strong_at s i) 0 nz in
        let full = ne→== x.ptr 0 (λ z. omega arith) in rw (dereference, other, e, full) refl

    -- With fewer than 2^63 variables of each kind, after any run on references to objects that hold
    -- no references themselves: a strong reference that is not null leads to an object that was
    -- constructed and is not deleted.
    pub dereference_lem :
        (i : ℕ)
        → strong_at s i ≢ 0
        → (t : ℕ) × (dereference i s ≡ some t) × Member t s.made × (¬ Member t s.deleted)
    dereference_lem i nz =
        let h = Reach-IsStore s r in
        let (x, e, pos) = owned_object i nz in
        let here : x.ptr ≡ ptr_at (s.middles (strong_at s i)) = ap ptr_at (sym e) in
        let alive = h.counted.alive (strong_at s i) (subst (λ t. 0 < t) here pos) in
        (
          x.ptr,
          dereference-some i x nz e pos,
          subst (λ t. Member t s.made) (sym here) alive.0,
          subst (λ t. ¬ Member t s.deleted) (sym here) alive.1,
        )
