-- ===== src/Prelude/Lists.antt =====
-- C arrays as lists, measured and indexed by native numbers.
use Prim.Native.Nat.{ℕ, zero, suc, ◌+◌, ◌-◌, ◌≤◌, ◌<◌, min}
use mathlib.Core.Path.{◌≡◌, refl, ap, sym, ◌∙◌}
use mathlib.Core.Logic.{◌≢◌}
use mathlib.Core.Logic.{◌⊎◌}
use mathlib.Core.Bool.{Bool, true, false}
use mathlib.Core.List.{List, [], ◌∷◌, ◌++◌}
use networking_p.Prelude.Conds.{◌==◌, if◌then◌else◌}
use mathlib.Core.Option.{Option, none, some}
use native.Mathlib.Omega.{arith}

module _ {ℓ} {A : Type ℓ} where
  abbrev pub length : List A → ℕ
  length [] = 0
  length (x ∷ xs) = suc (length xs)

  abbrev pub get_elem? : List A → ℕ → Option A
  get_elem? [] i = none
  get_elem? (x ∷ xs) zero = some x
  get_elem? (x ∷ xs) (suc i) = get_elem? xs i

  abbrev pub get_or : List A → ℕ → A → A
  get_or [] i d = d
  get_or (x ∷ xs) zero d = x
  get_or (x ∷ xs) (suc i) d = get_or xs i d

  -- A write out of bounds changes nothing.
  abbrev pub set : List A → ℕ → A → List A
  set [] i v = []
  set (x ∷ xs) zero v = v ∷ xs
  set (x ∷ xs) (suc i) v = x ∷ set xs i v

  abbrev pub take : ℕ → List A → List A
  take zero xs = []
  take (suc n) [] = []
  take (suc n) (x ∷ xs) = x ∷ take n xs

  abbrev pub drop : ℕ → List A → List A
  drop zero xs = xs
  drop (suc n) [] = []
  drop (suc n) (x ∷ xs) = drop n xs

  abbrev pub replicate : ℕ → A → List A
  replicate zero a = []
  replicate (suc n) a = a ∷ replicate n a

  abbrev pub All {κ} : (A → Type κ) → List A → Type κ
  All P [] = Unit
  All P (x ∷ xs) = P x × All P xs

  pub length-append : (xs ys : List A) → length (xs ++ ys) ≡ length xs + length ys
  length-append [] ys = omega arith
  length-append (x ∷ xs) ys = omega (arith, length-append xs ys)

  pub length-set : (xs : List A) (i : ℕ) (v : A) → length (set xs i v) ≡ length xs
  length-set [] i v = refl
  length-set (x ∷ xs) zero v = refl
  length-set (x ∷ xs) (suc i) v = ap suc (length-set xs i v)

  pub length-replicate : (n : ℕ) (a : A) → length (replicate n a) ≡ n
  length-replicate zero a = refl
  length-replicate (suc n) a = ap suc (length-replicate n a)

  pub length-take : (n : ℕ) (xs : List A) → length (take n xs) ≡ min n (length xs)
  length-take zero xs = omega arith
  length-take (suc n) [] = omega arith
  length-take (suc n) (x ∷ xs) = omega (arith, length-take n xs)

  pub length-drop : (n : ℕ) (xs : List A) → length (drop n xs) ≡ length xs - n
  length-drop zero xs = omega arith
  length-drop (suc n) [] = omega arith
  length-drop (suc n) (x ∷ xs) = omega (arith, length-drop n xs)

  pub get_or-set_self :
      (xs : List A) (i : ℕ) (v d : A) → i < length xs → get_or (set xs i v) i d ≡ v
  get_or-set_self [] i v d h = absurd (omega arith)
  get_or-set_self (x ∷ xs) zero v d h = refl
  get_or-set_self (x ∷ xs) (suc i) v d h = get_or-set_self xs i v d (omega arith)

  pub get_or-set_ne :
      (xs : List A) (i j : ℕ) (v d : A) → i ≢ j → get_or (set xs i v) j d ≡ get_or xs j d
  get_or-set_ne [] i j v d ne = refl
  get_or-set_ne (x ∷ xs) zero zero v d ne = absurd (ne refl)
  get_or-set_ne (x ∷ xs) zero (suc j) v d ne = refl
  get_or-set_ne (x ∷ xs) (suc i) zero v d ne = refl
  get_or-set_ne (x ∷ xs) (suc i) (suc j) v d ne = get_or-set_ne xs i j v d (λ e. ne (ap suc e))

  pub get_or-take : (n i : ℕ) (xs : List A) (d : A) → i < n → get_or (take n xs) i d ≡ get_or xs i d
  get_or-take zero i xs d h = absurd (omega arith)
  get_or-take (suc n) i [] d h = refl
  get_or-take (suc n) zero (x ∷ xs) d h = refl
  get_or-take (suc n) (suc i) (x ∷ xs) d h = get_or-take n i xs d (omega arith)

  pub take_all : (n : ℕ) (xs : List A) → length xs ≤ n → take n xs ≡ xs
  take_all zero [] h = refl
  take_all zero (x ∷ xs) h = absurd (omega arith)
  take_all (suc n) [] h = refl
  take_all (suc n) (x ∷ xs) h = ap (◌∷◌ x) (take_all n xs (omega arith))

  pub take-append_left : (xs ys : List A) → take (length xs) (xs ++ ys) ≡ xs
  take-append_left [] ys = refl
  take-append_left (x ∷ xs) ys = ap (◌∷◌ x) (take-append_left xs ys)

  pub take-take : (k n : ℕ) (xs : List A) → k ≤ n → take k (take n xs) ≡ take k xs
  take-take zero n xs h = refl
  take-take (suc k) zero xs h = absurd (omega arith)
  take-take (suc k) (suc n) [] h = refl
  take-take (suc k) (suc n) (x ∷ xs) h = ap (◌∷◌ x) (take-take k n xs (omega arith))

  pub take_comm : (k n : ℕ) (xs : List A) → take k (take n xs) ≡ take n (take k xs)
  take_comm zero zero xs = refl
  take_comm zero (suc n) xs = refl
  take_comm (suc k) zero xs = refl
  take_comm (suc k) (suc n) [] = refl
  take_comm (suc k) (suc n) (x ∷ xs) = ap (◌∷◌ x) (take_comm k n xs)

  pub drop-append : (xs ys : List A) (k : ℕ) → drop (length xs + k) (xs ++ ys) ≡ drop k ys
  drop-append [] ys k = let same : 0 + k ≡ k = omega arith in rw same refl
  drop-append (x ∷ xs) ys k =
      let same : suc (length xs) + k ≡ suc (length xs + k) = omega arith in
      rw same (drop-append xs ys k)

  pub take_nil : (k : ℕ) (xs : List A) → xs ≡ [] → take k xs ≡ []
  take_nil zero xs e = refl
  take_nil (suc k) xs e = rw e refl

  pub drop_nil : (k : ℕ) (xs : List A) → xs ≡ [] → drop k xs ≡ []
  drop_nil zero xs e = e
  drop_nil (suc k) xs e = rw e refl

  pub drop-take : (k n : ℕ) (xs : List A) → drop k (take n xs) ≡ take (n - k) (drop k xs)
  drop-take zero n xs = let same : n - 0 ≡ n = omega arith in rw same refl
  drop-take (suc k) zero xs = let none_left : 0 - suc k ≡ 0 = omega arith in rw none_left refl
  drop-take (suc k) (suc n) [] = sym (take_nil (suc n - suc k) [] refl)
  drop-take (suc k) (suc n) (x ∷ xs) =
      let same : suc n - suc k ≡ n - k = omega arith in rw same (drop-take k n xs)

  pub drop-drop : (a b : ℕ) (xs : List A) → drop a (drop b xs) ≡ drop (b + a) xs
  drop-drop a zero xs = let same : 0 + a ≡ a = omega arith in rw same refl
  drop-drop a (suc b) [] = drop_nil a [] refl ∙ sym (drop_nil (suc b + a) [] refl)
  drop-drop a (suc b) (x ∷ xs) =
      let same : suc b + a ≡ suc (b + a) = omega arith in rw same (drop-drop a b xs)

  pub take-add : (a b : ℕ) (xs : List A) → take (a + b) xs ≡ take a xs ++ take b (drop a xs)
  take-add zero b xs = let same : 0 + b ≡ b = omega arith in rw same refl
  take-add (suc a) b [] = take_nil (suc a + b) [] refl ∙ sym (take_nil b [] refl)
  take-add (suc a) b (x ∷ xs) =
      let same : suc a + b ≡ suc (a + b) = omega arith in rw same (ap (◌∷◌ x) (take-add a b xs))

  pub All-take : (P : A → Type 0) (n : ℕ) (xs : List A) → All P xs → All P (take n xs)
  All-take P zero xs h = tt
  All-take P (suc n) [] h = tt
  All-take P (suc n) (x ∷ xs) h = (h.0, All-take P n xs h.1)

  pub All-drop : (P : A → Type 0) (n : ℕ) (xs : List A) → All P xs → All P (drop n xs)
  All-drop P zero xs h = h
  All-drop P (suc n) [] h = tt
  All-drop P (suc n) (x ∷ xs) h = All-drop P n xs h.1

  pub All-append : (P : A → Type 0) (xs ys : List A) → All P xs → All P ys → All P (xs ++ ys)
  All-append P [] ys h k = k
  All-append P (x ∷ xs) ys h k = (h.0, All-append P xs ys h.1 k)

-- The first `n` bytes of `src` written over the start of `dst`.
unfoldable pub copy_bytes : List ℕ → List ℕ → ℕ → List ℕ
copy_bytes dst src zero = dst
copy_bytes [] src (suc n) = []
copy_bytes (d ∷ ds) [] (suc n) = d ∷ ds
copy_bytes (d ∷ ds) (s ∷ ss) (suc n) = s ∷ copy_bytes ds ss n

pub length-copy_bytes : (dst src : List ℕ) (n : ℕ) → length (copy_bytes dst src n) ≡ length dst
unfolding copy_bytes
length-copy_bytes dst src zero = refl
length-copy_bytes [] src (suc n) = refl
length-copy_bytes (d ∷ ds) [] (suc n) = refl
length-copy_bytes (d ∷ ds) (s ∷ ss) (suc n) = ap suc (length-copy_bytes ds ss n)

-- What was copied reads back, if it fits.
pub take-copy_bytes :
    (dst src : List ℕ) (n : ℕ)
    → n ≤ length dst
    → n ≤ length src
    → take n (copy_bytes dst src n) ≡ take n src
unfolding copy_bytes
take-copy_bytes dst src zero p q = refl
take-copy_bytes [] src (suc n) p q = absurd (omega arith)
take-copy_bytes (d ∷ ds) [] (suc n) p q = absurd (omega arith)
take-copy_bytes (d ∷ ds) (s ∷ ss) (suc n) p q =
    ap (◌∷◌ s) (take-copy_bytes ds ss n (omega arith) (omega arith))

-- Numbers in a list: membership, no repetition, and how often one occurs.
abbrev pub Member : ℕ → List ℕ → Type 0
Member p [] = ⊥
Member p (q ∷ qs) = (p ≡ q) ⊎ Member p qs

abbrev pub IsDistinct : List ℕ → Type 0
IsDistinct [] = Unit
IsDistinct (p ∷ ps) = (¬ Member p ps) × IsDistinct ps

abbrev pub count : ℕ → List ℕ → ℕ
count n [] = 0
count n (x ∷ xs) = if x == n then suc (count n xs) else count n xs

abbrev pub one_if : Bool → ℕ
one_if true = 1
one_if false = 0

pub count_bound : (n : ℕ) (xs : List ℕ) → count n xs ≤ length xs
count_bound n [] = omega arith
count_bound n (x ∷ xs) = let rest = count_bound n xs in ground (arith, rest)

-- What a write in bounds does to the count.
pub count-set :
    (n : ℕ) (xs : List ℕ) (i v : ℕ)
    → i < length xs
    → count n (set xs i v) + one_if (get_or xs i 0 == n) ≡ count n xs + one_if (v == n)
count-set n [] i v h = absurd (omega arith)
count-set n (x ∷ xs) zero v h = ground arith
count-set n (x ∷ xs) (suc i) v h =
    let rest = count-set n xs i v (omega arith) in ground (arith, rest)
