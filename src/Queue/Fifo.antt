-- ===== src/Queue/Fifo.antt =====
-- The queue of kernel/queue.h against a list of its elements.
use networking_p.Prelude.{
  Member, IsDistinct, ℕ, zero, suc, ◌+◌, ◌-◌, ◌^◌, ◌<◌, ◌≡◌, ◌≢◌, ◌⊎◌, inl, inr, refl, ap, ap₂, sym,
  ◌∙◌, subst, ◌==◌, if◌then◌else◌, List, [], ◌∷◌, ◌++◌, length, length-append, take, ==_iff,
  ==_refl, ne→==, arith,
}
use networking_p.Prelude.Words.{u64}
use networking_p.Queue.{Queue, set_next, add, remove_first, remove, walk}

abbrev pub IsChain : (ℕ → ℕ) → ℕ → List ℕ → Type 0
IsChain next p [] = p ≡ 0
IsChain next p (x ∷ xs) = (p ≡ x) × (x ≢ 0) × IsChain next (next x) xs

abbrev last_of : List ℕ → ℕ
last_of [] = 0
last_of (x ∷ []) = x
last_of (x ∷ y ∷ ys) = last_of (y ∷ ys)

abbrev pub head_of : List ℕ → ℕ
head_of [] = 0
head_of (x ∷ xs) = x

abbrev pub tail_of : List ℕ → List ℕ
tail_of [] = []
tail_of (x ∷ xs) = xs

pub record IsQueue (q : Queue) (xs : List ℕ) : Type 0 where
  pub chain : IsChain q.next q.first xs
  pub at_end : q.last ≡ last_of xs
  pub distinct : IsDistinct xs
  pub counted : q.size_count ≡ u64 (length xs)

next_self : (t v : ℕ) (q : Queue) → (set_next t v q).next t ≡ v
unfolding set_next
next_self t v q = let same = ==_refl t in rw same refl

pub next_ne : (t v : ℕ) (q : Queue) (x : ℕ) → x ≢ t → (set_next t v q).next x ≡ q.next x
unfolding set_next
next_ne t v q x ne = let other = ne→== x t ne in rw other refl

pub IsChain-ext :
    (f g : ℕ → ℕ) (p : ℕ) (xs : List ℕ)
    → ((x : ℕ) → Member x xs → g x ≡ f x)
    → IsChain f p xs
    → IsChain g p xs
IsChain-ext f g p [] same h = h
IsChain-ext f g p (x ∷ xs) same h = (
  h.0,
  h.1,
  subst (λ r. IsChain g r xs) (sym (same x (inl refl)))
      (IsChain-ext f g (f x) xs (λ y i. same y (inr i)) h.2),
)

last-Member : (x : ℕ) (xs : List ℕ) → Member (last_of (x ∷ xs)) (x ∷ xs)
last-Member x [] = inl refl
last-Member x (y ∷ ys) = inr (last-Member y ys)

-- An element linked behind the last one.
IsChain-append :
    (f g : ℕ → ℕ) (p t x : ℕ) (xs : List ℕ)
    → t ≢ 0
    → g t ≡ 0
    → g (last_of (x ∷ xs)) ≡ t
    → IsDistinct (x ∷ xs)
    → ((y : ℕ) → Member y (x ∷ xs) → y ≢ last_of (x ∷ xs) → g y ≡ f y)
    → IsChain f p (x ∷ xs)
    → IsChain g p (x ∷ xs ++ t ∷ [])
IsChain-append f g p t x [] nz end link d same h = (h.0, h.1, (link, nz, end))
IsChain-append f g p t x (y ∷ ys) nz end link d same h =
    let inner : x ≢ last_of (y ∷ ys) =
      λ e. d.0 (subst (λ z. Member z (y ∷ ys)) (sym e) (last-Member y ys)) in
    (
      h.0,
      h.1,
      subst (λ r. IsChain g r (y ∷ ys ++ t ∷ [])) (sym (same x (inl refl) inner))
          (IsChain-append f g (f x) t y ys nz end link d.1 (λ z i ne. same z (inr i) ne) h.2),
    )

last-append : (t : ℕ) (xs : List ℕ) → last_of (xs ++ t ∷ []) ≡ t
last-append t [] = refl
last-append t (x ∷ []) = refl
last-append t (x ∷ y ∷ ys) = last-append t (y ∷ ys)

Member-append : (y t : ℕ) (xs : List ℕ) → Member y (xs ++ t ∷ []) → Member y xs ⊎ (y ≡ t)
Member-append y t [] (inl e) = inr e
Member-append y t [] (inr i) = absurd i
Member-append y t (x ∷ xs) (inl e) = inl (inl e)
Member-append y t (x ∷ xs) (inr i) = elim (Member-append y t xs i) [
  | inl a ↦ inl (inr a)
  | inr e ↦ inr e
]

IsDistinct-append :
    (t : ℕ) (xs : List ℕ) → ¬ Member t xs → IsDistinct xs → IsDistinct (xs ++ t ∷ [])
IsDistinct-append t [] new d = (λ i. i, tt)
IsDistinct-append t (x ∷ xs) new d = (
  λ i. elim (Member-append x t xs i) [ inl a ↦ d.0 a | inr e ↦ new (inl (sym e)) ],
  IsDistinct-append t xs (λ i. new (inr i)) d.1,
)

count_more : (n s : ℕ) → s ≡ u64 n → u64 (s + 1) ≡ u64 (n + 1)
count_more n s e = omega arith

pub add-IsQueue :
    (q : Queue) (xs : List ℕ) (t : ℕ)
    → IsQueue q xs
    → t ≢ 0
    → (¬ Member t xs)
    → IsQueue (add t q) (xs ++ t ∷ [])
unfolding add set_next
add-IsQueue q [] t h nz new =
    let empty = (==_iff q.first 0).1 h.chain in
    rw (add, empty)
      (record {
        chain = (refl, nz, next_self t 0 q);
        at_end = refl;
        distinct = (λ i. i, tt);
        counted = count_more 0 q.size_count h.counted;
      })
add-IsQueue q (x ∷ xs) t h nz new =
    let full = ne→== q.first 0 (λ e. h.chain.1 (sym h.chain.0 ∙ e)) in
    let q1 = set_next t 0 q in
    let other : q.last ≢ t =
      λ e. new (subst (λ z. Member z (x ∷ xs)) (sym h.at_end ∙ e) (last-Member x xs)) in
    rw (add, full)
      (record {
        chain =
            IsChain-append q.next (set_next q.last t q1).next q.first t x xs nz
              (next_ne q.last t q1 t (λ e. other (sym e)) ∙ next_self t 0 q)
              (ap (set_next q.last t q1).next (sym h.at_end) ∙ next_self q.last t q1) h.distinct
              (λ y i ne.
                next_ne q.last t q1 y (λ e. ne (e ∙ h.at_end))
                ∙ next_ne t 0 q y (λ e. new (subst (λ z. Member z (x ∷ xs)) e i)))
              h.chain;
        at_end = sym (last-append t (x ∷ xs));
        distinct = IsDistinct-append t (x ∷ xs) new h.distinct;
        counted =
            count_more (length (x ∷ xs)) q.size_count h.counted
            ∙ ap u64 (sym (length-append (x ∷ xs) (t ∷ [])));
      })

pub remove-IsQueue :
    (q : Queue) (xs : List ℕ)
    → IsQueue q xs
    → length xs < 2 ^ 64
    → ((remove q).0 ≡ head_of xs) × IsQueue (remove q).1 (tail_of xs)
unfolding remove remove_first
remove-IsQueue q [] h room = let empty = (==_iff q.first 0).1 h.chain in rw empty (refl, h)
remove-IsQueue q (x ∷ xs) h room =
    let full = ne→== q.first 0 (λ e. h.chain.1 (sym h.chain.0 ∙ e)) in
    rw full (
      h.chain.0,
      record {
        chain = subst (λ p. IsChain q.next p xs) (sym (ap q.next h.chain.0)) h.chain.2;
        at_end =
            new_end xs (subst (λ p. IsChain q.next p xs) (sym (ap q.next h.chain.0)) h.chain.2)
              h.at_end;
        distinct = h.distinct.1;
        counted = fewer (length xs) q.size_count h.counted;
      },
    )
  where
    fewer : (n s : ℕ) → s ≡ u64 (suc n) → u64 (s + 2 ^ 64 - 1) ≡ u64 n
    fewer n s e = omega arith

    new_end :
        (ys : List ℕ)
        → IsChain q.next (q.next q.first) ys
        → q.last ≡ last_of (x ∷ ys)
        → (if q.next q.first == 0 then 0 else q.last) ≡ last_of ys
    new_end [] c e = let last_gone = (==_iff (q.next q.first) 0).1 c in rw last_gone refl
    new_end (y ∷ ys) c e = let more = ne→== (q.next q.first) 0 (λ z. c.1 (sym c.0 ∙ z)) in rw more e

pub IsQueue-nil : (q : Queue) → q.first ≡ 0 → q.last ≡ 0 → q.size_count ≡ 0 → IsQueue q []
IsQueue-nil q e f g = record { chain = e; at_end = f; distinct = tt; counted = g }

-- A caller that follows the list comes by its elements.
pub walk-chain :
    (next : ℕ → ℕ) (n p : ℕ) (xs : List ℕ) → IsChain next p xs → walk next n p ≡ take n xs
unfolding walk
walk-chain next zero p xs h = refl
walk-chain next (suc n) p [] h = let end = (==_iff p 0).1 h in rw end refl
walk-chain next (suc n) p (x ∷ xs) h =
    let more = ne→== p 0 (λ e. h.1 (sym h.0 ∙ e)) in
    rw more (ap₂ ◌∷◌ h.0 (ap (walk next n) (ap next h.0) ∙ walk-chain next n (next x) xs h.2))

-- A write to an element that is not in the queue.
pub elsewhere-IsQueue :
    (q : Queue) (xs : List ℕ) (t v : ℕ)
    → IsQueue q xs
    → (¬ Member t xs)
    → IsQueue (set_next t v q) xs
unfolding set_next
elsewhere-IsQueue q xs t v h out = record {
  chain =
      IsChain-ext q.next (set_next t v q).next q.first xs
        (λ x i. next_ne t v q x (λ e. out (subst (λ z. Member z xs) e i))) h.chain;
  at_end = h.at_end;
  distinct = h.distinct;
  counted = h.counted;
}
