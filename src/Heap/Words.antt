-- ===== src/Heap/Words.antt =====
-- Words and indices of the heap of kernel/heap.cc, where nothing wraps.
use networking_p.Prelude.{
  ℕ, ◌+◌, ◌-◌, ◌%◌, ◌^◌, ◌≤◌, ◌<◌, ◌≡◌, ◌≢◌, refl, ap, Bool, true, false, ltb, if◌then◌else◌,
  ==_refl, ne→==, lt→ltb, arith,
}
use networking_p.Prelude.Words.{u64}
use networking_p.Heap.{
  Heap, store, is_taken, size, header_from_footer, footer_from_header, left, right, next, prev,
  set_next, set_prev, set_ends, to_int,
}

pub store_self : (i v : ℕ) (h : Heap) → (store i v h).array i ≡ v
unfolding store
store_self i v h = let same = ==_refl i in rw same refl

pub store_ne : (i v : ℕ) (h : Heap) (k : ℕ) → k ≢ i → (store i v h).array k ≡ h.array k
unfolding store
store_ne i v h k ne = let other = ne→== k i ne in rw other refl

-- The word of a block: its size, and whether it is taken.
abbrev pub word : ℕ → Bool → ℕ
word n taken = if taken then n + 1 else n

pub size_even : (h : Heap) (i : ℕ) → size h i % 2 ≡ 0
unfolding size
size_even h i = omega arith

pub size_word :
    (h : Heap) (i n : ℕ) (b : Bool)
    → n % 2 ≡ 0
    → h.array i ≡ word n b
    → (size h i ≡ n) × (is_taken h i ≡ b)
unfolding size is_taken
size_word h i n true even e = (omega arith, ground (arith, e, even))
size_word h i n false even e = (omega arith, ground (arith, e, even))

pub word_size : (h : Heap) (i : ℕ) → h.array i ≡ word (size h i) (is_taken h i)
unfolding size is_taken
word_size h i = ground arith

-- The same word at the same place is the same block.
pub size-ext : (h g : Heap) (i j : ℕ) → h.array i ≡ g.array j → size h i ≡ size g j
unfolding size
size-ext h g i j e = rw e refl

pub is_taken-ext : (h g : Heap) (i j : ℕ) → h.array i ≡ g.array j → is_taken h i ≡ is_taken g j
unfolding is_taken
is_taken-ext h g i j e = rw e refl

pub next_lem : (h : Heap) (i : ℕ) → i < 2 ^ 63 → next h i ≡ h.array (i + 1)
unfolding next
next_lem h i lt = let small : u64 (i + 1) ≡ i + 1 = omega arith in ap h.array small

pub prev_lem : (h : Heap) (i : ℕ) → i < 2 ^ 63 → prev h i ≡ h.array (i + 2)
unfolding prev
prev_lem h i lt = let small : u64 (i + 2) ≡ i + 2 = omega arith in ap h.array small

pub set_next_lem : (i x : ℕ) (h : Heap) → i < 2 ^ 63 → set_next i x h ≡ store (i + 1) x h
unfolding set_next
set_next_lem i x h lt = let small : u64 (i + 1) ≡ i + 1 = omega arith in rw small refl

pub set_prev_lem : (i x : ℕ) (h : Heap) → i < 2 ^ 63 → set_prev i x h ≡ store (i + 2) x h
unfolding set_prev
set_prev_lem i x h lt = let small : u64 (i + 2) ≡ i + 2 = omega arith in rw small refl

pub right_lem : (h : Heap) (i : ℕ) → i + size h i < 2 ^ 63 → right h i ≡ i + size h i
unfolding right
right_lem h i lt = omega arith

pub to_int_lem : (n : ℕ) → n < 2 ^ 31 → to_int n ≡ n
unfolding to_int
to_int_lem n lt =
    let small : n % 2 ^ 32 ≡ n = omega arith in
    let positive : ltb n (2 ^ 31) ≡ true = lt→ltb n (2 ^ 31) lt in rw (small, positive) refl

-- The two ends of a block of `n` words that lies at `i`.
pub set_ends_lem :
    (i n : ℕ) (b : Bool) (h : Heap)
    → n % 2 ≡ 0
    → 2 ≤ n
    → i + n < 2 ^ 63
    → set_ends i (word n b) h ≡ store (i + n - 1) (word n b) (store i (word n b) h)
unfolding set_ends footer_from_header
set_ends_lem i n b h even some_words lt =
    let sized = (size_word (store i (word n b) h) i n b even (store_self i (word n b) h)).0 in
    let footer : u64 (i + n + 2 ^ 64 - 1) ≡ i + n - 1 = omega arith in rw (sized, footer) refl

-- The block on the left, by the word before the block.
pub left_lem :
    (h : Heap) (i n : ℕ) → 0 < i → i < 2 ^ 63 → size h (i - 1) ≡ n → n ≤ i → left h i ≡ i - n
unfolding left header_from_footer
left_lem h i n pos lt sized fits =
    let before : u64 (i + 2 ^ 64 - 1) ≡ i - 1 = omega arith in rw (before, sized) (omega arith)
