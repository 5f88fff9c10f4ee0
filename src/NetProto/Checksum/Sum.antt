-- ===== src/NetProto/Checksum/Sum.antt =====
-- What `checksum16` of kernel/net_proto.cc computes, against the sum of the 16-bit words.
use networking_p.Prelude.{
  ℕ, ◌+◌, ◌*◌, ◌%◌, ◌^◌, ◌≤◌, ◌<◌, ◌≡◌, refl, ◌≢◌, ◌↔◌, List, [], ◌∷◌, ◌++◌, length, arith,
}
use Prim.Native.Nat.{bit_or}
use networking_p.Prelude.Words.{u16, u32, ◌<<◌, bit_or_high}
use networking_p.Wire.{IsBytes}
use networking_p.NetProto.Checksum.{add_words, fold_carries, checksum16}

-- The sum of the big-endian 16-bit words, a leftover byte padded on the right.
unfoldable pub word_sum : List ℕ → ℕ
word_sum [] = 0
word_sum (a ∷ []) = a * 256
word_sum (a ∷ b ∷ xs) = a * 256 + b + word_sum xs

pub word_sum-le : (xs : List ℕ) → IsBytes xs → word_sum xs ≤ 65535 * length xs
unfolding word_sum
word_sum-le [] h = omega arith
word_sum-le (a ∷ []) h = omega arith
word_sum-le (a ∷ b ∷ xs) h = omega (arith, word_sum-le xs h.1.1)

add_words-eq :
    (sum : ℕ) (xs : List ℕ)
    → IsBytes xs
    → sum + word_sum xs < 2 ^ 32
    → add_words sum xs (length xs) ≡ sum + word_sum xs
unfolding add_words word_sum
add_words-eq sum [] h fits = omega arith
add_words-eq sum (a ∷ []) h fits = omega arith
add_words-eq sum (a ∷ b ∷ xs) h fits =
    let word : u32 (sum + u16 (bit_or (a << 8) b)) ≡ sum + (a * 256 + b) =
      omega (arith, bit_or_high 8 a b h.1.0) in
    rw word (omega (arith, add_words-eq (sum + (a * 256 + b)) xs h.1.1 (omega arith)))

-- What the loop leaves: a 16-bit number with the sum's remainder modulo 65535, and zero only
-- for zero. The two rounds of fuel end it.
pub fold_carries_lem :
    (s : ℕ)
    → s < 2 ^ 32
    → (fold_carries 2 s < 2 ^ 16)
      × (fold_carries 2 s % 65535 ≡ s % 65535)
      × ((fold_carries 2 s ≡ 0) ↔ (s ≡ 0))
unfolding fold_carries
fold_carries_lem s h = ground arith

-- The checksum of fewer than 65537 bytes is zero exactly if the sum of their words is a positive
-- multiple of 65535.
pub checksum16_zero :
    (xs : List ℕ)
    → IsBytes xs
    → length xs ≤ 2 ^ 16
    → (checksum16 xs (length xs) ≡ 0) ↔ ((word_sum xs % 65535 ≡ 0) × (word_sum xs ≢ 0))
unfolding checksum16
checksum16_zero xs h len =
    rw (add_words-eq 0 xs h (omega (arith, word_sum-le xs h)))
      (ground (arith, fold_carries_lem (0 + word_sum xs) (omega (arith, word_sum-le xs h))))

pub checksum16-lt : (xs : List ℕ) (n : ℕ) → checksum16 xs n < 2 ^ 16
unfolding checksum16
checksum16-lt xs n = omega arith

-- Adding the checksum to the words it was computed from gives a positive multiple of 65535.
checksum16_completes :
    (xs : List ℕ)
    → IsBytes xs
    → length xs ≤ 2 ^ 16
    → ((word_sum xs + checksum16 xs (length xs)) % 65535 ≡ 0)
      × (word_sum xs + checksum16 xs (length xs) ≢ 0)
unfolding checksum16
checksum16_completes xs h len =
    rw (add_words-eq 0 xs h (omega (arith, word_sum-le xs h)))
      (ground (arith, fold_carries_lem (0 + word_sum xs) (omega (arith, word_sum-le xs h))))

-- A checksum that is computed over a zero field and then added in that field makes the whole
-- valid for the receiver.
pub checksum16_patched :
    (xs ys : List ℕ) (n : ℕ)
    → length xs ≡ n
    → length ys ≡ n
    → n ≤ 2 ^ 16
    → IsBytes xs
    → IsBytes ys
    → word_sum ys ≡ word_sum xs + checksum16 xs n
    → checksum16 ys n ≡ 0
checksum16_patched xs ys n lx ly le hx hy patched =
    let (whole, some_word) = checksum16_completes xs hx (omega arith) in
    rw ly at ((checksum16_zero ys hy (omega arith)).1 (rw (patched, ← lx) (whole, some_word)))

-- Only the first `n` bytes count.
add_words-append :
    (sum : ℕ) (xs ys : List ℕ) → add_words sum (xs ++ ys) (length xs) ≡ add_words sum xs (length xs)
unfolding add_words
add_words-append sum [] [] = refl
add_words-append sum [] (y ∷ ys) = refl
add_words-append sum (a ∷ []) ys = refl
add_words-append sum (a ∷ b ∷ xs) ys = add_words-append (u32 (sum + u16 (bit_or (a << 8) b))) xs ys

pub checksum16-append :
    (xs ys : List ℕ) → checksum16 (xs ++ ys) (length xs) ≡ checksum16 xs (length xs)
unfolding checksum16
checksum16-append xs ys = rw (add_words-append 0 xs ys) refl
