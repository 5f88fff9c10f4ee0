-- ===== src/NetProto/Checksum.antt =====
-- `checksum16` of kernel/net_proto.cc, the Internet checksum.
pub mod Sum
use networking_p.Prelude.{ℕ, zero, suc, ◌+◌, ◌-◌, ◌%◌, ◌^◌, true, false, ◌==◌, List, [], ◌∷◌}
use Prim.Native.Nat.{bit_or}
use networking_p.Prelude.Words.{u16, u32, ◌<<◌, ◌>>>◌}

-- The loop over the 16-bit words, and the leftover byte of an odd length. `sum` is a `uint32_t`.
-- The list is the memory from `data + i` on, the number is `len - i`.
unfoldable pub add_words : ℕ → List ℕ → ℕ → ℕ
add_words sum mem zero = sum
add_words sum [] (suc n) = sum
add_words sum (a ∷ mem) (suc zero) = u32 (sum + (a << 8))
add_words sum (a ∷ []) (suc (suc n)) = sum
add_words sum (a ∷ b ∷ mem) (suc (suc n)) = add_words (u32 (sum + u16 (bit_or (a << 8) b))) mem n

-- `while (sum >> 16)`, with `fuel` rounds at most.
unfoldable pub fold_carries : ℕ → ℕ → ℕ
fold_carries zero sum = sum
fold_carries (suc fuel) sum = elim (sum >>> 16 == 0) [
  | true ↦ sum
  | false ↦ fold_carries fuel (u32 (sum % 2 ^ 16 + (sum >>> 16)))
]

-- Two rounds end the loop, from any 32-bit sum.
abbrev pub fold_fuel : ℕ
fold_fuel = 2

-- `uint16_t(~sum)`
unfoldable pub checksum16 : List ℕ → ℕ → ℕ
checksum16 mem len = u16 (2 ^ 32 - 1 - fold_carries fold_fuel (add_words 0 mem len))
