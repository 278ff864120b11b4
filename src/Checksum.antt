-- ===== src/Checksum.antt =====
-- The RFC 1071 checksum, which src/pnx_ip.cc (`calc_iphd_checksum`) and src/includes/tcp_segment.h
-- (`_tcp_checksum`) compute by the same two loops: one adds the 16-bit words of a buffer in a
-- `uint32_t`, the other folds the sum to 16 bits.
pub mod Fold
pub mod Sum
pub mod Weights
use ns_stack.Base.{
  ℕ, zero, suc, ◌+◌, ◌-◌, ◌/◌, ◌%◌, List, [], ◌∷◌, ◌==◌, if◌then◌else◌, add32, u16_mod,
}
use ns_stack.Bytes.{word16}

-- The inner loop, with the byte that may be left over.
unfoldable pub add_words : ℕ → List ℕ → ℕ
add_words sum [] = sum
add_words sum (a ∷ []) = add32 sum a
add_words sum (a ∷ b ∷ rest) = add_words (add32 sum (word16 a b)) rest

-- `while (sum>>16) sum = (sum & 0xffff) + (sum >> 16);` on fuel.
unfoldable pub fold_loop : ℕ → ℕ → ℕ
fold_loop zero sum = sum
fold_loop (suc f) sum = elim (sum / u16_mod) [
  | zero ↦ sum
  | suc _ ↦ fold_loop f (sum % u16_mod + sum / u16_mod)
]

-- Three rounds are enough for a `uint32_t`.
unfoldable pub fold : ℕ → ℕ
unfolding fold_loop
fold sum = fold_loop 3 sum

-- `~(uint16_t)sum`
unfoldable pub complement : ℕ → ℕ
complement sum = u16_mod - 1 - sum % u16_mod
