-- ===== src/Checksum/Fold.antt =====
-- The folding loop ends within its fuel, and computes the sum modulo 65535.
use ns_stack.Base.{ℕ, ◌%◌, ◌^◌, ◌<◌, ◌≡◌, ◌↔◌, arith, u16_mod}
use ns_stack.Checksum.{fold}

-- The loop has stopped by its own test: the result has no bits above the sixteenth. It is the sum
-- modulo 65535, where 65535 stands for the multiples of 65535 other than 0.
pub fold_lem :
    (sum : ℕ)
    → sum < 2 ^ 32
    → (fold sum < u16_mod) × (fold sum % 65535 ≡ sum % 65535) × ((fold sum ≡ 0) ↔ (sum ≡ 0))
unfolding fold
fold_lem sum h = ground arith
