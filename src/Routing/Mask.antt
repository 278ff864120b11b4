-- ===== src/Routing/Mask.antt =====
-- The masks that `subnet_len_to_mask` makes.
use ns_stack.Base.{
  ℕ, zero, suc, ◌-◌, ◌^◌, ◌<◌, ◌≤◌, ◌≡◌, ◌⊎◌, inl, inr, refl, sym, subst, Bool, true, ◌&&◌, ◌==◌,
  arith,
}
use ns_stack.Routing.{subnet_len_to_mask}

-- The masks for the first `n` lengths are runs of low bits.
unfoldable all_runs : ℕ → Bool
all_runs zero = true
all_runs (suc n) = (subnet_len_to_mask n == 2 ^ n - 1) && all_runs n

all_runs_33 : all_runs 33 ≡ true
unfolding all_runs subnet_len_to_mask
all_runs_33 = refl

last_or_before : (k n : ℕ) → k < suc n → (k ≡ n) ⊎ (k < n)
last_or_before k n h = ground arith

first_run : (n : ℕ) → all_runs (suc n) ≡ true → subnet_len_to_mask n ≡ 2 ^ n - 1
unfolding all_runs
first_run n e = ground arith

other_runs : (n : ℕ) → all_runs (suc n) ≡ true → all_runs n ≡ true
unfolding all_runs
other_runs n e = ground arith

run_at : (k n : ℕ) → k < n → all_runs n ≡ true → subnet_len_to_mask k ≡ 2 ^ k - 1
run_at k zero h e = absurd (omega arith)
run_at k (suc n) h e = elim (last_or_before k n h) [
  | inl same ↦ subst (λ i. subnet_len_to_mask i ≡ 2 ^ i - 1) (sym same) (first_run n e)
  | inr less ↦ run_at k n less (other_runs n e)
]

-- The mask for a prefix length is that many low bits of the word, so in the memory of a little-endian
-- host the first bytes are full and the last is filled from its low end.
pub subnet_len_to_mask_lem : (n : ℕ) → n ≤ 32 → subnet_len_to_mask n ≡ 2 ^ n - 1
subnet_len_to_mask_lem n h = run_at n 33 (omega arith) all_runs_33
