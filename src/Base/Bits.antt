-- ===== src/Base/Bits.antt =====
-- The law on `&` that a masked address needs: a mask that is applied twice is applied once.
use Prim.Native.Nat.{ℕ, zero, suc, ◌+◌, ◌*◌, ◌/◌, ◌%◌, ◌≤◌, min, digits, bit_and, bit_and-bitwise}
use mathlib.Core.Path.{◌≡◌, refl, sym, subst, ap, ◌∙◌}
use native.Mathlib.Omega.{arith}

-- `&` with a count of digits that is at least the first number.
both : ℕ → ℕ → ℕ → ℕ
both n a b = digits (λ b. zero) min n a b

both_zero : (n b : ℕ) → both n 0 b ≡ 0
unfolding both
both_zero zero b = refl
both_zero (suc n) b = refl

both_step : (n a b : ℕ) → both (suc n) a b ≡ both n (a / 2) (b / 2) * 2 + min (a % 2) (b % 2)
unfolding both
both_step n zero b = omega (arith, both_zero n (b / 2))
both_step n (suc a) b = refl

again : (n k a b : ℕ) → a ≤ n → both n a b ≤ k → both k (both n a b) b ≡ both n a b
unfolding both
again zero k a b h l = both_zero k b
again (suc n) zero a b h l = omega (arith, l)
again (suc n) (suc k) a b h l =
    let x : ℕ = both (suc n) a b in
    let y : ℕ = both n (a / 2) (b / 2) in
    let d : ℕ = min (a % 2) (b % 2) in
    let e : x ≡ y * 2 + d = both_step n a b in
    let half : x / 2 ≡ y = omega (arith, e) in
    let low : x % 2 ≡ d = omega (arith, e) in
    let ih : both k y (b / 2) ≡ y =
      again n k (a / 2) (b / 2) (omega (arith, h)) (omega (arith, l, e)) in
    let s : both (suc k) x b ≡ both k y (b / 2) * 2 + min d (b % 2) =
      subst (λ z. both (suc k) x b ≡ both k z (b / 2) * 2 + min (x % 2) (b % 2)) half
        (both_step k x b)
      ∙ ap (λ z. both k y (b / 2) * 2 + min z (b % 2)) low in
    omega (arith, s, ih, e)

both-le : (n a b : ℕ) → a ≤ n → both n a b ≤ a
unfolding both
both-le zero a b h = omega arith
both-le (suc n) a b h = omega (arith, both_step n a b, both-le n (a / 2) (b / 2) (omega (arith, h)))

pub bit_and_again : (a m : ℕ) → bit_and (bit_and a m) m ≡ bit_and a m
unfolding both
bit_and_again a m =
    let x : bit_and a m ≡ both a a m = bit_and-bitwise a m in
    bit_and-bitwise (bit_and a m) m
    ∙ (ap (λ z. both z z m) x ∙ (again a (both a a m) a m (omega arith) (omega arith) ∙ sym x))
