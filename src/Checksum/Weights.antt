-- ===== src/Checksum/Weights.antt =====
-- The sum of the words of a buffer in plain numbers, and what a change of one byte does to it.
use ns_stack.Base.{
  ℕ, zero, suc, ◌+◌, ◌*◌, ◌^◌, ◌≤◌, ◌<◌, ◌≡◌, ◌⊎◌, arith, some, List, [], ◌∷◌, length, get_elem?,
  set, add32, All,
}
use ns_stack.Bytes.{word16}
use ns_stack.Checksum.{add_words}
use ns_stack.Checksum.Sum.{IsByte}

abbrev pub weigh : List ℕ → ℕ
weigh [] = 0
weigh (a ∷ []) = a
weigh (a ∷ b ∷ rest) = word16 a b + weigh rest

pub add_words-weigh : (s : ℕ) (bs : List ℕ) → s + weigh bs < 2 ^ 32 → add_words s bs ≡ s + weigh bs
unfolding add_words
add_words-weigh s [] h = omega arith
add_words-weigh s (a ∷ []) h = omega arith
add_words-weigh s (a ∷ b ∷ rest) h =
    let e : add32 s (word16 a b) ≡ s + word16 a b = omega arith in
    rw e (omega (arith, add_words-weigh (s + word16 a b) rest (omega arith)))

pub weigh-le : (n : ℕ) (bs : List ℕ) → All IsByte bs → length bs ≤ 2 * n → weigh bs ≤ 65535 * n
weigh-le n [] bytes h = omega arith
weigh-le n (a ∷ []) bytes h = omega arith
weigh-le zero (a ∷ b ∷ rest) bytes h = absurd (omega arith)
weigh-le (suc n) (a ∷ b ∷ rest) bytes h = omega (arith, weigh-le n rest bytes.1.1 (omega arith))

-- Writing `y` over `x` changes the sum by their difference, or by 256 times it.
pub weigh-set :
    (bs : List ℕ) (i x y : ℕ)
    → get_elem? bs i ≡ some x
    → (weigh (set bs i y) + x ≡ weigh bs + y) ⊎ (weigh (set bs i y) + 256 * x ≡ weigh bs + 256 * y)
weigh-set [] i x y e = cc
weigh-set (a ∷ []) zero x y e = ground arith
weigh-set (a ∷ []) (suc i) x y e = cc
weigh-set (a ∷ b ∷ rest) zero x y e = ground arith
weigh-set (a ∷ b ∷ rest) (suc zero) x y e = ground arith
weigh-set (a ∷ b ∷ rest) (suc (suc i)) x y e = ground (arith, weigh-set rest i x y e)

pub All-set : (bs : List ℕ) (i y : ℕ) → y < 256 → All IsByte bs → All IsByte (set bs i y)
All-set [] i y h bytes = tt
All-set (a ∷ bs) zero y h bytes = (h, bytes.1)
All-set (a ∷ bs) (suc i) y h bytes = (bytes.0, All-set bs i y h bytes.1)
