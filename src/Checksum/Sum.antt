-- ===== src/Checksum/Sum.antt =====
-- The checksum against its specification in RFC 1071: the words are added in one's complement, where
-- a carry out of the sixteenth bit is added back at once.
use ns_stack.Base.{
  ℕ, ◌+◌, ◌-◌, ◌*◌, ◌%◌, ◌^◌, ◌≤◌, ◌<◌, ◌≡◌, ◌↔◌, refl, arith, List, [], ◌∷◌, ltb, if◌then◌else◌,
  length, u16_mod, add32, All,
}
use ns_stack.Bytes.{word16}
use ns_stack.Checksum.{add_words, fold, complement}
use ns_stack.Checksum.Fold.{fold_lem}

abbrev pub oc_add : ℕ → ℕ → ℕ
oc_add a b = if ltb (a + b) u16_mod then a + b else a + b - 65535

unfoldable pub oc_sum : ℕ → List ℕ → ℕ
oc_sum sum [] = sum
oc_sum sum (a ∷ []) = oc_add sum a
oc_sum sum (a ∷ b ∷ rest) = oc_sum (oc_add sum (word16 a b)) rest

abbrev pub IsByte : ℕ → Type 0
IsByte b = b < 256

-- A 32-bit sum `s` stands for the one's complement sum `t`.
record StandsFor (s t : ℕ) : Type 0 where
  small : t < u16_mod
  same : t % 65535 ≡ s % 65535
  zero_iff : (t ≡ 0) ↔ (s ≡ 0)

StandsFor-add : (s t w : ℕ) → w < u16_mod → StandsFor s t → StandsFor (s + w) (oc_add t w)
StandsFor-add s t w h c = ground arith

StandsFor-fold : (s t : ℕ) → s < 2 ^ 32 → StandsFor s t → fold s ≡ t
StandsFor-fold s t h c = ground (arith, fold_lem s)

-- Adding at most `n` pairs of bytes, the `uint32_t` does not wrap.
add_words-StandsFor :
    (n s t : ℕ) (bs : List ℕ)
    → length bs ≤ 2 * n
    → s + 65535 * n < 2 ^ 32
    → All IsByte bs
    → StandsFor s t
    → StandsFor (add_words s bs) (oc_sum t bs) × (add_words s bs ≤ s + 65535 * n)
unfolding add_words oc_sum
add_words-StandsFor n s t [] len room bytes c = (c, omega arith)
add_words-StandsFor n s t (a ∷ []) len room bytes c =
    let e : add32 s a ≡ s + a = omega arith in
    rw e (StandsFor-add s t a (omega arith) c, omega arith)
add_words-StandsFor n s t (a ∷ b ∷ rest) len room bytes c =
    let w : ℕ = word16 a b in
    let e : add32 s w ≡ s + w = omega arith in
    let (same, le) =
      add_words-StandsFor (n - 1) (s + w) (oc_add t w) rest (omega arith) (omega arith) bytes.1.1
        (StandsFor-add s t w (omega arith) c) in
    rw e (same, omega arith)

-- Adding the words in 32 bits and folding at the end gives the one's complement sum, for up to
-- 130,000 bytes.
pub fold-add_words :
    (bs : List ℕ) → length bs ≤ 130000 → All IsByte bs → fold (add_words 0 bs) ≡ oc_sum 0 bs
fold-add_words bs len bytes =
    let (same, le) =
      add_words-StandsFor 65000 0 0 bs (omega arith) (omega arith) bytes
        (record { small = omega arith; same = refl; zero_iff = (λ e. e, λ e. e) }) in
    StandsFor-fold (add_words 0 bs) (oc_sum 0 bs) (omega arith) same

-- Adding the checksum to the sum that it was computed from gives 0xffff, as a receiver of RFC 1071
-- checks, if the sum does not wrap.
pub fold-complement : (s : ℕ) → s + u16_mod < 2 ^ 32 → fold (s + complement (fold s)) ≡ 65535
unfolding complement
fold-complement s h = ground (arith, fold_lem s, fold_lem (s + (65535 - fold s)))

-- Two 32-bit sums have the same checksum exactly when they are equal modulo 65535, and both 0 or
-- neither.
pub complement-fold_iff :
    (s t : ℕ)
    → s < 2 ^ 32
    → t < 2 ^ 32
    → (complement (fold s) ≡ complement (fold t)) ↔ ((s % 65535 ≡ t % 65535) × ((s ≡ 0) ↔ (t ≡ 0)))
unfolding complement
complement-fold_iff s t hs ht = ground (arith, fold_lem s, fold_lem t)
