-- ===== src/Ring/Blocking.antt =====
-- The class `BlockingRingBuffer` of src/includes/ringbuffer.h. A call holds the mutex but for its
-- waits, so it is a sequence of steps between them: `others i r` is what the other threads leave of
-- the buffer `r` by the end of this call's wait number `i`. A wait ends by a notice or by its timeout.
use ns_stack.Base.{
  ℕ, zero, suc, ◌+◌, ◌<◌, ◌≡◌, refl, ap, ◌∙◌, inl, inr, Bool-cases, Bool, true, false, Option, none,
  some, List, [], ◌∷◌, ◌++◌, arith, ltb, leb, length,
}
use ns_stack.Ring
use ns_stack.Ring.{RingBuffer}
use ns_stack.Ring.Inv.{IsValid, full_iff, empty_iff, size-le-cap}
use ns_stack.Ring.Refine.{contents, push_refines, pop_oldest, length-contents}

module _ {ℓ} {A : Type ℓ} (cap : ℕ) (others : ℕ → RingBuffer A → RingBuffer A) where
  -- The loop of `push`. `cnt` is its counter; the fuel is the number of waits that are left.
  unfoldable pub push_loop : ℕ → ℕ → RingBuffer A → A → RingBuffer A × Bool
  push_loop zero cnt r a = (r, false)
  push_loop (suc f) cnt r a = elim (Ring.full cap r) [
    | false ↦ ((Ring.push cap r a).0, true)
    | true ↦ elim (ltb 2 (cnt + 1)) [
      | true ↦ (others cnt r, false)
      | false ↦ push_loop f (cnt + 1) (others cnt r) a
    ]
  ]

  unfoldable pub push : RingBuffer A → A → RingBuffer A × Bool
  unfolding push_loop
  push r a = push_loop 3 0 r a

  -- The loop of `pop`; the outer `none` is the exception of `value()` on an empty optional.
  unfoldable pub pop_loop : ℕ → ℕ → RingBuffer A → Option (RingBuffer A × Option A)
  pop_loop zero cnt r = some (r, none)
  pop_loop (suc f) cnt r = elim (Ring.empty r) [
    | false ↦ let (r', o) = Ring.pop cap r in elim o [ none ↦ none | some a ↦ some (r', some a) ]
    | true ↦ elim (ltb 2 (cnt + 1)) [
      | true ↦ some (others cnt r, none)
      | false ↦ pop_loop f (cnt + 1) (others cnt r)
    ]
  ]

  unfoldable pub pop : RingBuffer A → Option (RingBuffer A × Option A)
  unfolding pop_loop
  pop r = pop_loop 3 0 r

  unfoldable pub size : RingBuffer A → ℕ
  size r = Ring.size cap r

-- The buffer that a call finds at its test number `j` after its wait number `cnt`, starting from `r`.
abbrev pub found {ℓ} :
    {A : Type ℓ} → (ℕ → RingBuffer A → RingBuffer A) → ℕ → RingBuffer A → ℕ → RingBuffer A
found others cnt r zero = r
found others cnt r (suc j) = found others (cnt + 1) (others cnt r) j

-- How a push with `tests` tests of the buffer ends: the element was appended to the buffer of the
-- first test that found room, or all tests found the buffer full and the last wait's is left.
pub data PushEnds {ℓ} {A : Type ℓ} (cap : ℕ) (others : ℕ → RingBuffer A → RingBuffer A)
    (tests cnt : ℕ) (r : RingBuffer A) (a : A) (out : RingBuffer A × Bool) : Type ℓ where
  appended :
      (k : ℕ)
      → k < tests
      → ((j : ℕ) → j < k → length (contents cap (found others cnt r j)) ≡ cap)
      → length (contents cap (found others cnt r k)) < cap
      → contents cap out.0 ≡ contents cap (found others cnt r k) ++ (a ∷ [])
      → out.1 ≡ true
      → PushEnds cap others tests cnt r a out
  gave_up :
      ((j : ℕ) → j < tests → length (contents cap (found others cnt r j)) ≡ cap)
      → out.0 ≡ found others cnt r tests
      → out.1 ≡ false
      → PushEnds cap others tests cnt r a out

-- The same of a pop, whose tests are for a buffer that is not empty.
pub data PopEnds {ℓ} {A : Type ℓ} (cap : ℕ) (others : ℕ → RingBuffer A → RingBuffer A)
    (tests cnt : ℕ) (r : RingBuffer A) (out : Option (RingBuffer A × Option A)) : Type ℓ where
  taken :
      (k : ℕ) (r' : RingBuffer A) (a : A)
      → k < tests
      → ((j : ℕ) → j < k → contents cap (found others cnt r j) ≡ [])
      → contents cap (found others cnt r k) ≡ a ∷ contents cap r'
      → out ≡ some (r', some a)
      → PopEnds cap others tests cnt r out
  gave_up :
      ((j : ℕ) → j < tests → contents cap (found others cnt r j) ≡ [])
      → out ≡ some (found others cnt r tests, none)
      → PopEnds cap others tests cnt r out

-- A property of the first buffer and of the later ones before test `k + 1`.
from_first {ℓ m} :
    {A : Type ℓ} (P : RingBuffer A → Type m) (others : ℕ → RingBuffer A → RingBuffer A) (cnt : ℕ)
    (r : RingBuffer A) (k : ℕ)
    → P r
    → ((j : ℕ) → j < k → P (found others (cnt + 1) (others cnt r) j))
    → (j : ℕ) → j < suc k
    → P (found others cnt r j)
from_first P others cnt r k p ps zero l = p
from_first P others cnt r k p ps (suc j) l = ps j (omega arith)

module _ {ℓ} {A : Type ℓ} {cap : ℕ} (others : ℕ → RingBuffer A → RingBuffer A)
    (keep : (i : ℕ) (r : RingBuffer A) → IsValid cap r → IsValid cap (others i r)) where
  push_again :
      (f cnt : ℕ) (r : RingBuffer A) (a : A) (out : RingBuffer A × Bool)
      → length (contents cap r) ≡ cap
      → PushEnds cap others f (cnt + 1) (others cnt r) a out
      → PushEnds cap others (suc f) cnt r a out
  push_again f cnt r a out full (appended k l busy room same done) =
      appended (suc k) (omega arith)
        (from_first (λ x. length (contents cap x) ≡ cap) others cnt r k full busy) room same done
  push_again f cnt r a out full (gave_up busy left done) =
      gave_up (from_first (λ x. length (contents cap x) ≡ cap) others cnt r f full busy) left done

  push_loop-PushEnds :
      (f cnt : ℕ) {r : RingBuffer A} (a : A)
      → f + cnt ≡ 3
      → IsValid cap r
      → PushEnds cap others f cnt r a (push_loop cap others f cnt r a)
  unfolding push_loop
  push_loop-PushEnds zero cnt a n v = gave_up (λ j l. absurd (omega arith)) refl refl
  push_loop-PushEnds (suc f) cnt {r} a n v = elim (Bool-cases (Ring.full cap r)) [
    | inl e ↦
        let all : length (contents cap r) ≡ cap =
          ground (arith, length-contents v, full_iff v, size-le-cap v) in
        elim (Bool-cases (ltb 2 (cnt + 1))) [
          | inl last ↦ rw (e, push_loop) (rw last (only f (ground arith) all))
          | inr more ↦
              rw (e, push_loop)
                (rw more (
                  push_again f cnt r a _ all
                    (push_loop-PushEnds f (cnt + 1) a (omega arith) (keep cnt r v))))
        ]
    | inr e ↦
        let low : length (contents cap r) < cap =
          ground (arith, length-contents v, full_iff v, size-le-cap v) in
        let test : leb cap (length (contents cap r)) ≡ false = ground arith in
        let same : contents cap (Ring.push cap r a).0 ≡ contents cap r ++ (a ∷ []) =
          ap (λ p. p.0) (push_refines v a).1 ∙ rw test in
        rw (e, push_loop) (appended 0 (omega arith) (λ j l. absurd (omega arith)) low same refl)
  ]
    where
      only :
          (f : ℕ)
          → f ≡ 0
          → length (contents cap r) ≡ cap
          → PushEnds cap others (suc f) cnt r a (others cnt r, false)
      only zero z all =
          push_again zero cnt r a _ all (gave_up (λ j l. absurd (omega arith)) refl refl)
      only (suc f) z all = absurd (omega arith)

  -- A blocking push on a valid buffer tests it three times at most, with a wait behind each test that
  -- finds it full, after which it is as the other threads left it. It appends the element to the buffer
  -- of the first test that finds room and returns true; if none does, it returns false and leaves the
  -- buffer as the last wait did. The other threads keep the buffer valid.
  pub push-PushEnds :
      {r : RingBuffer A} (a : A) → IsValid cap r → PushEnds cap others 3 0 r a (push cap others r a)
  unfolding push
  push-PushEnds a v = push_loop-PushEnds 3 0 a refl v

  pop_again :
      (f cnt : ℕ) (r : RingBuffer A) (out : Option (RingBuffer A × Option A))
      → contents cap r ≡ []
      → PopEnds cap others f (cnt + 1) (others cnt r) out
      → PopEnds cap others (suc f) cnt r out
  pop_again f cnt r out e (taken k r' a l idle oldest done) =
      taken (suc k) r' a (omega arith) (from_first (λ x. contents cap x ≡ []) others cnt r k e idle)
        oldest done
  pop_again f cnt r out e (gave_up idle done) =
      gave_up (from_first (λ x. contents cap x ≡ []) others cnt r f e idle) done

  pop_loop-PopEnds :
      (f cnt : ℕ) {r : RingBuffer A}
      → f + cnt ≡ 3
      → IsValid cap r
      → PopEnds cap others f cnt r (pop_loop cap others f cnt r)
  unfolding pop_loop
  pop_loop-PopEnds zero cnt {r} n v = gave_up (λ j l. absurd (omega arith)) refl
  pop_loop-PopEnds (suc f) cnt {r} n v = elim (Bool-cases (Ring.empty r)) [
    | inl e ↦
        let none_left : contents cap r ≡ [] =
          nothing (contents cap r) (ground (arith, length-contents v, empty_iff v)) in
        elim (Bool-cases (ltb 2 (cnt + 1))) [
          | inl last ↦ rw (e, pop_loop) (rw last (only f (ground arith) none_left))
          | inr more ↦
              rw (e, pop_loop)
                (rw more (
                  pop_again f cnt r _ none_left
                    (pop_loop-PopEnds f (cnt + 1) (omega arith) (keep cnt r v))))
        ]
    | inr e ↦
        let (a, p, c) = pop_oldest v e in
        rw (e, pop_loop)
          (rw p (taken 0 (Ring.pop cap r).0 a (omega arith) (λ j l. absurd (omega arith)) c refl))
  ]
    where
      nothing : (l : List A) → length l ≡ 0 → l ≡ []
      nothing [] h = refl
      nothing (x ∷ l) h = absurd (omega (arith, h))

      only :
          (f : ℕ)
          → f ≡ 0
          → contents cap r ≡ []
          → PopEnds cap others (suc f) cnt r (some (others cnt r, none))
      only zero z e = pop_again zero cnt r _ e (gave_up (λ j l. absurd (omega arith)) refl)
      only (suc f) z e = absurd (omega arith)

  -- A blocking pop on a valid buffer tests it three times at most, with a wait behind each test that
  -- finds it empty, after which it is as the other threads left it. It takes the oldest element of the
  -- buffer of the first test that finds one; if none does, it returns nothing and leaves the buffer as
  -- the last wait did. The other threads keep the buffer valid; `value()` never throws.
  pub pop-PopEnds : {r : RingBuffer A} → IsValid cap r → PopEnds cap others 3 0 r (pop cap others r)
  unfolding pop
  pop-PopEnds v = pop_loop-PopEnds 3 0 refl v
