-- ===== src/Ring/Queue.antt =====
-- What a ring buffer promises: a first-in-first-out queue of at most `cap` elements, oldest first.
use ns_stack.Base.{
  ℕ, ◌-◌, Bool, true, false, Option, none, some, List, [], ◌∷◌, ◌++◌, ltb, leb, if◌then◌else◌,
  length, take, drop,
}

abbrev pub Queue {ℓ} : Type ℓ → Type ℓ
Queue A = List A

module _ {ℓ} {A : Type ℓ} where
  abbrev pub peek : Queue A → Option A
  peek [] = none
  peek (x ∷ q) = some x

  abbrev pub pop : Queue A → Queue A × Option A
  pop [] = ([], none)
  pop (x ∷ q) = (q, some x)

  -- All of the first `n` elements, or nothing.
  abbrev pub pop_all : Queue A → ℕ → Queue A × Option (List A)
  pop_all q n = if ltb (length q) n then (q, none) else (drop n q, some (take n q))

  abbrev pub push : ℕ → Queue A → A → Queue A × Bool
  push c q a = if leb c (length q) then (q, false) else (q ++ (a ∷ []), true)

  -- All of the first `n` elements at `a`, or none of them.
  abbrev pub push_all : ℕ → Queue A → List A → ℕ → Queue A × Bool
  push_all c q a n = if ltb (c - length q) n then (q, false) else (q ++ take n a, true)
