-- ===== src/Ring/Inv.antt =====
-- The representation invariant of a ring buffer, and its counts as numbers without a modulus.
use native.Mathlib.Nat.{mod-eq_of_lt, add-mod_right, mod_self}
use ns_stack.Base.{
  ℕ, ◌+◌, ◌-◌, ◌%◌, ◌^◌, ◌≤◌, ◌<◌, ◌≡◌, ◌∙◌, ◌↔◌, true, inl, inr, leb, if◌then◌else◌, arith, length,
  add64, Bool-cases,
}
use ns_stack.Ring.{RingBuffer, empty, size, full, array_size, rest_capacity}

pub record IsValid {ℓ} {A : Type ℓ} (cap : ℕ) (r : RingBuffer A) : Type 0 where
  pub storage : length r.buf ≡ cap + 1
  pub small : cap < 2 ^ 31
  pub pop_in : r.next_pop ≤ cap
  pub push_in : r.next_push ≤ cap

-- The number of elements held, without a modulus.
abbrev pub held {ℓ} : {A : Type ℓ} → ℕ → RingBuffer A → ℕ
held cap r =
    if leb r.next_pop r.next_push
    then r.next_push - r.next_pop
    else r.next_push + (cap + 1) - r.next_pop

mod_wrapped : (x n : ℕ) → x < n → (x + n) % n ≡ x
mod_wrapped x n h = add-mod_right x n ∙ mod-eq_of_lt h

-- The index after `i`, which comes round to 0 at the end of the array.
abbrev pub next_index : ℕ → ℕ → ℕ
next_index c i = if leb (i + 1) c then i + 1 else 0

pub next_index_lem : (c i : ℕ) → c < 2 ^ 31 → i ≤ c → add64 i 1 % array_size c ≡ next_index c i
next_index_lem c i s h = elim (Bool-cases (leb (i + 1) c)) [
  | inl e ↦ ground (arith, mod-eq_of_lt {n = i + 1} {m = c + 1})
  | inr e ↦ ground (arith, mod_self (c + 1))
]

module _ {ℓ} {A : Type ℓ} {cap : ℕ} {r : RingBuffer A} (v : IsValid cap r) where
  pub size-held : size cap r ≡ held cap r
  unfolding size
  size-held = elim (Bool-cases (leb r.next_pop r.next_push)) [
    | inl e ↦ ground (arith, mod_wrapped (r.next_push - r.next_pop) (cap + 1))
    | inr e ↦ ground (arith, mod-eq_of_lt {n = r.next_push + (cap + 1) - r.next_pop} {m = cap + 1})
  ]

  pub size-le-cap : size cap r ≤ cap
  size-le-cap = ground (arith, size-held)

  pub empty_iff : (empty r ≡ true) ↔ (size cap r ≡ 0)
  unfolding empty
  empty_iff = ground (arith, size-held)

  pub full_iff : (full cap r ≡ true) ↔ (size cap r ≡ cap)
  unfolding full
  full_iff = ground (arith, size-held, next_index_lem cap r.next_push)

  pub rest_capacity-add-size : rest_capacity cap r + size cap r ≡ cap
  unfolding rest_capacity
  rest_capacity-add-size = omega (arith, size-le-cap)
