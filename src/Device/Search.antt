-- ===== src/Device/Search.antt =====
-- What the two searches of the device table find.
use ns_stack.Base.{
  ℕ, zero, suc, ◌+◌, ◌<◌, ◌≡◌, refl, subst, inl, inr, Bool, true, false, Bool-cases, Option, none,
  some, List, [], ◌∷◌, arith, get_elem?,
}
use ns_stack.Device.{Device, first_id, get_dev_from_subnet, on_subnet}

-- The outcome of a search that begins at the id `base`: the first device that passes, or none does.
pub data Finds (p : Device → Bool) (devs : List Device) (base : ℕ) : Option ℕ → Type 0 where
  found :
      (i : ℕ) (d : Device)
      → get_elem? devs i ≡ some d
      → p d ≡ true
      → ((j : ℕ) (e : Device) → j < i → get_elem? devs j ≡ some e → p e ≡ false)
      → Finds p devs base (some (base + i))
  missing :
      ((j : ℕ) (e : Device) → get_elem? devs j ≡ some e → p e ≡ false) → Finds p devs base none

module _ (p : Device → Bool) where
  later :
      (d : Device) (devs : List Device) (base : ℕ) (o : Option ℕ)
      → p d ≡ false
      → Finds p devs (base + 1) o
      → Finds p (d ∷ devs) base o
  later d devs base o miss (found i e at hit before) =
      subst (λ n. Finds p (d ∷ devs) base (some n)) (sums i) (found (suc i) e at hit earlier)
    where
      sums : (i : ℕ) → base + suc i ≡ base + 1 + i
      sums i = omega arith

      earlier : (j : ℕ) (x : Device) → j < suc i → get_elem? (d ∷ devs) j ≡ some x → p x ≡ false
      earlier zero x h q = ground arith
      earlier (suc j) x h q = before j x (omega arith) q
  later d devs base o miss (missing none_hit) = missing all
    where
      all : (j : ℕ) (x : Device) → get_elem? (d ∷ devs) j ≡ some x → p x ≡ false
      all zero x q = ground arith
      all (suc j) x q = none_hit j x q

  pub first_id-Finds : (devs : List Device) (base : ℕ) → Finds p devs base (first_id p devs base)
  unfolding first_id
  first_id-Finds [] base = missing (λ j e q. cc)
  first_id-Finds (d ∷ devs) base = elim (Bool-cases (p d)) [
    | inl hit ↦ rw hit (
        subst (λ n. Finds p (d ∷ devs) base (some n)) (plus_zero base)
          (found 0 d refl hit (λ j e h q. absurd (omega arith))))
    | inr miss ↦ rw miss (later d devs base _ miss (first_id-Finds devs (base + 1)))
  ]
    where
      plus_zero : (n : ℕ) → n + 0 ≡ n
      plus_zero n = omega arith

-- `get_dev_from_subnet` finds the first device whose mask is the one given and whose address the
-- mask does not tell from the one given, or -1 where there is none.
pub get_dev_from_subnet-Finds :
    (devs : List Device) (ip mask : ℕ)
    → Finds (on_subnet ip mask) devs 0 (get_dev_from_subnet devs ip mask)
unfolding get_dev_from_subnet
get_dev_from_subnet-Finds devs ip mask = first_id-Finds (on_subnet ip mask) devs 0
