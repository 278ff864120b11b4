-- ===== src/Base/Assoc.antt =====
-- Association lists in place of `std::unordered_map`, for a Boolean test of the keys.
use mathlib.Core.Path.{◌≡◌, refl, sym, subst}
use mathlib.Core.Logic.{◌↔◌, ◌≢◌, ◌⊎◌}
use mathlib.Core.Bool.{Bool, true, false}
use mathlib.Core.Option.{Option, none, some}
use mathlib.Core.List.{List, [], ◌∷◌}
use native.Mathlib.Omega.{arith}
use ns_stack.Base.Tests.{if◌then◌else◌, Bool-cases}
use mathlib.Core.Logic.{inl, inr}

apart {ℓ} :
    {K : Type ℓ} (eq : K → K → Bool)
    → ((a b : K) → (eq a b ≡ true) ↔ (a ≡ b))
    → (k j i : K) → eq k i ≡ false
    → eq j k ≡ true
    → eq j i ≡ false
apart eq agrees k j i n y = subst (λ x. eq x i ≡ false) (sym ((agrees j k).0 y)) n

module _ {ℓ κ} {K : Type ℓ} {V : Type κ} (eq : K → K → Bool) where
  unfoldable pub lookup : K → List (K × V) → Option V
  lookup k [] = none
  lookup k (e ∷ m) = let rest = lookup k m in if eq k e.0 then some e.1 else rest

  unfoldable pub remove : K → List (K × V) → List (K × V)
  remove k [] = []
  remove k (e ∷ m) = let rest = remove k m in if eq k e.0 then rest else e ∷ rest

  unfoldable pub put : K → V → List (K × V) → List (K × V)
  unfolding remove
  put k v m = (k, v) ∷ remove k m

  again :
      (b : Bool) (v : V) (o : Option V)
      → (if b then none else o) ≡ (if b then none else (if b then some v else o))
  again true v o = refl
  again false v o = refl

  skip :
      (b : Bool) (v : V) (o : Option V)
      → (if b then some v else (if b then none else o)) ≡ (if b then some v else o)
  skip true v o = refl
  skip false v o = refl

  swap :
      (b d : Bool) (v : V) (o : Option V)
      → (b ≡ true → d ≡ false)
      → (if d then some v else (if b then none else o))
        ≡ (if b then none else (if d then some v else o))
  swap true true v o h = cc (h refl)
  swap true false v o h = refl
  swap false d v o h = refl

  module _ (agrees : (a b : K) → (eq a b ≡ true) ↔ (a ≡ b)) where
    pub lookup-remove :
        (k j : K) (m : List (K × V)) → lookup j (remove k m) ≡ (if eq j k then none else lookup j m)
    unfolding lookup remove
    lookup-remove k j [] = ground arith
    lookup-remove k j (e ∷ m) =
        let ih = lookup-remove k j m in
        elim (Bool-cases (eq k e.0)) [
          | inl same ↦
              let at : e.0 ≡ k = sym ((agrees k e.0).0 same) in
              rw (same, at, ih) (again (eq j k) e.1 (lookup j m))
          | inr other ↦
              rw (other, ih)
                (swap (eq j k) (eq j e.0) e.1 (lookup j m) (apart eq agrees k j e.0 other))
        ]

    pub lookup-put :
        (k j : K) (v : V) (m : List (K × V))
        → lookup j (put k v m) ≡ (if eq j k then some v else lookup j m)
    unfolding lookup put
    lookup-put k j v m = rw (lookup-remove k j m) (skip (eq j k) v (lookup j m))

    pub put_cases :
        (k j : K) (v : V) (m : List (K × V))
        → ((j ≡ k) × (lookup j (put k v m) ≡ some v))
          ⊎ ((j ≢ k) × (lookup j (put k v m) ≡ lookup j m))
    put_cases k j v m = elim (Bool-cases (eq j k)) [
      | inl y ↦ inl ((agrees j k).0 y, rw (lookup-put k j v m, y) refl)
      | inr n ↦ inr (λ e. cc (n, (agrees j k).1 e), rw (lookup-put k j v m, n) refl)
    ]

    pub remove_cases :
        (k j : K) (m : List (K × V))
        → ((j ≡ k) × (lookup j (remove k m) ≡ none))
          ⊎ ((j ≢ k) × (lookup j (remove k m) ≡ lookup j m))
    remove_cases k j m = elim (Bool-cases (eq j k)) [
      | inl y ↦ inl ((agrees j k).0 y, rw (lookup-remove k j m, y) refl)
      | inr n ↦ inr (λ e. cc (n, (agrees j k).1 e), rw (lookup-remove k j m, n) refl)
    ]
