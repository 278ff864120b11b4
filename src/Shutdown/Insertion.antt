-- ===== src/Shutdown/Insertion.antt =====
-- A sort by insertion fills the interface that stands for `std::sort`.
use ns_stack.Base.{
  ◌≤◌, ◌≡◌, refl, sym, subst, inl, inr, Bool, true, false, List, [], ◌∷◌, arith, leb, if◌then◌else◌,
  Bool-cases,
}
use mathlib.Core.List.Permᴰ
use mathlib.Core.List.{Memᴰ, Permᴰ}
use ns_stack.Shutdown.{CleanUp, IsSorted, Sorting}
use ns_stack.Shutdown.Order.{moved}

module _ (W : Type 0) where
  abbrev pub insert : CleanUp W → List (CleanUp W) → List (CleanUp W)
  insert x [] = x ∷ []
  insert x (y ∷ l) =
      let rest = insert x l in if leb x.priority y.priority then x ∷ y ∷ l else y ∷ rest

  abbrev pub sort : List (CleanUp W) → List (CleanUp W)
  sort [] = []
  sort (x ∷ l) = insert x (sort l)

  insert-permutes : (x : CleanUp W) (l : List (CleanUp W)) → Permᴰ (insert x l) (x ∷ l)
  insert-permutes x [] = Permᴰ.refl (x ∷ [])
  insert-permutes x (y ∷ l) = go (leb x.priority y.priority) (insert-permutes x l)
    where
      go :
          (b : Bool)
          → Permᴰ (insert x l) (x ∷ l)
          → Permᴰ (if b then x ∷ y ∷ l else y ∷ insert x l) (x ∷ y ∷ l)
      go true p = Permᴰ.refl (x ∷ y ∷ l)
      go false p = Permᴰ.trans (Permᴰ.cons refl p) (Permᴰ.swap refl refl)

  pub sort-permutes : (l : List (CleanUp W)) → Permᴰ (sort l) l
  sort-permutes [] = Permᴰ.nil
  sort-permutes (x ∷ l) =
      Permᴰ.trans (insert-permutes x (sort l)) (Permᴰ.cons refl (sort-permutes l))

  insert-IsSorted : (x : CleanUp W) (l : List (CleanUp W)) → IsSorted W l → IsSorted W (insert x l)
  insert-IsSorted x [] s = ((λ f m. elim m [ ]), tt)
  insert-IsSorted x (y ∷ l) (low, s) = elim (Bool-cases (leb x.priority y.priority)) [
    | inl le ↦ rw le (first le, (low, s))
    | inr gt ↦ rw gt (later gt, insert-IsSorted x l s)
  ]
    where
      first :
          leb x.priority y.priority ≡ true
          → (f : CleanUp W) → Memᴰ f (y ∷ l)
          → x.priority ≤ f.priority
      first le f (Memᴰ.head p) = subst (λ z. x.priority ≤ z.priority) (sym p) (ground arith)
      first le f (Memᴰ.tail m) = ground (arith, low f m)

      after :
          leb x.priority y.priority ≡ false
          → (f : CleanUp W) → Memᴰ f (x ∷ l)
          → y.priority ≤ f.priority
      after gt f (Memᴰ.head p) = subst (λ z. y.priority ≤ z.priority) (sym p) (ground arith)
      after gt f (Memᴰ.tail m) = low f m

      later :
          leb x.priority y.priority ≡ false
          → (f : CleanUp W) → Memᴰ f (insert x l)
          → y.priority ≤ f.priority
      later gt f m = after gt f (moved f (insert-permutes x l) m)

  pub sort-IsSorted : (l : List (CleanUp W)) → IsSorted W (sort l)
  sort-IsSorted [] = tt
  sort-IsSorted (x ∷ l) = insert-IsSorted x (sort l) (sort-IsSorted l)

  abbrev pub by_insertion : Sorting W
  by_insertion = record { sort = sort; ordered = sort-IsSorted; permutes = sort-permutes }
